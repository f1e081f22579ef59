-- ===== src/Mapping.antt =====
-- internal/controller/clientprofilemapping_controller.go: the ClientProfileMapping controller, which
-- builds the cluster mapping of the csi config map from all the mappings of a namespace.
use ceph_csi_operator.Prelude.{
  List, Bool, Option, String, ◌∷◌, [], ℕ, ◌==◌, none, ◌&&◌, any_of, some, if◌then◌else◌, length,
  get_elem?, set, ◌++◌,
}
use ceph_csi_operator.Prelude.Assoc.{Assoc}
use ceph_csi_operator.Prelude.Result.{Result, Method, pure, panic, ok, ◌>>◌, err}
use ceph_csi_operator.Api.Profile.{MappingsSpec, ClientProfileMapping, BlockPoolIdPair}
pub mod Groups
pub mod Pools
pub mod Extend
pub mod Refines
pub mod Content
pub mod Config
pub mod Watches

-- `mappingKey`
pub record MappingKey : Type 0 where
  pub local : String
  pub remote : String

-- `duplicationKey`: a mapping key and a pair of pools
pub record DuplicationKey : Type 0 where
  pub key : MappingKey
  pub local_pool : String
  pub remote_pool : String

-- `csiClusterMappingRecord`
pub record CsiClusterMappingRecord : Type 0 where
  pub cluster_id_mapping : Assoc String
  pub rbd_pool_id_mapping : List (Assoc String)

-- The local variables of the scan: `indexByPair`, `csiClusterMappingsList`, `alreadySeen`.
pub record Scan : Type 0 where
  pub index_by_pair : List (MappingKey × ℕ)
  pub csi_cluster_mappings_list : List CsiClusterMappingRecord
  pub already_seen : List DuplicationKey

abbrev pub same_key : MappingKey → MappingKey → Bool
same_key a b = a.local == b.local && a.remote == b.remote

abbrev pub same_pool : DuplicationKey → DuplicationKey → Bool
same_pool a b =
    same_key a.key b.key && (a.local_pool == b.local_pool && a.remote_pool == b.remote_pool)

-- `index, ok := indexByPair[key]`
unfoldable pub index_of : MappingKey → List (MappingKey × ℕ) → Option ℕ
index_of key [] = none
index_of key ((k, i) ∷ entries) = if same_key k key then some i else index_of key entries

-- `alreadySeen[dupKey]`
unfoldable pub is_seen : DuplicationKey → List DuplicationKey → Bool
is_seen k seen = any_of (λ j. same_pool j k) seen

-- The loop over the pairs of pools; a pair of less than two items panics.
unfoldable pub add_pools :
    MappingKey
    → List BlockPoolIdPair
    → Method (List (Assoc String) × List DuplicationKey) (Unit {0})
unfolding is_seen
add_pools key [] s = (ok tt, s)
add_pools key ((local ∷ remote ∷ more) ∷ pairs) (pools, seen) =
    let dup_key : DuplicationKey = record { key = key; local_pool = local; remote_pool = remote } in
    add_pools key pairs (
      if is_seen dup_key seen
      then (pools, seen)
      else (pools ++ ((local, remote) ∷ []) ∷ [], dup_key ∷ seen))
add_pools key (pair ∷ pairs) s = (panic, s)

abbrev pub key_of : MappingsSpec → MappingKey
key_of mapping = record {
  local = mapping.local_client_profile;
  remote = mapping.remote_client_profile;
}

-- A record with the key and no pools
abbrev pub new_record : MappingKey → CsiClusterMappingRecord
new_record key = record {
  cluster_id_mapping = (key.local, key.remote) ∷ [];
  rbd_pool_id_mapping = [];
}

-- The index of the key's record, which is appended where there is none.
unfoldable pub ensure_record : MappingKey → Option ℕ → Scan → ℕ × Scan
ensure_record key (some index) s = (index, s)
ensure_record key none s =
    let index = length s.csi_cluster_mappings_list in
    (
      index,
      record s {
        index_by_pair = (key, index) ∷ s.index_by_pair;
        csi_cluster_mappings_list = s.csi_cluster_mappings_list ++ new_record key ∷ [];
      },
    )

-- `csiClusterMappingsList[index].RbdPoolIdMapping = rbdPoolIdMapping`
unfoldable pub put_pools :
    ℕ
    → CsiClusterMappingRecord
    → Scan
    → Result (Unit {0}) × (List (Assoc String) × List DuplicationKey)
    → Result (Unit {0}) × Scan
put_pools index r s (ok u, (pools, seen)) = (
  ok tt,
  record s {
    csi_cluster_mappings_list =
        set s.csi_cluster_mappings_list index (record r { rbd_pool_id_mapping = pools });
    already_seen = seen;
  },
)
put_pools index r s (err e, (pools, seen)) = (err e, s)
put_pools index r s (panic, (pools, seen)) = (panic, s)

-- The pools of the record at the index are extended; an index out of range panics.
unfoldable pub extend_record :
    MappingsSpec → ℕ → Option CsiClusterMappingRecord → Method Scan (Unit {0})
unfolding put_pools
extend_record mapping index none s = (panic, s)
extend_record mapping index (some r) s = put_pools index r s (
    add_pools (key_of mapping) mapping.block_pool_id_mapping
      (r.rbd_pool_id_mapping, s.already_seen))

-- One iteration of the inner loop
unfoldable pub add_mapping : MappingsSpec → Method Scan (Unit {0})
unfolding extend_record
add_mapping mapping s =
    let (index, s') =
      ensure_record (key_of mapping) (index_of (key_of mapping) s.index_by_pair) s in
    extend_record mapping index (get_elem? s'.csi_cluster_mappings_list index) s'

unfoldable pub scan_mappings : List MappingsSpec → Method Scan (Unit {0})
scan_mappings [] = pure tt
scan_mappings (mapping ∷ mappings) = add_mapping mapping >> scan_mappings mappings

-- The two loops: all mappings of all items
unfoldable pub scan_items : List ClientProfileMapping → Method Scan (Unit {0})
scan_items [] = pure tt
scan_items (item ∷ items) = scan_mappings item.mappings >> scan_items items

abbrev pub no_scan : Scan
no_scan = record { index_by_pair = []; csi_cluster_mappings_list = []; already_seen = [] }
