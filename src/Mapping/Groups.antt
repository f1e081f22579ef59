-- ===== src/Mapping/Groups.antt =====
-- The grouping of the mappings without an index and a set of seen pairs, to which the scan of
-- clientprofilemapping_controller.go is compared.
pub mod Laws
use ceph_csi_operator.Prelude.{
  List, String, ◌∷◌, Option, ◌++◌, ℕ, if◌then◌else◌, Bool, [], ◌≡◌, arith, ◌==◌, any_of, some, map,
  true, none, length, eq_refl, eq_iff, Option-cases, refl, zero, ◌&&◌, Bool-cases, inl, inr, ap,
  suc, ◌∙◌,
}
use ceph_csi_operator.Api.Profile.{BlockPoolIdPair, ClientProfileMapping, MappingsSpec}
use ceph_csi_operator.Mapping.{CsiClusterMappingRecord, MappingKey, same_key, key_of}

-- The pairs of pools that one key has
pub record Group : Type 0 where
  pub key : MappingKey
  pub pools : List (String × String)

abbrev pub same_pair : String × String → String × String → Bool
same_pair p q = p.0 == q.0 && p.1 == q.1

abbrev pub has_pair : String × String → List (String × String) → Bool
has_pair p pools = any_of (λ q. same_pair q p) pools

-- A pair that is there already is left out.
abbrev pub add_pair : List (String × String) → String × String → List (String × String)
add_pair pools p = if has_pair p pools then pools else pools ++ p ∷ []

abbrev pub add_pairs : List (String × String) → List (String × String) → List (String × String)
add_pairs pools [] = pools
add_pairs pools (p ∷ pairs) = add_pairs (add_pair pools p) pairs

-- The pairs go to the group of the key, which is made at the end where there is none.
unfoldable pub add_group : MappingKey → List (String × String) → List Group → List Group
add_group key pairs [] = record { key = key; pools = add_pairs [] pairs } ∷ []
add_group key pairs (g ∷ groups) =
    let rest = add_group key pairs groups in
    if same_key g.key key then record g { pools = add_pairs g.pools pairs } ∷ groups else g ∷ rest

abbrev pub then_some :
    String × String → Option (List (String × String)) → Option (List (String × String))
then_some p none = none
then_some p (some pairs) = some (p ∷ pairs)

-- The first two items of each pair, where there are two
unfoldable pub two_items : List BlockPoolIdPair → Option (List (String × String))
two_items [] = some []
two_items ((local ∷ remote ∷ more) ∷ pairs) = then_some (local, remote) (two_items pairs)
two_items (pair ∷ pairs) = none

-- The record that a group becomes
abbrev pub render : Group → CsiClusterMappingRecord
render g = record {
  cluster_id_mapping = (g.key.local, g.key.remote) ∷ [];
  rbd_pool_id_mapping = map (λ p. (p.0, p.1) ∷ []) g.pools;
}

abbrev pub one_more : Option ℕ → Option ℕ
one_more none = none
one_more (some i) = some (suc i)

-- Where the group of a key stands
abbrev pub position : MappingKey → List Group → Option ℕ
position key [] = none
position key (g ∷ groups) =
    let rest = position key groups in if same_key g.key key then some zero else one_more rest

-- The pairs of a key
abbrev pub pools_of : MappingKey → List Group → List (String × String)
pools_of key [] = []
pools_of key (g ∷ groups) =
    let rest = pools_of key groups in if same_key g.key key then g.pools else rest

-- The pairs of a key replaced
abbrev pub put_group : MappingKey → List (String × String) → List Group → List Group
put_group key pools [] = []
put_group key pools (g ∷ groups) =
    let rest = put_group key pools groups in
    if same_key g.key key then record g { pools = pools } ∷ groups else g ∷ rest

abbrev pub new_group : MappingKey → Group
new_group key = record { key = key; pools = [] }

-- The mappings of one item, with the two items of each of their pairs
pub record Entry : Type 0 where
  pub key : MappingKey
  pub pairs : List (String × String)

-- The grouping of all entries, one after the other
abbrev pub group_all : List Entry → List Group → List Group
group_all [] groups = groups
group_all (e ∷ entries) groups = group_all entries (add_group e.key e.pairs groups)

-- The entries are what the mappings say, and each pair has two items at least.
abbrev pub Says : List MappingsSpec → List Entry → Type 0
Says [] [] = Unit
Says (m ∷ mappings) (e ∷ entries) =
    (key_of m ≡ e.key) × (two_items m.block_pool_id_mapping ≡ some e.pairs) × Says mappings entries
Says [] (e ∷ entries) = ⊥
Says (m ∷ mappings) [] = ⊥

-- All mappings of all items
abbrev pub all_mappings : List ClientProfileMapping → List MappingsSpec
all_mappings [] = []
all_mappings (item ∷ items) = item.mappings ++ all_mappings items
