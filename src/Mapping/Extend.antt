-- ===== src/Mapping/Extend.antt =====
-- One mapping, step by step: the record of its key, and the pairs that are new.
use ceph_csi_operator.Mapping.Groups.Laws.{
  position-concat, pools_of-concat, same_key_cong, position-put, same_key_sym, pools_of-put,
}
use ceph_csi_operator.Mapping.Groups.{
  Group, position, two_items, render, new_group, pools_of, has_pair, put_group, add_pairs,
}
use ceph_csi_operator.Prelude.{
  List, ◌≡◌, ℕ, String, [], some, map, get_elem?, none, ◌++◌, arith, false, ◌∷◌, set, Bool-cases,
  suc, length, refl, Option-cases, ap, inl, ◌∙◌, inr, sym, length-map, Bool, true, zero,
  if◌then◌else◌,
}
use ceph_csi_operator.Api.Profile.{MappingsSpec}
use ceph_csi_operator.Prelude.Result.{ok}
use ceph_csi_operator.Mapping.Pools.{pool_maps, add_pools-Added}
use mathlib.Core.Path.{subst}
use mathlib.Core.List.{map-append}
use ceph_csi_operator.Mapping.{
  extend_record, ensure_record, Scan, index_of, MappingKey, put_pools, is_seen, no_scan, same_key,
  key_of, DuplicationKey, new_record, add_pools,
}

-- What the scan holds when it has found the groups
pub record Inv (s : Scan) (groups : List Group) : Type 0 where
  pub records : s.csi_cluster_mappings_list ≡ map render groups
  pub index : (k : MappingKey) → index_of k s.index_by_pair ≡ position k groups
  pub seen :
      (k : DuplicationKey)
      → is_seen k s.already_seen ≡ has_pair (k.local_pool, k.remote_pool) (pools_of k.key groups)

pub no_scan-Inv : Inv no_scan []
unfolding index_of is_seen
no_scan-Inv = record { records = refl; index = λ k. refl; seen = λ k. refl }

-- The record at the index of a key
abbrev At : MappingKey → List Group → ℕ → Type 0
At key groups i =
    (g : Group) × (get_elem? (map render groups) i ≡ some (render g))
    × (g.pools ≡ pools_of key groups)
    × ((pools : List (String × String))
        → set (map render groups) i (record (render g) { rbd_pool_id_mapping = pool_maps pools })
          ≡ map render (put_group key pools groups))

position-tail :
    (key : MappingKey) (g : Group) (groups : List Group) (i : ℕ)
    → same_key g.key key ≡ false
    → position key (g ∷ groups) ≡ some i
    → (j : ℕ) × (position key groups ≡ some j) × (i ≡ suc j)
position-tail key g groups i e h = elim (Option-cases (position key groups)) [
  | inl n ↦ ground (arith, e, h, n)
  | inr (j, n) ↦ (j, n, ground (arith, e, h, n))
]

position-At :
    (key : MappingKey) (groups : List Group) (i : ℕ)
    → position key groups ≡ some i
    → At key groups i
position-At key [] i h = ground arith
position-At key (g ∷ groups) i h = elim (Bool-cases (same_key g.key key)) [
  | inl e ↦
      let p : zero ≡ i = ground (arith, e, h) in
      subst (At key (g ∷ groups)) p (g, refl, rw e refl, λ pools. rw e refl)
  | inr e ↦
      let (j, n, p) = position-tail key g groups i e h in
      let (g', get, same, put) = position-At key groups j n in
      subst (At key (g ∷ groups)) (sym p)
        (g', get, rw e same, λ pools. rw e (ap (λ z. render g ∷ z) (put pools)))
]

-- The record of a key that is new is appended.
pub ensure_record-Inv :
    (key : MappingKey) (s : Scan) (groups : List Group)
    → Inv s groups
    → position key groups ≡ none
    → Inv (ensure_record key none s).1 (groups ++ new_group key ∷ [])
      × ((ensure_record key none s).0 ≡ length groups)
unfolding ensure_record index_of
ensure_record-Inv key s groups inv h =
    let l : length s.csi_cluster_mappings_list ≡ length groups =
      ap length inv.records ∙ length-map groups render in
    (
      record {
        records = ap (λ z. z ++ new_record key ∷ []) inv.records ∙ simp map-append;
        index = λ k. ground (arith, l, inv.index k, position-concat key k groups h);
        seen = λ k.
            inv.seen k
            ∙ ap (has_pair (k.local_pool, k.remote_pool)) (sym (pools_of-concat key k.key groups));
      },
      l,
    )

pools_of_cong :
    (a b : MappingKey) (groups : List Group)
    → same_key a b ≡ true
    → pools_of a groups ≡ pools_of b groups
pools_of_cong a b [] h = refl
pools_of_cong a b (g ∷ groups) h = ground (
  arith,
  h,
  pools_of_cong a b groups h,
  same_key_cong a b g.key h,
  same_key_sym a g.key,
  same_key_sym b g.key,
)

pub pools_of_absent :
    (key : MappingKey) (groups : List Group) → position key groups ≡ none → pools_of key groups ≡ []
pools_of_absent key [] h = refl
pools_of_absent key (g ∷ groups) h = elim (Option-cases (position key groups)) [
  | inl n ↦ ground (arith, h, n, pools_of_absent key groups n)
  | inr (i, n) ↦ ground (arith, h, n)
]

choose_pools :
    (b : Bool) (p : String × String) (total old : List (String × String)) (x : Bool)
    → x ≡ has_pair p old
    → (if b then has_pair p total else x) ≡ has_pair p (if b then total else old)
choose_pools true p total old x h = refl
choose_pools false p total old x h = h

-- The pairs of a mapping go to the record of its key.
pub extend_record-Inv :
    (mapping : MappingsSpec) (pairs : List (String × String)) (s : Scan) (groups : List Group)
    (i : ℕ)
    → two_items mapping.block_pool_id_mapping ≡ some pairs
    → Inv s groups
    → position (key_of mapping) groups ≡ some i
    → (s' : Scan) × (extend_record mapping i (get_elem? s.csi_cluster_mappings_list i) s
        ≡ (ok tt, s'))
      × Inv s'
          (put_group (key_of mapping) (add_pairs (pools_of (key_of mapping) groups) pairs) groups)
unfolding extend_record put_pools
extend_record-Inv mapping pairs s groups i t inv h =
    let key = key_of mapping in
    let (g, get, same, put) = position-At key groups i h in
    let total = add_pairs (pools_of key groups) pairs in
    let (seen', e, after) =
      add_pools-Added key mapping.block_pool_id_mapping pairs (pools_of key groups) s.already_seen t
        (λ k q.
          inv.seen k
          ∙ ap (has_pair (k.local_pool, k.remote_pool)) (sym (pools_of_cong key k.key groups q))) in
    (
      record s {
        csi_cluster_mappings_list =
            set s.csi_cluster_mappings_list i
              (record (render g) { rbd_pool_id_mapping = pool_maps total });
        already_seen = seen';
      },
      ap (λ z. extend_record mapping i z s) (ap (λ z. get_elem? z i) inv.records ∙ get)
          ∙ ap
              (λ z.
                put_pools i (render g) s
                  (add_pools key mapping.block_pool_id_mapping (pool_maps z, s.already_seen)))
              same
          ∙ ap (put_pools i (render g) s) e,
      record {
        records =
            ap (λ z. set z i (record (render g) { rbd_pool_id_mapping = pool_maps total }))
              inv.records
            ∙ put total;
        index = λ k. inv.index k ∙ sym (position-put key k total groups);
        seen = λ k.
            after k
            ∙ choose_pools (same_key key k.key) (k.local_pool, k.remote_pool) total
                (pools_of k.key groups) (is_seen k s.already_seen) (inv.seen k)
            ∙ ap (has_pair (k.local_pool, k.remote_pool))
                (sym (pools_of-put key k.key total groups i h));
      },
    )
