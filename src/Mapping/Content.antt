-- ===== src/Mapping/Content.antt =====
-- The keys and the pairs that the grouping of Mapping/Groups holds.
use ceph_csi_operator.Mapping.Groups.Laws.{same_key_cong, same_key_sym, same_key_join}
use ceph_csi_operator.Mapping.Groups.{
  add_group, has_pair, same_pair, Group, add_pair, add_pairs, position, Entry, pools_of, group_all,
  Says, all_mappings, render,
}
use ceph_csi_operator.Mapping.Pools.{has_pair-concat}
use ceph_csi_operator.Mapping.{MappingKey, same_key, Scan, scan_items, no_scan}
use ceph_csi_operator.Api.Profile.{ClientProfileMapping}
use ceph_csi_operator.Prelude.Result.{ok}
use ceph_csi_operator.Mapping.Refines.{scan_items-groups}
use ceph_csi_operator.Prelude.{
  String, List, ◌++◌, ◌≡◌, Bool, true, ◌∷◌, ◌||◌, [], Bool-cases, not, arith, ◌&&◌, eq_iff, inl,
  is_some, refl, inr, Option-cases, any_of, map,
}

has_pair-same :
    (q r : String × String) (pools : List (String × String))
    → same_pair r q ≡ true
    → has_pair r pools ≡ has_pair q pools
has_pair-same q r [] h = refl
has_pair-same q r (t ∷ pools) h = ground (
  arith,
  h,
  has_pair-same q r pools h,
  eq_iff r.0 q.0,
  eq_iff r.1 q.1,
  eq_iff t.0 q.0,
  eq_iff t.1 q.1,
  eq_iff t.0 r.0,
  eq_iff t.1 r.1,
)

has_pair-add_pair :
    (q r : String × String) (pools : List (String × String))
    → has_pair q (add_pair pools r) ≡ (has_pair q pools || same_pair r q)
has_pair-add_pair q r pools = elim (Bool-cases (has_pair r pools)) [
  | inl e ↦ ground (arith, e, has_pair-same q r pools)
  | inr e ↦ ground (arith, e, has_pair-concat q r pools)
]

has_pair-add_pairs :
    (q : String × String) (pools pairs : List (String × String))
    → has_pair q (add_pairs pools pairs) ≡ (has_pair q pools || has_pair q pairs)
has_pair-add_pairs q pools [] = ground arith
has_pair-add_pairs q pools (r ∷ pairs) =
    ground (arith, has_pair-add_pairs q (add_pair pools r) pairs, has_pair-add_pair q r pools)

-- No pair stands twice.
unfoldable pub distinct_pairs : List (String × String) → Bool
distinct_pairs [] = true
distinct_pairs (p ∷ pools) = not (has_pair p pools) && distinct_pairs pools

distinct_pairs-concat :
    (q : String × String) (pools : List (String × String))
    → distinct_pairs (pools ++ q ∷ []) ≡ (not (has_pair q pools) && distinct_pairs pools)
unfolding distinct_pairs
distinct_pairs-concat q [] = refl
distinct_pairs-concat q (p ∷ pools) = ground (
  arith,
  distinct_pairs-concat q pools,
  has_pair-concat p q pools,
  eq_iff p.0 q.0,
  eq_iff q.0 p.0,
  eq_iff p.1 q.1,
  eq_iff q.1 p.1,
)

distinct_pairs-add_pair :
    (q : String × String) (pools : List (String × String))
    → distinct_pairs pools ≡ true
    → distinct_pairs (add_pair pools q) ≡ true
distinct_pairs-add_pair q pools h = elim (Bool-cases (has_pair q pools)) [
  | inl e ↦ ground (arith, e, h)
  | inr e ↦ ground (arith, e, h, distinct_pairs-concat q pools)
]

distinct_pairs-add_pairs :
    (pools pairs : List (String × String))
    → distinct_pairs pools ≡ true
    → distinct_pairs (add_pairs pools pairs) ≡ true
distinct_pairs-add_pairs pools [] h = h
distinct_pairs-add_pairs pools (q ∷ pairs) h =
    distinct_pairs-add_pairs (add_pair pools q) pairs (distinct_pairs-add_pair q pools h)

-- The keys differ, and the pairs of each do.
unfoldable pub distinct_groups : List Group → Bool
distinct_groups [] = true
distinct_groups (g ∷ groups) =
    not (is_some (position g.key groups)) && (distinct_pairs g.pools && distinct_groups groups)

position-some :
    (g : Group) (k : MappingKey) (groups : List Group)
    → is_some (position k (g ∷ groups)) ≡ (same_key g.key k || is_some (position k groups))
position-some g k groups = elim (Option-cases (position k groups)) [
  | inl n ↦ ground (arith, n)
  | inr (i, n) ↦ ground (arith, n)
]

position-add_group :
    (key k : MappingKey) (pairs : List (String × String)) (groups : List Group)
    → is_some (position k (add_group key pairs groups))
      ≡ (is_some (position k groups) || same_key key k)
unfolding add_group
position-add_group key k pairs [] = ground arith
position-add_group key k pairs (g ∷ groups) = elim (Bool-cases (same_key g.key key)) [
  | inl e ↦ rw e (ground (arith, e, same_key_cong g.key key k))
  | inr e ↦ rw e (
      ground (
        arith,
        e,
        position-add_group key k pairs groups,
        position-some g k (add_group key pairs groups),
        position-some g k groups,
      ))
]

pools_of-add_group :
    (key k : MappingKey) (pairs : List (String × String)) (groups : List Group)
    (p : String × String)
    → has_pair p (pools_of k (add_group key pairs groups))
      ≡ (has_pair p (pools_of k groups) || (same_key key k && has_pair p pairs))
unfolding add_group
pools_of-add_group key k pairs [] p = ground (arith, has_pair-add_pairs p [] pairs)
pools_of-add_group key k pairs (g ∷ groups) p = elim (Bool-cases (same_key g.key key)) [
  | inl e ↦ rw e (ground (arith, e, same_key_cong g.key key k, has_pair-add_pairs p g.pools pairs))
  | inr e ↦
      rw e (ground (arith, e, pools_of-add_group key k pairs groups p, same_key_join g.key key k))
]

distinct_groups-add_group :
    (key : MappingKey) (pairs : List (String × String)) (groups : List Group)
    → distinct_groups groups ≡ true
    → distinct_groups (add_group key pairs groups) ≡ true
unfolding add_group distinct_groups distinct_pairs
distinct_groups-add_group key pairs [] h = ground (arith, distinct_pairs-add_pairs [] pairs refl)
distinct_groups-add_group key pairs (g ∷ groups) h = elim (Bool-cases (same_key g.key key)) [
  | inl e ↦ rw e (ground (arith, h, distinct_pairs-add_pairs g.pools pairs))
  | inr e ↦ rw e (
      ground (
        arith,
        e,
        h,
        distinct_groups-add_group key pairs groups,
        position-add_group key g.key pairs groups,
        same_key_sym g.key key,
      ))
]

-- The keys of the grouping differ, and so do the pairs under each key.
pub group_all-distinct :
    (entries : List Entry) (groups : List Group)
    → distinct_groups groups ≡ true
    → distinct_groups (group_all entries groups) ≡ true
group_all-distinct [] groups h = h
group_all-distinct (e ∷ entries) groups h =
    group_all-distinct entries (add_group e.key e.pairs groups)
      (distinct_groups-add_group e.key e.pairs groups h)

-- A pair stands under a key exactly if an entry of that key has it.
pub group_all-pairs :
    (entries : List Entry) (groups : List Group) (k : MappingKey) (p : String × String)
    → has_pair p (pools_of k (group_all entries groups)) ≡ (
        has_pair p (pools_of k groups)
        || any_of (λ e. same_key e.key k && has_pair p e.pairs) entries)
group_all-pairs [] groups k p = ground arith
group_all-pairs (e ∷ entries) groups k p = ground (
  arith,
  group_all-pairs entries (add_group e.key e.pairs groups) k p,
  pools_of-add_group e.key k e.pairs groups p,
)

no_groups : distinct_groups [] ≡ true
unfolding distinct_groups
no_groups = refl

-- A scan of mappings whose pairs have two items at least succeeds. Its records are groups with keys
-- that differ, the pairs under a key differ, and they are exactly those of the mappings with that key.
pub scan_items-content :
    (items : List ClientProfileMapping) (entries : List Entry)
    → Says (all_mappings items) entries
    → (scan : Scan) × (groups : List Group) × (scan_items items no_scan ≡ (ok tt, scan))
      × (scan.csi_cluster_mappings_list ≡ map render groups)
      × (distinct_groups groups ≡ true)
      × ((k : MappingKey) (p : String × String)
          → has_pair p (pools_of k groups)
            ≡ any_of (λ e. same_key e.key k && has_pair p e.pairs) entries)
scan_items-content items entries says =
    let (scan, e, r) = scan_items-groups items entries says in
    (
      scan,
      group_all entries [],
      e,
      r,
      group_all-distinct entries [] no_groups,
      λ k p. group_all-pairs entries [] k p,
    )
