-- ===== src/Profile/Entries/Laws.antt =====
-- The update of the list against a map from names to records.
use ceph_csi_operator.Prelude.{
  ℕ, suc, ◌+◌, String, false, ◌≡◌, refl, ap, Option, none, some, List, [], ◌∷◌, ◌++◌, ◌==◌, ◌⊎◌,
  inl, inr, if◌then◌else◌, map, length, arith, eq_iff, Bool-cases, ◌∙◌, sym, set-append, true,
  length-map, set,
}
use ceph_csi_operator.Prelude.Keyed.{mem_key, find_by, distinct, distinct-concat}
use ceph_csi_operator.Prelude.Result.{ok}
use ceph_csi_operator.Profile.Record.{CsiClusterInfoRecord}
use mathlib.Core.List.{map-append}
use ceph_csi_operator.Profile.Entries.{index_func, update_entries, overwrite_or_append}

abbrev pub cluster_id : CsiClusterInfoRecord → String
cluster_id r = r.cluster_id

abbrev pub ids : List CsiClusterInfoRecord → List String
ids = map cluster_id

-- The records, as the pointers to them.
abbrev pub pointers : List CsiClusterInfoRecord → List (Option CsiClusterInfoRecord)
pointers = map some

-- The lookup of a record by the name of its profile.
abbrev pub find_record : String → List CsiClusterInfoRecord → Option CsiClusterInfoRecord
find_record = find_by cluster_id

-- The search stops at the first record with the name, or finds none.
pub index_func_cases :
    (i : ℕ) (name : String) (rs : List CsiClusterInfoRecord)
    → ((index_func i name (pointers rs) ≡ ok none) × (mem_key name (ids rs) ≡ false))
      ⊎ ((before : List CsiClusterInfoRecord) × (r : CsiClusterInfoRecord) × (after : List
            CsiClusterInfoRecord)
          × (rs ≡ before ++ r ∷ after)
          × (index_func i name (pointers rs) ≡ ok (some (i + length before)))
          × (r.cluster_id ≡ name)
          × (mem_key name (ids before) ≡ false))
unfolding index_func
index_func_cases i name [] = inl (refl, refl)
index_func_cases i name (r ∷ rs) = elim (Bool-cases (r.cluster_id == name)) [
  | inl e ↦ inr ([], r, rs, refl, rw e (ground arith), (eq_iff r.cluster_id name).0 e, refl)
  | inr e ↦ elim (index_func_cases (suc i) name rs) [
    | inl (missing, absent) ↦ inl (rw (e, missing), rw (e, absent))
    | inr (before, x, after, parts, found, named, absent) ↦
        inr
          (r ∷ before, x, after, ap (◌∷◌ r) parts, rw (e, found) (ground arith), named, rw e absent)
  ]
]

module _ (name : String) (entry : CsiClusterInfoRecord) (named : entry.cluster_id ≡ name) where
  find-overwrite :
      (before after : List CsiClusterInfoRecord) (r : CsiClusterInfoRecord) (k : String)
      → r.cluster_id ≡ name
      → mem_key name (ids before) ≡ false
      → find_by cluster_id k (before ++ entry ∷ after)
        ≡ (if name == k then some entry else find_by cluster_id k (before ++ r ∷ after))
  find-overwrite [] after r k e absent = ground (arith, named)
  find-overwrite (x ∷ before) after r k e absent = ground (
    arith,
    named,
    find-overwrite before after r k,
    eq_iff x.cluster_id name,
    eq_iff x.cluster_id k,
    eq_iff name k,
  )

  find-concat :
      (rs : List CsiClusterInfoRecord) (k : String)
      → mem_key name (ids rs) ≡ false
      → find_by cluster_id k (rs ++ entry ∷ [])
        ≡ (if name == k then some entry else find_by cluster_id k rs)
  find-concat [] k absent = ground (arith, named)
  find-concat (x ∷ rs) k absent = ground (
    arith,
    named,
    find-concat rs k,
    eq_iff x.cluster_id name,
    eq_iff x.cluster_id k,
    eq_iff name k,
  )

  distinct-overwrite :
      (before after : List CsiClusterInfoRecord) (r : CsiClusterInfoRecord)
      → r.cluster_id ≡ name
      → ids (before ++ entry ∷ after) ≡ ids (before ++ r ∷ after)
  distinct-overwrite before after r e =
      rw (map-append, map-append) (ap (λ j. ids before ++ j ∷ ids after) (named ∙ sym e))

pub position : (before : List CsiClusterInfoRecord) → 0 + length before ≡ length (pointers before)
position before = omega (arith, length-map before (λ r. some r))

set-pointers :
    (before after : List CsiClusterInfoRecord) (r entry : CsiClusterInfoRecord)
    → set (pointers (before ++ r ∷ after)) (0 + length before) (some entry)
      ≡ pointers (before ++ entry ∷ after)
set-pointers before after r entry =
    rw (map-append, map-append, position before)
      (set-append (pointers before) (pointers after) (some r) (some entry))

-- Where the profile is not deleted, the update gives a list in which the profile's name leads to
-- the new record and every other name to what it led to; names that were distinct stay distinct.
pub update_entries-upsert :
    (name : String) (entry : CsiClusterInfoRecord) (rs : List CsiClusterInfoRecord)
    → entry.cluster_id ≡ name
    → (rs' : List CsiClusterInfoRecord) × (update_entries false name entry (pointers rs)
        ≡ ok (pointers rs'))
      × ((k : String) → find_record k rs' ≡ (if name == k then some entry else find_record k rs))
      × (distinct (ids rs) ≡ true → distinct (ids rs') ≡ true)
unfolding update_entries overwrite_or_append
update_entries-upsert name entry rs named = elim (index_func_cases 0 name rs) [
  | inl (missing, absent) ↦ (
    rs ++ entry ∷ [],
    rw missing (ap ok (sym (map-append some rs (entry ∷ [])))),
    λ k. find-concat name entry named rs k absent,
    λ d. rw map-append (rw distinct-concat (ground (arith, named))),
  )
  | inr (before, r, after, parts, found, e, absent) ↦ (
    before ++ entry ∷ after,
    rw found (rw parts (ap ok (set-pointers before after r entry))),
    λ k. rw parts (find-overwrite name entry named before after r k e absent),
    λ d. rw (distinct-overwrite name entry named before after r e, ← parts) d,
  )
]
