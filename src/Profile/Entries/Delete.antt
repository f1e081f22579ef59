-- ===== src/Profile/Entries/Delete.antt =====
-- The removal of a record, against a map from names to records.
use ceph_csi_operator.Prelude.{
  List, String, Option, length, ◌≡◌, some, false, true, ◌++◌, if◌then◌else◌, ◌∷◌, ◌+◌, [], ◌==◌,
  ◌-◌, none, sym, get_elem?-append, arith, set-append, eq_iff, length-append, take-append,
  get_elem?, take, inl, inr, concat-cases, ◌∙◌, ap,
}
use ceph_csi_operator.Profile.Entries.{update_entries, delete_unordered}
use ceph_csi_operator.Profile.Record.{CsiClusterInfoRecord}
use ceph_csi_operator.Prelude.Keyed.{
  distinct, mem_key, distinct-prefix, distinct-replace, distinct-middle, find_by_absent,
  find_by-append, distinct-concat, find_by-concat,
}
use ceph_csi_operator.Prelude.Result.{ok}
use mathlib.Core.List.{map-append, append_assoc}
use ceph_csi_operator.Profile.Entries.Laws.{
  cluster_id, ids, pointers, position, index_func_cases, find_record,
}

module _ (xs ys : List (Option CsiClusterInfoRecord)) (x z : Option CsiClusterInfoRecord) where
  before_last : length (xs ++ x ∷ []) - 1 ≡ length xs
  before_last = omega (arith, length-append xs (x ∷ []))

  delete-last : delete_unordered (some (length xs)) (xs ++ x ∷ []) ≡ xs
  unfolding delete_unordered
  delete-last =
      rw (before_last, get_elem?-append xs [] x)
        (rw (set-append xs [] x x) (rw before_last (take-append xs (x ∷ []))))

  delete-middle : delete_unordered (some (length xs)) (xs ++ x ∷ (ys ++ z ∷ [])) ≡ xs ++ z ∷ ys
  unfolding delete_unordered
  delete-middle =
      rw (before_end, last_elem) (rw (set-append xs (ys ++ z ∷ []) x z, before_end) kept)
    where
      regroup :
          (y : Option CsiClusterInfoRecord) → xs ++ y ∷ (ys ++ z ∷ []) ≡ (xs ++ y ∷ ys) ++ z ∷ []
      regroup y = sym (append_assoc xs (y ∷ ys) (z ∷ []))

      before_end : length (xs ++ x ∷ (ys ++ z ∷ [])) - 1 ≡ length (xs ++ x ∷ ys)
      before_end = rw (regroup x) (omega (arith, length-append (xs ++ x ∷ ys) (z ∷ [])))

      last_elem : get_elem? (xs ++ x ∷ (ys ++ z ∷ [])) (length (xs ++ x ∷ ys)) ≡ some z
      last_elem = rw (regroup x) (get_elem?-append (xs ++ x ∷ ys) [] z)

      same_length : length (xs ++ x ∷ ys) ≡ length (xs ++ z ∷ ys)
      same_length = rw (length-append xs (x ∷ ys), length-append xs (z ∷ ys))

      kept : take (length (xs ++ x ∷ ys)) (xs ++ z ∷ (ys ++ z ∷ [])) ≡ xs ++ z ∷ ys
      kept = rw (regroup z, same_length) (take-append (xs ++ z ∷ ys) (z ∷ []))

delete-pointers_last :
    (before : List CsiClusterInfoRecord) (r : CsiClusterInfoRecord)
    → delete_unordered (some (0 + length before)) (pointers (before ++ r ∷ [])) ≡ pointers before
delete-pointers_last before r =
    rw (map-append, position before) (delete-last (pointers before) [] (some r) none)

delete-pointers_middle :
    (before middle : List CsiClusterInfoRecord) (r last : CsiClusterInfoRecord)
    → delete_unordered (some (0 + length before)) (pointers (before ++ r ∷ (middle ++ last ∷ [])))
      ≡ pointers (before ++ last ∷ middle)
delete-pointers_middle before middle r last =
    rw
      (
        map-append,
        map-append some (r ∷ middle) (last ∷ []),
        map-append some before (last ∷ middle),
        position before,
      )
      (delete-middle (pointers before) (pointers middle) (some r) (some last))

-- The records before the deleted one, the last of all, and those between.
module _ (name : String) (before middle : List CsiClusterInfoRecord) (r last : CsiClusterInfoRecord)
    (named : r.cluster_id ≡ name)
    (d : distinct (ids (before ++ r ∷ (middle ++ last ∷ []))) ≡ true) where
  unique : distinct (ids before ++ r.cluster_id ∷ (ids middle ++ last.cluster_id ∷ [])) ≡ true
  unique =
      rw
        (
          map-append cluster_id before (r ∷ (middle ++ last ∷ [])),
          map-append cluster_id middle (last ∷ []),
        )
        at d

  distinct-delete : distinct (ids (before ++ last ∷ middle)) ≡ true
  distinct-delete =
      rw map-append (distinct-replace r.cluster_id last.cluster_id (ids before) (ids middle) unique)

  find-delete :
      (k : String)
      → find_record k (before ++ last ∷ middle)
        ≡ (if name == k then none else find_record k (before ++ r ∷ (middle ++ last ∷ [])))
  find-delete k = ground (
    arith,
    named,
    eq_iff name k,
    distinct-middle r.cluster_id (ids before) (ids middle ++ last.cluster_id ∷ []) unique,
    distinct-concat last.cluster_id (ids middle),
    map-append cluster_id middle (last ∷ []),
    find_by-append cluster_id k before (last ∷ middle),
    find_by-append cluster_id k before (r ∷ (middle ++ last ∷ [])),
    find_by-concat cluster_id k last middle,
    find_by_absent cluster_id k before,
    find_by_absent cluster_id k (middle ++ last ∷ []),
  )

module _ (name : String) (before : List CsiClusterInfoRecord) (r : CsiClusterInfoRecord)
    (named : r.cluster_id ≡ name) (d : distinct (ids (before ++ r ∷ [])) ≡ true) where
  unique_last : distinct (ids before ++ r.cluster_id ∷ []) ≡ true
  unique_last = rw (map-append cluster_id before (r ∷ [])) at d

  distinct-delete_last : distinct (ids before) ≡ true
  distinct-delete_last = distinct-prefix (ids before) (r.cluster_id ∷ []) unique_last

  find-delete_last :
      (k : String)
      → find_record k before ≡ (if name == k then none else find_record k (before ++ r ∷ []))
  find-delete_last k = ground (
    arith,
    named,
    eq_iff name k,
    distinct-middle r.cluster_id (ids before) [] unique_last,
    find_by-append cluster_id k before (r ∷ []),
    find_by_absent cluster_id k before,
  )

find-missing :
    (name : String) (rs : List CsiClusterInfoRecord) (k : String)
    → mem_key name (ids rs) ≡ false
    → find_record k rs ≡ (if name == k then none else find_record k rs)
find-missing name rs k absent = ground (arith, eq_iff name k, find_by_absent cluster_id k rs)

-- Where the profile is deleted and the names are distinct, the update gives a list in which the
-- profile's name leads nowhere and every other name to what it led to; names stay distinct.
pub update_entries-delete :
    (name : String) (entry : CsiClusterInfoRecord) (rs : List CsiClusterInfoRecord)
    → distinct (ids rs) ≡ true
    → (rs' : List CsiClusterInfoRecord) × (update_entries true name entry (pointers rs)
        ≡ ok (pointers rs'))
      × ((k : String) → find_record k rs' ≡ (if name == k then none else find_record k rs))
      × (distinct (ids rs') ≡ true)
unfolding update_entries
update_entries-delete name entry rs d = elim (index_func_cases 0 name rs) [
  | inl (missing, absent) ↦ (rs, rw missing, λ k. find-missing name rs k absent, d)
  | inr (before, r, after, parts, found, e, absent) ↦ elim (concat-cases after) [
    | inl last ↦
        let whole : rs ≡ before ++ r ∷ [] = parts ∙ ap (λ l. before ++ r ∷ l) last in
        let d' : distinct (ids (before ++ r ∷ [])) ≡ true = rw (← whole) d in
        (
          before,
          rw found (rw whole (ap ok (delete-pointers_last before r))),
          λ k. rw whole (find-delete_last name before r e d' k),
          distinct-delete_last name before r e d',
        )
    | inr (middle, last, split) ↦
        let whole : rs ≡ before ++ r ∷ (middle ++ last ∷ []) =
          parts ∙ ap (λ l. before ++ r ∷ l) split in
        let d' : distinct (ids (before ++ r ∷ (middle ++ last ∷ []))) ≡ true = rw (← whole) d in
        (
          before ++ last ∷ middle,
          rw found (rw whole (ap ok (delete-pointers_middle before middle r last))),
          λ k. rw whole (find-delete name before middle r last e d' k),
          distinct-delete name before middle r last e d',
        )
  ]
]
