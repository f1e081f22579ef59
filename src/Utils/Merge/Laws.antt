-- ===== src/Utils/Merge/Laws.antt =====
-- `MapMergeByKey` against a merge with no map of indexes, and what the merge does to the keys.
use mathlib.Core.List.{map-append}
use ceph_csi_operator.Prelude.{
  ℕ, zero, suc, ◌+◌, String, Bool, false, ◌≡◌, refl, ap, sym, ◌∙◌, Option, none, some, List, [],
  ◌∷◌, ◌++◌, ◌==◌, if◌then◌else◌, length, set, map, arith, eq_iff, Bool-cases, inl, inr, length-map,
  is_some,
}
use ceph_csi_operator.Prelude.Keyed.{mem_key}
use ceph_csi_operator.Prelude.Assoc.{Assoc, lookup, insert, lookup-insert, lookup-nil}
use ceph_csi_operator.Utils.Merge.{
  index_keys, replace_or_append, merge_item, merge_items, map_merge_by_key,
}

-- The last position of a key.
last_index : String → List String → Option ℕ
last_index k [] = none
last_index k (j ∷ ks) = elim (last_index k ks) [
  | some i ↦ some (suc i)
  | none ↦ if j == k then some 0 else none
]

last_index-append :
    (k j : String) (ks : List String)
    → last_index k (ks ++ j ∷ []) ≡ (if j == k then some (length ks) else last_index k ks)
unfolding last_index
last_index-append k j [] = refl
last_index-append k j (i ∷ ks) = ground (arith, last_index-append k j ks)

mem_key-last_index : (k : String) (ks : List String) → mem_key k ks ≡ is_some (last_index k ks)
unfolding last_index
mem_key-last_index k [] = refl
mem_key-last_index k (j ∷ ks) = ground (arith, mem_key-last_index k ks)

module _ {ℓ κ} {S : Type ℓ} {D : Type κ} (transform : S → D × Bool) (get_key : D → String) where
  -- Put an item in the place of the last one with its key, or at the end.
  unfoldable pub upsert : D → List D → List D
  upsert d [] = d ∷ []
  upsert d (x ∷ dest) =
      let rest = upsert d dest in
      if mem_key (get_key d) (map get_key dest)
      then x ∷ rest
      else if get_key x == get_key d
      then d ∷ dest
      else x ∷ rest

  -- The item of a source entry, if it is taken over.
  unfoldable pub taken : S → Option D
  taken s =
      let (d, ok) = transform s in if ok then if get_key d == "" then none else some d else none

  unfoldable pub put : Option D → List D → List D
  put none dest = dest
  put (some d) dest = upsert d dest

  unfoldable pub merge_spec : List D → List S → List D
  merge_spec dest [] = dest
  merge_spec dest (s ∷ src) = merge_spec (put (taken s) dest) src

  -- The map holds the last position of every key but the empty one.
  abbrev Tracks : List D → Assoc ℕ → Type 0
  Tracks dest m = (k : String) → (k == "") ≡ false → lookup k m ≡ last_index k (map get_key dest)

  index_keys_lem :
      (i : ℕ) (dest : List D) (m : Assoc ℕ) (k : String)
      → (k == "") ≡ false
      → lookup k (index_keys transform get_key i dest m)
        ≡ elim (last_index k (map get_key dest)) [ some j ↦ some (i + j) | none ↦ lookup k m ]
  unfolding index_keys last_index
  index_keys_lem i [] m k h = refl
  index_keys_lem i (d ∷ dest) m k h = ground (
    arith,
    index_keys_lem (suc i) dest m k h,
    index_keys_lem (suc i) dest (insert (get_key d) i m) k h,
    lookup-insert (get_key d) k i m,
    eq_iff (get_key d) "",
    eq_iff (get_key d) k,
    eq_iff k "",
  )

  set-upsert :
      (d : D) (dest : List D) (i : ℕ)
      → last_index (get_key d) (map get_key dest) ≡ some i
      → (set dest i d ≡ upsert d dest) × (map get_key (set dest i d) ≡ map get_key dest)
  unfolding last_index upsert
  set-upsert d [] i h = cc
  set-upsert d (x ∷ dest) zero h =
      ground
        (arith, mem_key-last_index (get_key d) (map get_key dest), eq_iff (get_key x) (get_key d))
  set-upsert d (x ∷ dest) (suc i) h =
      ground (arith, set-upsert d dest i, mem_key-last_index (get_key d) (map get_key dest))

  append-upsert :
      (d : D) (dest : List D)
      → last_index (get_key d) (map get_key dest) ≡ none
      → dest ++ d ∷ [] ≡ upsert d dest
  unfolding last_index upsert
  append-upsert d [] h = refl
  append-upsert d (x ∷ dest) h =
      ground (arith, append-upsert d dest, mem_key-last_index (get_key d) (map get_key dest))

  append-Tracks :
      (d : D) (dest : List D) (m : Assoc ℕ)
      → Tracks dest m
      → Tracks (dest ++ d ∷ []) (insert (get_key d) (length dest) m)
  append-Tracks d dest m tracks k h =
      rw (map-append, last_index-append k (get_key d) (map get_key dest))
        (rw lookup-insert (rw (length-map dest get_key, tracks k h) refl))

  replace_or_append-upsert :
      (d : D) (dest : List D) (m : Assoc ℕ)
      → (get_key d == "") ≡ false
      → Tracks dest m
      → (o : Option ℕ) → lookup (get_key d) m ≡ o
      → ((replace_or_append transform get_key d o (dest, m)).0 ≡ upsert d dest)
        × Tracks
            (replace_or_append transform get_key d o (dest, m)).0
            (replace_or_append transform get_key d o (dest, m)).1
  unfolding replace_or_append
  replace_or_append-upsert d dest m key tracks none e =
      (append-upsert d dest (sym (tracks (get_key d) key) ∙ e), append-Tracks d dest m tracks)
  replace_or_append-upsert d dest m key tracks (some i) e =
      let (placed, keys) = set-upsert d dest i (sym (tracks (get_key d) key) ∙ e) in
      (placed, λ k h. rw keys (tracks k h))

  merge_item-taken :
      (s : S) (dest : List D) (m : Assoc ℕ)
      → Tracks dest m
      → ((merge_item transform get_key s (dest, m)).0 ≡ put (taken s) dest)
        × Tracks
            (merge_item transform get_key s (dest, m)).0
            (merge_item transform get_key s (dest, m)).1
  unfolding merge_item taken put
  merge_item-taken s dest m tracks = elim (Bool-cases (transform s).1) [
    | inr skipped ↦ rw skipped (refl, tracks)
    | inl ok ↦ elim (Bool-cases (get_key (transform s).0 == "")) [
      | inl empty ↦ rw (ok, empty) (refl, tracks)
      | inr key ↦
          rw (ok, key)
            (replace_or_append-upsert (transform s).0 dest m key tracks
              (lookup (get_key (transform s).0) m) refl)
    ]
  ]

  merge_items-spec :
      (src : List S) (dest : List D) (m : Assoc ℕ)
      → Tracks dest m
      → (merge_items transform get_key src (dest, m)).0 ≡ merge_spec dest src
  unfolding merge_items merge_spec
  merge_items-spec [] dest m tracks = refl
  merge_items-spec (s ∷ src) dest m tracks =
      let (merged, tracks') = merge_item-taken s dest m tracks in
      merge_items-spec src (merge_item transform get_key s (dest, m)).0
        (merge_item transform get_key s (dest, m)).1 tracks'
      ∙ ap (λ x. merge_spec x src) merged

  -- The merge by a map of indexes is the merge that looks for each key in the list.
  pub map_merge_by_key-spec :
      (dest : List D) (src : List S)
      → map_merge_by_key transform get_key dest src ≡ merge_spec dest src
  unfolding map_merge_by_key
  map_merge_by_key-spec dest src =
      merge_items-spec src dest (index_keys transform get_key 0 dest [])
        (λ k h. rw (index_keys_lem 0 dest [] k h) (ground (arith, lookup-nil {V = ℕ} k)))
