-- ===== src/Utils/Merge.antt =====
-- `MapMergeByKey` of internal/utils/core.go: the merge of user defined volumes and mounts into the
-- built in ones, with its map from keys to indexes.
pub mod Laws
pub mod Keys
use ceph_csi_operator.Prelude.{
  ℕ, suc, String, Bool, Option, none, some, List, [], ◌∷◌, ◌++◌, ◌==◌, if◌then◌else◌, length, set,
}
use ceph_csi_operator.Prelude.Assoc.{Assoc, lookup, insert}

module _ {ℓ κ} {S : Type ℓ} {D : Type κ} (transform : S → D × Bool) (get_key : D → String) where
  -- The first loop: the index of each key of the destination, the last one where a key is repeated.
  index_keys : ℕ → List D → Assoc ℕ → Assoc ℕ
  index_keys i [] index_map = index_map
  index_keys i (d ∷ dest) index_map =
      index_keys (suc i) dest
        (if get_key d == "" then index_map else insert (get_key d) i index_map)

  -- One round of the second loop, for an item that has been transformed and has a key.
  replace_or_append : D → Option ℕ → List D × Assoc ℕ → List D × Assoc ℕ
  replace_or_append d (some idx) (dest, index_map) = (set dest idx d, index_map)
  replace_or_append d none (dest, index_map) =
      (dest ++ d ∷ [], insert (get_key d) (length dest) index_map)

  merge_item : S → List D × Assoc ℕ → List D × Assoc ℕ
  unfolding replace_or_append
  merge_item s (dest, index_map) =
      let (d, ok) = transform s in
      if ok
      then if get_key d == ""
        then (dest, index_map)
        else replace_or_append d (lookup (get_key d) index_map) (dest, index_map)
      else (dest, index_map)

  merge_items : List S → List D × Assoc ℕ → List D × Assoc ℕ
  merge_items [] state = state
  merge_items (s ∷ src) state = merge_items src (merge_item s state)

  unfoldable pub map_merge_by_key : List D → List S → List D
  unfolding index_keys merge_item merge_items lookup insert
  map_merge_by_key dest src = (merge_items src (dest, index_keys 0 dest [])).0
