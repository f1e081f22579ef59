-- ===== src/Profile/Entries.antt =====
-- The list of records under the key "config.json": the lookup of a profile's record, its
-- replacement, and its removal, as the callback of `reconcileCephCsiClusterInfo` does them.
pub mod Laws
pub mod Delete
use ceph_csi_operator.Prelude.{
  ℕ, zero, suc, ◌-◌, String, Bool, true, false, Option, none, some, List, [], ◌∷◌, ◌++◌, ◌==◌,
  if◌then◌else◌, length, get_elem?, set, take,
}
use ceph_csi_operator.Prelude.Result.{Result, ok, err, panic}
use ceph_csi_operator.Profile.Record.{CsiClusterInfoRecord}

-- `slices.IndexFunc` at the record's name; an element of the parsed list may be a nil pointer, at
-- which the callback's field access panics.
pub index_func : ℕ → String → List (Option CsiClusterInfoRecord) → Result (Option ℕ)
index_func i name [] = ok none
index_func i name (none ∷ rest) = panic
index_func i name (some entry ∷ rest) =
    let later = index_func (suc i) name rest in
    if entry.cluster_id == name then ok (some i) else later

-- Overwrite an existing entry, or append a new one.
overwrite_or_append :
    Option ℕ
    → CsiClusterInfoRecord
    → List (Option CsiClusterInfoRecord)
    → List (Option CsiClusterInfoRecord)
overwrite_or_append (some index) entry entries = set entries index (some entry)
overwrite_or_append none entry entries = entries ++ some entry ∷ []

-- The unordered delete in place: the last entry takes the place of the deleted one.
move_last :
    ℕ
    → Option (Option CsiClusterInfoRecord)
    → List (Option CsiClusterInfoRecord)
    → List (Option CsiClusterInfoRecord)
move_last index none entries = entries
move_last index (some last) entries = take (length entries - 1) (set entries index last)

delete_unordered :
    Option ℕ → List (Option CsiClusterInfoRecord) → List (Option CsiClusterInfoRecord)
unfolding move_last
delete_unordered none entries = entries
delete_unordered (some index) entries =
    move_last index (get_elem? entries (length entries - 1)) entries

-- The middle of the callback: from the parsed list to the list that is written.
change_entries :
    Bool
    → CsiClusterInfoRecord
    → List (Option CsiClusterInfoRecord)
    → Result (Option ℕ)
    → Result (List (Option CsiClusterInfoRecord))
unfolding overwrite_or_append delete_unordered
change_entries clean_up entry entries (ok index) =
    ok
      (if clean_up then delete_unordered index entries else overwrite_or_append index entry entries)
change_entries clean_up entry entries (err e) = err e
change_entries clean_up entry entries panic = panic

unfoldable pub update_entries :
    Bool
    → String
    → CsiClusterInfoRecord
    → List (Option CsiClusterInfoRecord)
    → Result (List (Option CsiClusterInfoRecord))
unfolding change_entries index_func
update_entries clean_up name entry entries =
    change_entries clean_up entry entries (index_func 0 name entries)
