-- ===== src/Utils/Core.antt =====
-- internal/utils/core.go, but for `MapMergeByKey` (Utils/Merge) and the concurrent runner (Utils/Concurrent).
pub mod Laws
use ceph_csi_operator.Prelude.{
  ℕ, String, Bool, true, false, not, List, [], ◌∷◌, ◌==◌, if◌then◌else◌,
}
use ceph_csi_operator.Prelude.Assoc.{Assoc}
use ceph_csi_operator.Prelude.Text.{◌<>◌}
use ceph_csi_operator.Prelude.Result.{Result, ok, err, other}

-- `If`: both values are given, and Go has computed them before the call.
abbrev pub choose {ℓ} : {A : Type ℓ} → Bool → A → A → A
choose cond true_val false_val = if cond then true_val else false_val

-- `Clamp`, over the order `<` of its type.
unfoldable pub clamp {ℓ} : {A : Type ℓ} → (A → A → Bool) → A → A → A → A
clamp lt val low high = if lt val low then low else if lt high val then high else val

-- `MapSlice`
unfoldable pub map_slice {ℓ κ} : {A : Type ℓ} {B : Type κ} → List A → (A → B) → List B
map_slice [] mapper = []
map_slice (x ∷ xs) mapper = mapper x ∷ map_slice xs mapper

-- The loop of `MapToString`: `written` is what the builder holds.
write_entries : Assoc String → String → String → String → String → String
write_entries [] key_value_separator item_separator item_sep written = written
write_entries ((key, value) ∷ m) key_value_separator item_separator item_sep written =
    let with_key = (written <> item_sep) <> key in
    write_entries m key_value_separator item_separator item_separator
      (if value == "" then with_key else (with_key <> key_value_separator) <> value)

-- `MapToString`; the order of the entries is the order in which the map is iterated.
unfoldable pub map_to_string : Assoc String → String → String → String
unfolding write_entries
map_to_string [] key_value_separator item_separator = ""
map_to_string m key_value_separator item_separator =
    write_entries m key_value_separator item_separator "" ""

-- `DeleteZeroValues` at strings
unfoldable pub delete_zero_values : List String → List String
delete_zero_values [] = []
delete_zero_values (s ∷ slice) =
    let rest = delete_zero_values slice in if s == "" then rest else s ∷ rest

-- `GetOperatorNamespace`, over the environment, in which a missing variable reads as "".
unfoldable pub get_operator_namespace : (String → String) → Result String
get_operator_namespace getenv =
    let ns = getenv "OPERATOR_NAMESPACE" in
    if ns == "" then err (other "OPERATOR_NAMESPACE must be set") else ok ns
