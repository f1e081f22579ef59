-- ===== src/Utils/Core/Laws.antt =====
-- What the helpers of internal/utils/core.go compute.
use text.Mathlib.TextLemmas.{append_assoc, append-nil, nil-append}
use ceph_csi_operator.Prelude.{
  String, false, List, [], ◌∷◌, ◌≡◌, refl, sym, ap, ne_of_eq-false, ◌==◌, if◌then◌else◌, map, All,
  arith, Bool-cases, inl, inr, ◌≢◌,
}
use ceph_csi_operator.Prelude.Assoc.{Assoc}
use ceph_csi_operator.Prelude.Text.{◌<>◌, join, ℤ, lt_int}
use ceph_csi_operator.Utils.Core.{clamp, map_to_string, write_entries, delete_zero_values}

-- One entry of the text: the key, and the value behind the separator unless it is empty.
abbrev pub entry : String → String × String → String
entry sep (key, value) = if value == "" then key else key <> sep <> value

-- The items behind the first, each with its separator.
tail_text : String → List String → String
tail_text sep [] = ""
tail_text sep (s ∷ rest) = sep <> s <> tail_text sep rest

join-cons : (sep s : String) (rest : List String) → join sep (s ∷ rest) ≡ s <> tail_text sep rest
unfolding join tail_text
join-cons sep s [] = sym (append-nil s)
join-cons sep s (t ∷ rest) = ap (λ u. s <> sep <> u) (join-cons sep t rest)

entry-append :
    (kv k v w : String) → (if v == "" then w <> k else ((w <> k) <> kv) <> v) ≡ w <> entry kv (k, v)
entry-append kv k v w = elim (Bool-cases (v == "")) [
  | inl e ↦ rw e
  | inr e ↦ rw e (simp append_assoc)
]

write_entries_lem :
    (m : Assoc String) (kv item written : String)
    → write_entries m kv item item written ≡ written <> tail_text item (map (entry kv) m)
unfolding write_entries tail_text
write_entries_lem [] kv item written = sym (append-nil written)
write_entries_lem ((k, v) ∷ m) kv item written =
    rw (write_entries_lem m, entry-append kv k v (written <> item)) (simp append_assoc)

-- `MapToString` joins the entries by the item separator.
pub map_to_string-join :
    (m : Assoc String) (kv item : String) → map_to_string m kv item ≡ join item (map (entry kv) m)
unfolding map_to_string write_entries join
map_to_string-join [] kv item = refl
map_to_string-join ((k, v) ∷ m) kv item =
    rw (write_entries_lem m, entry-append kv k v ("" <> ""), nil-append) (sym (join-cons item _ _))

-- A clamped value lies between the bounds, and a value between the bounds is kept.
pub clamp_int :
    (val low high : ℤ)
    → lt_int high low ≡ false
    → (lt_int (clamp lt_int val low high) low ≡ false)
      × (lt_int high (clamp lt_int val low high) ≡ false)
unfolding clamp
clamp_int val low high h = ground arith

-- No empty argument is left.
pub delete_zero_values-All : (xs : List String) → All (λ s. s ≢ "") (delete_zero_values xs)
unfolding delete_zero_values
delete_zero_values-All [] = tt
delete_zero_values-All (s ∷ xs) = elim (Bool-cases (s == "")) [
  | inl e ↦ rw e (delete_zero_values-All xs)
  | inr e ↦ rw e (ne_of_eq-false s "" e, delete_zero_values-All xs)
]
