-- ===== src/Prelude/Keyed.antt =====
-- Lists of items that carry a key: which keys there are, whether they are distinct, and the first
-- item with a key.
use Prim.Native.String.{String}
use mathlib.Core.Path.{◌≡◌, refl}
use mathlib.Core.Bool.{Bool, true, false, not, ◌&&◌, ◌||◌}
use mathlib.Core.Option.{Option, none, some}
use mathlib.Core.List.{List, [], ◌∷◌, ◌++◌, map}
use native.Mathlib.Omega.{arith}
use text.Mathlib.Text.{◌==◌}
use text.Mathlib.TextEquality.{eq_iff}
use ceph_csi_operator.Prelude.Tests.{if◌then◌else◌, is_some, ptr_or}

abbrev pub mem_key : String → List String → Bool
mem_key k [] = false
mem_key k (j ∷ ks) = if j == k then true else mem_key k ks

-- No key stands twice.
abbrev pub distinct : List String → Bool
distinct [] = true
distinct (k ∷ ks) = not (mem_key k ks) && distinct ks

pub mem_key-append :
    (k : String) (ks js : List String) → mem_key k (ks ++ js) ≡ (mem_key k ks || mem_key k js)
mem_key-append k [] js = refl
mem_key-append k (i ∷ ks) js = ground (arith, mem_key-append k ks js)

pub distinct-concat :
    (k : String) (ks : List String) → distinct (ks ++ k ∷ []) ≡ (not (mem_key k ks) && distinct ks)
distinct-concat k [] = refl
distinct-concat k (j ∷ ks) =
    ground (arith, distinct-concat k ks, mem_key-append j ks (k ∷ []), eq_iff j k, eq_iff k j)

-- What a swap with the last item does: the keys before it stay, and one leaves.
pub distinct-replace :
    (k j : String) (ks is : List String)
    → distinct (ks ++ k ∷ (is ++ j ∷ [])) ≡ true
    → distinct (ks ++ j ∷ is) ≡ true
distinct-replace k j [] is h = ground (arith, distinct-concat j is)
distinct-replace k j (i ∷ ks) is h = ground (
  arith,
  distinct-replace k j ks is,
  mem_key-append i ks (k ∷ (is ++ j ∷ [])),
  mem_key-append i is (j ∷ []),
  mem_key-append i ks (j ∷ is),
)

pub distinct-prefix : (ks js : List String) → distinct (ks ++ js) ≡ true → distinct ks ≡ true
distinct-prefix [] js h = refl
distinct-prefix (k ∷ ks) js h = ground (arith, distinct-prefix ks js, mem_key-append k ks js)

-- A key of a list of distinct keys stands at no other place of it.
pub distinct-middle :
    (k : String) (ks js : List String)
    → distinct (ks ++ k ∷ js) ≡ true
    → (mem_key k ks ≡ false) × (mem_key k js ≡ false) × (distinct js ≡ true)
distinct-middle k [] js h = ground arith
distinct-middle k (i ∷ ks) js h =
    ground (arith, distinct-middle k ks js, mem_key-append i ks (k ∷ js), eq_iff i k, eq_iff k i)

module _ {ℓ} {A : Type ℓ} (key : A → String) where
  abbrev pub find_by : String → List A → Option A
  find_by k [] = none
  find_by k (x ∷ xs) = if key x == k then some x else find_by k xs

  pub is_some-find_by : (k : String) (xs : List A) → is_some (find_by k xs) ≡ mem_key k (map key xs)
  is_some-find_by k [] = refl
  is_some-find_by k (x ∷ xs) = ground (arith, is_some-find_by k xs)

  pub find_by-append :
      (k : String) (xs ys : List A) → find_by k (xs ++ ys) ≡ ptr_or (find_by k xs) (find_by k ys)
  find_by-append k [] ys = refl
  find_by-append k (x ∷ xs) ys = ground (arith, find_by-append k xs ys)

  -- An item whose key is nowhere else is found at the front and at the back alike.
  pub find_by-concat :
      (k : String) (z : A) (xs : List A)
      → mem_key (key z) (map key xs) ≡ false
      → find_by k (z ∷ xs) ≡ find_by k (xs ++ z ∷ [])
  find_by-concat k z [] h = refl
  find_by-concat k z (x ∷ xs) h =
      ground
        (arith, find_by-concat k z xs, eq_iff (key x) (key z), eq_iff (key x) k, eq_iff (key z) k)

  pub find_by_absent :
      (k : String) (xs : List A) → mem_key k (map key xs) ≡ false → find_by k xs ≡ none
  find_by_absent k xs h = ground (arith, is_some-find_by k xs)
