-- ===== src/Driver/Names/Laws.antt =====
-- What the type of a driver and the names derived from its name are.
use text.Mathlib.TextLemmas.{cons-append, nil-append}
use Prim.Native.Char.{Char, code}
use ceph_csi_operator.Driver.Names.{
  type_at, generate_service_name, match_name, hyphenate, behind_first, type_behind, driver_types,
  generate_name, allowed,
}
use ceph_csi_operator.Prelude.{
  String, Bool, Any, ◌≡◌, List, ◌⊎◌, some, false, true, arith, eqb, Bool-cases, ap, inl,
  Option-cases, ◌&&◌, ◌∷◌, ◌==◌, inr, refl, eq_iff, ◌∙◌, [], sym,
}
use ceph_csi_operator.Prelude.Text.{◌<>◌}
use Prim.Native.String.{[] as nil, ◌∷◌ as ◌∷ₛ◌}

type_at_sound :
    (types : List String) (text t : String)
    → type_at types text ≡ some t
    → Any (λ u. u ≡ t) types × (text ≡ t <> ".csi.ceph.com")
unfolding type_at
type_at_sound [] text t h = ground arith
type_at_sound (u ∷ types) text t h = elim (Bool-cases (text == u <> ".csi.ceph.com")) [
  | inl e ↦
      let p : u ≡ t = ground (arith, h, e) in
      (inl p, (eq_iff text (u <> ".csi.ceph.com")).0 e ∙ ap (λ z. z <> ".csi.ceph.com") p)
  | inr e ↦ let (at, q) = type_at_sound types text t (ground (arith, h, e)) in (inr at, q)
]

-- The text ends in a dot.
abbrev pub ends_in_dot : String → Bool
ends_in_dot nil = false
ends_in_dot (c ∷ₛ nil) = eqb (code c) 46
ends_in_dot (c ∷ₛ d ∷ₛ text) = ends_in_dot (d ∷ₛ text)

-- What precedes the type: nothing, or a text that ends in a dot.
abbrev pub IsPrefix : String → Type 0
IsPrefix p = (p ≡ "") ⊎ (ends_in_dot p ≡ true)

ends_in_dot-cons : (c : Char) (p : String) → ends_in_dot p ≡ true → ends_in_dot (c ∷ₛ p) ≡ true
ends_in_dot-cons c nil h = ground arith
ends_in_dot-cons c (d ∷ₛ p) h = h

under : (c : Char) (p t text : String) → text ≡ p <> t → (c ∷ₛ text) ≡ (c ∷ₛ p) <> t
under c p t text q = ap (λ z. c ∷ₛ z) q ∙ sym (cons-append c p t)

behind_dot : (c : Char) (t text : String) → text ≡ t → (c ∷ₛ text) ≡ (c ∷ₛ nil) <> t
behind_dot c t text q = under c nil t text (q ∙ sym (nil-append t))

type_behind-cases :
    (c : Char) (text t : String)
    → type_behind (c ∷ₛ text) ≡ some t
    → ((eqb (code c) 46 ≡ true) × (type_at driver_types text ≡ some t))
      ⊎ (type_behind text ≡ some t)
unfolding type_behind
type_behind-cases c text t h = elim (Option-cases (type_at driver_types text)) [
  | inl e ↦ inr (ground (arith, h, e))
  | inr (u, e) ↦ ground (arith, h, e)
]

-- A text with a known type behind a dot
abbrev Found : String → String → Type 0
Found text t =
    Any (λ u. u ≡ t) driver_types
    × (p : String) × (ends_in_dot p ≡ true)
    × (text ≡ p <> t <> ".csi.ceph.com")

type_behind_sound : (text t : String) → type_behind text ≡ some t → Found text t
unfolding type_behind
type_behind_sound nil t h = ground arith
type_behind_sound (c ∷ₛ text) t h = elim (type_behind-cases c text t h) [
  | inl (dot, e) ↦
      let (at, q) = type_at_sound driver_types text t e in
      (at, c ∷ₛ nil, dot, behind_dot c (t <> ".csi.ceph.com") text q)
  | inr e ↦
      let (at, p, dot, q) = type_behind_sound text t e in
      (at, c ∷ₛ p, ends_in_dot-cons c p dot, under c p (t <> ".csi.ceph.com") text q)
]

unfoldable pub all_allowed : String → Bool
all_allowed nil = true
all_allowed (c ∷ₛ text) = allowed (code c) && all_allowed text

hyphen-allowed : (text : String) → all_allowed text ≡ true → all_allowed ("-" <> text) ≡ true
unfolding all_allowed
hyphen-allowed text h = rw (cons-append _ "" text, nil-append text) h

hyphenate-allowed : (text : String) → all_allowed (hyphenate text) ≡ true
unfolding hyphenate all_allowed
hyphenate-allowed nil = refl
hyphenate-allowed (c ∷ₛ text) = elim (Bool-cases (allowed (code c))) [
  | inl e ↦ rw e (rw (e, hyphenate-allowed text) refl)
  | inr e ↦ rw e (hyphen-allowed (hyphenate text) (hyphenate-allowed text))
]

-- Every character of a service name is a lower-case letter, a digit or a hyphen.
pub generate_service_name-allowed :
    (driver_name suffix : String) → all_allowed (generate_service_name driver_name suffix) ≡ true
unfolding generate_service_name
generate_service_name-allowed driver_name suffix =
    hyphenate-allowed (generate_name driver_name suffix)

behind_first_sound : (text t : String) → behind_first text ≡ some t → Found text t
unfolding behind_first
behind_first_sound nil t h = ground arith
behind_first_sound (c ∷ₛ text) t h =
    let e : type_behind text ≡ some t = ground (arith, h) in
    let (at, p, dot, q) = type_behind_sound text t e in
    (at, c ∷ₛ p, ends_in_dot-cons c p dot, under c p (t <> ".csi.ceph.com") text q)

-- A driver name is accepted only with one of the four types, which stands before `.csi.ceph.com`
-- and behind nothing or a dot.
pub match_name_sound :
    (name t : String)
    → match_name name ≡ some t
    → Any (λ u. u ≡ t) driver_types × (p : String) × IsPrefix p × (name ≡ p <> t <> ".csi.ceph.com")
unfolding match_name
match_name_sound name t h = elim (Option-cases (type_at driver_types name)) [
  | inl e ↦
      let (at, p, dot, q) = behind_first_sound name t (ground (arith, h, e)) in (at, p, inr dot, q)
  | inr (u, e) ↦
      let (at, q) = type_at_sound driver_types name t (ground (arith, h, e)) in
      (at, "", inl refl, q ∙ sym (nil-append (t <> ".csi.ceph.com")))
]
