-- ===== src/Replication/Order.antt =====
-- The order of age, and the first item of the sorted list.
use ceph_csi_operator.Replication.{sort_by_age, older, insert_sorted}
use ceph_csi_operator.Api.Profile.{ClientProfileReplication}
use ceph_csi_operator.Prelude.TextOrder.{str_lt-le_trans, eq_of_not-str_lt, str_lt_asymm}
use mathlib.Core.Path.{subst}
use ceph_csi_operator.Prelude.{
  [], ◌≡◌, List, true, ◌∷◌, false, All, Any, arith, if◌then◌else◌, Bool-cases, inl, inr, refl, ◌⊎◌,
}

age_trans :
    (a b c : ClientProfileReplication) → older b a ≡ false → older c b ≡ false → older c a ≡ false
unfolding older
age_trans a b c p q =
    ground (arith, str_lt-le_trans a.metadata.name b.metadata.name c.metadata.name)

age_asymm : (a b : ClientProfileReplication) → older a b ≡ true → older b a ≡ false
unfolding older
age_asymm a b p = ground (arith, str_lt_asymm a.metadata.name b.metadata.name)

-- Neither is older: the times and the names are the same.
same_age :
    (a b : ClientProfileReplication)
    → older a b ≡ false
    → older b a ≡ false
    → (a.metadata.name ≡ b.metadata.name)
      × (a.metadata.creation_timestamp ≡ b.metadata.creation_timestamp)
unfolding older
same_age a b p q = ground (arith, eq_of_not-str_lt a.metadata.name b.metadata.name)

-- The oldest of some items, the first of several.
pub oldest : ClientProfileReplication → List ClientProfileReplication → ClientProfileReplication
oldest a [] = a
oldest a (b ∷ items) = let m = oldest b items in if older m a then m else a

-- The sorted list begins with the oldest item.
pub sort_by_age-oldest :
    (a : ClientProfileReplication) (items : List ClientProfileReplication)
    → (rest : List ClientProfileReplication) × (sort_by_age (a ∷ items) ≡ oldest a items ∷ rest)
unfolding sort_by_age oldest
sort_by_age-oldest a [] = ([], refl)
sort_by_age-oldest a (b ∷ items) =
    let (rest, e) = sort_by_age-oldest b items in
    elim (Bool-cases (older (oldest b items) a)) [
      | inl o ↦ (insert_sorted a rest, rw e (rw o refl))
      | inr o ↦ (oldest b items ∷ rest, rw e (rw o refl))
    ]

abbrev pub NotOlder : ClientProfileReplication → ClientProfileReplication → Type 0
NotOlder w x = older x w ≡ false

NotOlder-trans :
    (a w : ClientProfileReplication) (items : List ClientProfileReplication)
    → older w a ≡ false
    → All (NotOlder w) items
    → All (NotOlder a) items
NotOlder-trans a w [] h all = tt
NotOlder-trans a w (x ∷ items) h all = (age_trans a w x h all.0, NotOlder-trans a w items h all.1)

age_refl : (a : ClientProfileReplication) → older a a ≡ false
age_refl a = elim (Bool-cases (older a a)) [ inl e ↦ age_asymm a a e | inr e ↦ e ]

oldest-cases :
    (a b : ClientProfileReplication) (items : List ClientProfileReplication)
    → ((older (oldest b items) a ≡ true) × (oldest b items ≡ oldest a (b ∷ items)))
      ⊎ ((older (oldest b items) a ≡ false) × (a ≡ oldest a (b ∷ items)))
unfolding oldest
oldest-cases a b items = elim (Bool-cases (older (oldest b items) a)) [
  | inl o ↦ inl (o, rw o refl)
  | inr o ↦ inr (o, rw o refl)
]

oldest-nil : (a : ClientProfileReplication) → a ≡ oldest a []
unfolding oldest
oldest-nil a = refl

-- No item is older than the oldest.
pub oldest-NotOlder :
    (a : ClientProfileReplication) (items : List ClientProfileReplication)
    → All (NotOlder (oldest a items)) (a ∷ items)
oldest-NotOlder a [] = subst (λ z. All (NotOlder z) (a ∷ [])) (oldest-nil a) (age_refl a, tt)
oldest-NotOlder a (b ∷ items) = elim (oldest-cases a b items) [
  | inl (o, e) ↦
      subst (λ z. All (NotOlder z) (a ∷ b ∷ items)) e
        (age_asymm (oldest b items) a o, oldest-NotOlder b items)
  | inr (o, e) ↦
      subst (λ z. All (NotOlder z) (a ∷ b ∷ items)) e
        (age_refl a, NotOlder-trans a (oldest b items) (b ∷ items) o (oldest-NotOlder b items))
]

-- The oldest is one of the items.
pub oldest-Any :
    (a : ClientProfileReplication) (items : List ClientProfileReplication)
    → Any (λ x. x ≡ oldest a items) (a ∷ items)
oldest-Any a [] = inl (oldest-nil a)
oldest-Any a (b ∷ items) = elim (oldest-cases a b items) [
  | inl (o, e) ↦ inr (subst (λ z. Any (λ x. x ≡ z) (b ∷ items)) e (oldest-Any b items))
  | inr (o, e) ↦ inl e
]

-- Every item of the first list is in the second.
abbrev pub Included : List ClientProfileReplication → List ClientProfileReplication → Type 0
Included xs ys = All (λ x. Any (λ y. y ≡ x) ys) xs

All-Any :
    (P : ClientProfileReplication → Type 0) (x : ClientProfileReplication)
    (ys : List ClientProfileReplication)
    → All P ys
    → Any (λ y. y ≡ x) ys
    → P x
All-Any P x [] all at = absurd at
All-Any P x (y ∷ ys) all (inl e) = subst P e all.0
All-Any P x (y ∷ ys) all (inr at) = All-Any P x ys all.1 at

-- Two listings of the same replications, in whatever order, have oldest items of one name and time.
pub oldest_unique :
    (a b : ClientProfileReplication) (xs ys : List ClientProfileReplication)
    → Included (a ∷ xs) (b ∷ ys)
    → Included (b ∷ ys) (a ∷ xs)
    → ((oldest a xs).metadata.name ≡ (oldest b ys).metadata.name)
      × ((oldest a xs).metadata.creation_timestamp ≡ (oldest b ys).metadata.creation_timestamp)
oldest_unique a b xs ys into back =
    same_age (oldest a xs) (oldest b ys)
      (All-Any (NotOlder (oldest b ys)) (oldest a xs) (b ∷ ys) (oldest-NotOlder b ys)
        (All-Any (λ x. Any (λ y. y ≡ x) (b ∷ ys)) (oldest a xs) (a ∷ xs) into (oldest-Any a xs)))
      (All-Any (NotOlder (oldest a xs)) (oldest b ys) (a ∷ xs) (oldest-NotOlder a xs)
        (All-Any (λ x. Any (λ y. y ≡ x) (a ∷ xs)) (oldest b ys) (b ∷ ys) back (oldest-Any b ys)))
