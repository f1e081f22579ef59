-- ===== src/Mapping/Groups/Laws.antt =====
-- What the search, the put and the add of a group do to the positions and pairs of the others.
use ceph_csi_operator.Prelude.{
  List, String, ◌∷◌, ◌++◌, ℕ, if◌then◌else◌, [], ◌≡◌, arith, some, true, none, length, eq_refl,
  eq_iff, Option-cases, refl, Bool-cases, inl, inr, ap, ◌∙◌,
}
use ceph_csi_operator.Mapping.Groups.{
  Group, add_group, position, pools_of, put_group, new_group, add_pairs,
}
use ceph_csi_operator.Mapping.{MappingKey, same_key}

pub same_key_refl : (a : MappingKey) → same_key a a ≡ true
same_key_refl a = ground (arith, eq_refl a.local, eq_refl a.remote)

pub same_key_join :
    (a b k : MappingKey) → same_key a k ≡ true → same_key b k ≡ true → same_key a b ≡ true
same_key_join a b k p q = ground (
  arith,
  eq_iff a.local k.local,
  eq_iff b.local k.local,
  eq_iff a.local b.local,
  eq_iff a.remote k.remote,
  eq_iff b.remote k.remote,
  eq_iff a.remote b.remote,
)

pub same_key_sym : (a b : MappingKey) → same_key a b ≡ same_key b a
same_key_sym a b = ground (
  arith,
  eq_iff a.local b.local,
  eq_iff b.local a.local,
  eq_iff a.remote b.remote,
  eq_iff b.remote a.remote,
)

pub same_key_cong : (a b k : MappingKey) → same_key a b ≡ true → same_key a k ≡ same_key b k
same_key_cong a b k h = ground (
  arith,
  h,
  eq_iff a.local b.local,
  eq_iff a.local k.local,
  eq_iff b.local k.local,
  eq_iff a.remote b.remote,
  eq_iff a.remote k.remote,
  eq_iff b.remote k.remote,
)

pub position-concat :
    (key k : MappingKey) (groups : List Group)
    → position key groups ≡ none
    → position k (groups ++ new_group key ∷ [])
      ≡ (if same_key key k then some (length groups) else position k groups)
position-concat key k [] h = refl
position-concat key k (g ∷ groups) h = elim (Option-cases (position key groups)) [
  | inl e ↦ ground (arith, h, e, position-concat key k groups e, same_key_join g.key key k)
  | inr (i, e) ↦ ground (arith, h, e)
]

pub pools_of-concat :
    (key k : MappingKey) (groups : List Group)
    → pools_of k (groups ++ new_group key ∷ []) ≡ pools_of k groups
pools_of-concat key k [] = ground arith
pools_of-concat key k (g ∷ groups) = ground (arith, pools_of-concat key k groups)

pub position-put :
    (key k : MappingKey) (pools : List (String × String)) (groups : List Group)
    → position k (put_group key pools groups) ≡ position k groups
position-put key k pools [] = refl
position-put key k pools (g ∷ groups) = ground (arith, position-put key k pools groups)

pub pools_of-put :
    (key k : MappingKey) (pools : List (String × String)) (groups : List Group) (i : ℕ)
    → position key groups ≡ some i
    → pools_of k (put_group key pools groups)
      ≡ (if same_key key k then pools else pools_of k groups)
pools_of-put key k pools [] i h = ground arith
pools_of-put key k pools (g ∷ groups) i h = elim (Option-cases (position key groups)) [
  | inl e ↦ ground (arith, h, e, same_key_cong g.key key k)
  | inr (j, e) ↦ ground (
    arith,
    h,
    e,
    pools_of-put key k pools groups j e,
    same_key_cong g.key key k,
    same_key_join g.key key k,
  )
]

pub add_group-found :
    (key : MappingKey) (pairs : List (String × String)) (groups : List Group) (i : ℕ)
    → position key groups ≡ some i
    → add_group key pairs groups ≡ put_group key (add_pairs (pools_of key groups) pairs) groups
unfolding add_group
add_group-found key pairs [] i h = ground arith
add_group-found key pairs (g ∷ groups) i h = elim (Bool-cases (same_key g.key key)) [
  | inl e ↦ rw e refl
  | inr e ↦ elim (Option-cases (position key groups)) [
    | inl n ↦ ground (arith, h, e, n)
    | inr (j, n) ↦
        let p : pools_of key groups ≡ pools_of key (g ∷ groups) = ground (arith, e) in
        rw e (
          ap (λ z. g ∷ z) (add_group-found key pairs groups j n)
          ∙ ap (λ z. g ∷ put_group key (add_pairs z pairs) groups) p)
  ]
]

pub add_group-absent :
    (key : MappingKey) (pairs : List (String × String)) (groups : List Group)
    → position key groups ≡ none
    → add_group key pairs groups ≡ put_group key (add_pairs [] pairs) (groups ++ new_group key ∷ [])
unfolding add_group
add_group-absent key pairs [] h = ground (arith, same_key_refl key)
add_group-absent key pairs (g ∷ groups) h = elim (Bool-cases (same_key g.key key)) [
  | inl e ↦ ground (arith, h, e)
  | inr e ↦ elim (Option-cases (position key groups)) [
    | inl n ↦ rw e (ap (λ z. g ∷ z) (add_group-absent key pairs groups n))
    | inr (j, n) ↦ ground (arith, h, e, n)
  ]
]
