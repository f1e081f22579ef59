-- ===== src/Mapping/Pools.antt =====
-- The loop over the pairs of pools, with its set of seen pairs, against the pairs of a group.
use ceph_csi_operator.Mapping.Groups.Laws.{same_key_refl}
use ceph_csi_operator.Prelude.{
  String, List, ◌++◌, ◌∷◌, map, ◌≡◌, if◌then◌else◌, [], ap, ◌||◌, refl, arith, true, false, some,
  Option-cases, inl, inr, Bool-cases, ltb, ◌∙◌, sym, length, ◌≢◌,
}
use ceph_csi_operator.Prelude.Assoc.{Assoc}
use ceph_csi_operator.Mapping.Groups.{two_items, has_pair, same_pair, add_pairs}
use ceph_csi_operator.Api.Profile.{BlockPoolIdPair}
use ceph_csi_operator.Prelude.Result.{ok}
use mathlib.Core.Path.{subst}
use ceph_csi_operator.Mapping.{add_pools, MappingKey, is_seen, DuplicationKey, same_key}

abbrev pub pool_maps : List (String × String) → List (Assoc String)
pool_maps pools = map (λ p. (p.0, p.1) ∷ []) pools

pub has_pair-concat :
    (p q : String × String) (pools : List (String × String))
    → has_pair p (pools ++ q ∷ []) ≡ (has_pair p pools || same_pair q p)
has_pair-concat p q [] = ground arith
has_pair-concat p q (r ∷ pools) = ground (arith, has_pair-concat p q pools)

pool_maps-concat :
    (pools : List (String × String)) (q : String × String)
    → pool_maps (pools ++ q ∷ []) ≡ pool_maps pools ++ ((q.0, q.1) ∷ []) ∷ []
pool_maps-concat [] q = refl
pool_maps-concat (p ∷ pools) q = ap (λ z. ((p.0, p.1) ∷ []) ∷ z) (pool_maps-concat pools q)

-- What the loop over the pairs leaves in the set of seen pairs
abbrev pub Seen :
    MappingKey → List (String × String) → List DuplicationKey → List DuplicationKey → Type 0
Seen key pools before after =
    (k : DuplicationKey)
    → is_seen k after ≡ (
        if same_key key k.key
        then has_pair (k.local_pool, k.remote_pool) pools
        else is_seen k before)

-- The set before agrees with the pools at one key.
abbrev pub Agrees : MappingKey → List (String × String) → List DuplicationKey → Type 0
Agrees key pools seen =
    (k : DuplicationKey)
    → same_key key k.key ≡ true
    → is_seen k seen ≡ has_pair (k.local_pool, k.remote_pool) pools

-- The outcome of the loop
abbrev pub Added :
    MappingKey
    → List BlockPoolIdPair
    → List (String × String)
    → List (String × String)
    → List DuplicationKey
    → Type 0
Added key block_pools total pools seen =
    (seen' : List DuplicationKey) × (add_pools key block_pools (pool_maps pools, seen)
      ≡ (ok tt, (pool_maps total, seen')))
    × Seen key total seen seen'

two_items-cons :
    (local remote : String) (more : List String) (block_pools : List BlockPoolIdPair)
    (pairs : List (String × String))
    → two_items ((local ∷ remote ∷ more) ∷ block_pools) ≡ some pairs
    → (rest : List (String × String)) × (two_items block_pools ≡ some rest)
      × (pairs ≡ (local, remote) ∷ rest)
unfolding two_items
two_items-cons local remote more block_pools pairs h = elim (Option-cases (two_items block_pools)) [
  | inl e ↦ ground (arith, h, e)
  | inr (rest, e) ↦ (rest, e, ground (arith, h, e))
]

dup : MappingKey → String → String → DuplicationKey
dup key local remote = record { key = key; local_pool = local; remote_pool = remote }

-- A pair that is seen is skipped.
add_pools-seen :
    (key : MappingKey) (local remote : String) (more : List String)
    (block_pools : List BlockPoolIdPair) (s : List (Assoc String) × List DuplicationKey)
    → is_seen (dup key local remote) s.1 ≡ true
    → add_pools key ((local ∷ remote ∷ more) ∷ block_pools) s ≡ add_pools key block_pools s
unfolding add_pools dup
add_pools-seen key local remote more block_pools (pools, seen) h = rw h refl

add_pools-new :
    (key : MappingKey) (local remote : String) (more : List String)
    (block_pools : List BlockPoolIdPair) (pools : List (Assoc String)) (seen : List DuplicationKey)
    → is_seen (dup key local remote) seen ≡ false
    → add_pools key ((local ∷ remote ∷ more) ∷ block_pools) (pools, seen)
      ≡ add_pools key block_pools
          (pools ++ ((local, remote) ∷ []) ∷ [], dup key local remote ∷ seen)
unfolding add_pools dup
add_pools-new key local remote more block_pools pools seen h = rw h refl

Agrees-new :
    (key : MappingKey) (local remote : String) (pools : List (String × String))
    (seen : List DuplicationKey)
    → Agrees key pools seen
    → Agrees key (pools ++ (local, remote) ∷ []) (dup key local remote ∷ seen)
unfolding is_seen dup
Agrees-new key local remote pools seen h k e =
    ground (arith, e, h k e, has_pair-concat (k.local_pool, k.remote_pool) (local, remote) pools)

Seen-new :
    (key : MappingKey) (local remote : String) (pools : List (String × String))
    (seen after : List DuplicationKey)
    → Seen key pools (dup key local remote ∷ seen) after
    → Seen key pools seen after
unfolding is_seen dup
Seen-new key local remote pools seen after h k = ground (arith, h k)

add_pools-nil :
    (key : MappingKey) (pools : List (String × String)) (seen : List DuplicationKey)
    → Agrees key pools seen
    → Added key [] pools pools seen
unfolding add_pools
add_pools-nil key pools seen h = (
  seen,
  refl,
  λ k. elim (Bool-cases (same_key key k.key)) [ inl e ↦ rw e (h k e) | inr e ↦ rw e refl ],
)

add_pools-old :
    (key : MappingKey) (local remote : String) (more : List String)
    (block_pools : List BlockPoolIdPair) (total pools : List (String × String))
    (seen : List DuplicationKey)
    → Agrees key pools seen
    → has_pair (local, remote) pools ≡ true
    → Added key block_pools total pools seen
    → Added key ((local ∷ remote ∷ more) ∷ block_pools) total pools seen
unfolding dup
add_pools-old key local remote more block_pools total pools seen h y (seen', e, s) = (
  seen',
  add_pools-seen key local remote more block_pools (pool_maps pools, seen)
        (h (dup key local remote) (same_key_refl key) ∙ y)
      ∙ e,
  s,
)

add_pools-add :
    (key : MappingKey) (local remote : String) (more : List String)
    (block_pools : List BlockPoolIdPair) (total pools : List (String × String))
    (seen : List DuplicationKey)
    → Agrees key pools seen
    → has_pair (local, remote) pools ≡ false
    → Added key block_pools total (pools ++ (local, remote) ∷ []) (dup key local remote ∷ seen)
    → Added key ((local ∷ remote ∷ more) ∷ block_pools) total pools seen
unfolding dup
add_pools-add key local remote more block_pools total pools seen h y (seen', e, s) = (
  seen',
  add_pools-new key local remote more block_pools (pool_maps pools) seen
        (h (dup key local remote) (same_key_refl key) ∙ y)
      ∙ ap (λ z. add_pools key block_pools (z, dup key local remote ∷ seen))
          (sym (pool_maps-concat pools (local, remote)))
      ∙ e,
  Seen-new key local remote total seen seen' s,
)

two_items-nil : (pairs : List (String × String)) → two_items [] ≡ some pairs → pairs ≡ []
unfolding two_items
two_items-nil pairs h = ground (arith, h)

two_items-short :
    (pair : BlockPoolIdPair) (block_pools : List BlockPoolIdPair) (pairs : List (String × String))
    → ltb (length pair) 2 ≡ true
    → two_items (pair ∷ block_pools) ≢ some pairs
unfolding two_items
two_items-short [] block_pools pairs h = λ e. ground (arith, e)
two_items-short (a ∷ []) block_pools pairs h = λ e. ground (arith, e)
two_items-short (a ∷ b ∷ more) block_pools pairs h = ground (arith, h)

pub add_pools-Added :
    (key : MappingKey) (block_pools : List BlockPoolIdPair) (pairs pools : List (String × String))
    (seen : List DuplicationKey)
    → two_items block_pools ≡ some pairs
    → Agrees key pools seen
    → Added key block_pools (add_pairs pools pairs) pools seen
add_pools-Added key [] pairs pools seen t h =
    subst (λ z. Added key [] (add_pairs pools z) pools seen) (sym (two_items-nil pairs t))
      (add_pools-nil key pools seen h)
add_pools-Added key ((local ∷ remote ∷ more) ∷ block_pools) pairs pools seen t h =
    let (rest, t', p) = two_items-cons local remote more block_pools pairs t in
    subst (λ z. Added key ((local ∷ remote ∷ more) ∷ block_pools) (add_pairs pools z) pools seen)
      (sym p)
      (elim (Bool-cases (has_pair (local, remote) pools)) [
        | inl y ↦
            rw (y, add_pairs)
              (add_pools-old key local remote more block_pools (add_pairs pools rest) pools seen h y
                (add_pools-Added key block_pools rest pools seen t' h))
        | inr y ↦
            rw (y, add_pairs)
              (add_pools-add key local remote more block_pools
                (add_pairs (pools ++ (local, remote) ∷ []) rest) pools seen h y
                (add_pools-Added key block_pools rest (pools ++ (local, remote) ∷ [])
                  (dup key local remote ∷ seen) t' (Agrees-new key local remote pools seen h)))
      ])
add_pools-Added key ((local ∷ []) ∷ block_pools) pairs pools seen t h =
    absurd (two_items-short (local ∷ []) block_pools pairs refl t)
add_pools-Added key ([] ∷ block_pools) pairs pools seen t h =
    absurd (two_items-short [] block_pools pairs refl t)
