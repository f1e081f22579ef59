-- ===== src/Prelude/Result.antt =====
-- Go's `(T, error)` results and panics, and methods on a receiver that change it and may fail.
use Prim.Native.String.{String}
use ceph_csi_operator.Prelude.{◌≡◌, refl}
use mathlib.Core.Bool.{Bool, true, false}

-- An `error`: the two kinds that the code asks for by `errors.IsNotFound` and `errors.IsInvalid`,
-- and any other; each carries the text of `Error()`.
pub data Error : Type 0 where
  not_found invalid other : String → Error

-- `fmt.Sprintf("%v", err)`
unfoldable pub message : Error → String
message (not_found s) = s
message (invalid s) = s
message (other s) = s

abbrev pub is_not_found : Error → Bool
is_not_found (not_found s) = true
is_not_found _ = false

abbrev pub is_invalid : Error → Bool
is_invalid (invalid s) = true
is_invalid _ = false

-- What a call ends in: a value, a returned error, or a panic.
pub data Result {ℓ} (A : Type ℓ) : Type ℓ where
  ok : A → Result A
  err : Error → Result A
  panic : Result A

-- A method on a receiver of type `S`, the state of the cluster included: what was changed before
-- an error stays changed.
abbrev pub Method {ℓ} : Type ℓ → Type ℓ → Type ℓ
Method S A = S → Result A × S

module _ {ℓ} {S A : Type ℓ} where
  abbrev pub pure : A → Method S A
  pure a s = (ok a, s)

  abbrev pub fail : Error → Method S A
  fail e s = (err e, s)

module _ {ℓ} {S A B : Type ℓ} where
  abbrev pub resume : Result A → (A → Method S B) → Method S B
  resume (ok a) f s = f a s
  resume (err e) f s = (err e, s)
  resume panic f s = (panic, s)

  infixl 5 ◌>>=◌ ◌>>◌
  abbrev pub ◌>>=◌ : Method S A → (A → Method S B) → Method S B
  ◌>>=◌ m f s = resume (m s).0 f (m s).1

  abbrev pub ◌>>◌ : Method S A → Method S B → Method S B
  m >> n = m >>= λ _. n

-- Inversion of a sequence that succeeded.
pub >>-eq-ok {ℓ} :
    {S B : Type ℓ} (m : Method S (Unit {ℓ})) (k : Method S B) (s s' : S) (b : B)
    → (m >> k) s ≡ (ok b, s')
    → ((m s).0 ≡ ok tt) × (k (m s).1 ≡ (ok b, s'))
>>-eq-ok {S} {B} m k s s' b = after (m s).0 refl
  where
    after :
        (r : Result Unit)
        → (m s).0 ≡ r
        → resume r (λ _. k) (m s).1 ≡ (ok b, s')
        → (r ≡ ok tt) × (k (m s).1 ≡ (ok b, s'))
    after (ok u) e h = (refl, h)
    after (err x) e h = cc
    after panic e h = cc

-- The error that a reconcile iteration returns where its phases have failed: theirs, whatever the
-- status update gives.
abbrev pub keep_error : Error → Result (Unit {0}) → Result (Unit {0})
keep_error e panic = panic
keep_error e _ = err e

module _ {ℓ} {S A B : Type ℓ} where
  pub resume_cong :
      (r : Result A) (f g : Method S B) (s : S)
      → ((t : S) → f t ≡ g t)
      → resume r (λ _. f) s ≡ resume r (λ _. g) s
  resume_cong (ok a) f g s h = h s
  resume_cong (err e) f g s h = refl
  resume_cong panic f g s h = refl

module _ {ℓ} {S A B C : Type ℓ} where
  pub resume_assoc :
      (r : Result A) (f : Method S B) (g : Method S C) (s : S)
      → resume (resume r (λ _. f) s).0 (λ _. g) (resume r (λ _. f) s).1 ≡ resume r (λ _. f >> g) s
  resume_assoc (ok a) f g s = refl
  resume_assoc (err e) f g s = refl
  resume_assoc panic f g s = refl

-- `client.IgnoreNotFound` behind a deletion
abbrev pub ignore_not_found : Result (Unit {0}) → Result (Unit {0})
ignore_not_found (err (not_found text)) = ok tt
ignore_not_found r = r

-- `ctrlutil.CreateOrUpdate`, where only its error is used
abbrev pub only_error : {A : Type 0} → Result A → Result (Unit {0})
only_error (ok a) = ok tt
only_error (err e) = err e
only_error panic = panic
