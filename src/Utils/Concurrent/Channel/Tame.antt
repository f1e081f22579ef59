-- ===== src/Utils/Concurrent/Channel/Tame.antt =====
-- `RunConcurrently`: the goroutines can go on only finitely often.
use ceph_csi_operator.Utils.Concurrent.{Task, returned, running}
use ceph_csi_operator.Utils.Concurrent.Channel.{
  Routine, working, deferring, Effect, goroutine, behind,
}
use mathlib.Core.Path.{subst}
use ceph_csi_operator.Prelude.{Bool, Option, none, some, List, [], ◌∷◌, ℕ, zero, suc, ◌≡◌, arith}

-- Goroutines that can go on only finitely often
pub data Tame (W : Type 0) : List (Routine W) → Type 0 where
  tame :
      (rs : List (Routine W))
      → ((reading : Bool) (i : ℕ) (w w' : W) (rs' : List (Routine W)) (effect : Effect)
          → goroutine reading i rs w ≡ some (rs', effect, w')
          → Tame W rs')
      → Tame W rs

module _ {W : Type 0} where
  behind-eq-some :
      (r : Routine W) (o : Option (List (Routine W) × Effect × W)) (rs' : List (Routine W))
      (effect : Effect) (w' : W)
      → behind r o ≡ some (rs', effect, w')
      → (rs : List (Routine W)) × (o ≡ some (rs, effect, w')) × (r ∷ rs ≡ rs')
  behind-eq-some r none rs' effect w' h = ground (arith, h)
  behind-eq-some r (some (rs, effect', v)) rs' effect w' h =
      (rs, ground (arith, h), ground (arith, h))

  Tame-cons :
      (r : Routine W) (rs : List (Routine W))
      → ((reading : Bool) (w w' : W) (rs' : List (Routine W)) (effect : Effect)
          → goroutine reading 0 (r ∷ rs) w ≡ some (rs', effect, w')
          → Tame W rs')
      → ((reading : Bool) (i : ℕ) (w w' : W) (rs' : List (Routine W)) (effect : Effect)
          → goroutine reading i rs w ≡ some (rs', effect, w')
          → Tame W (r ∷ rs'))
      → Tame W (r ∷ rs)
  unfolding goroutine
  Tame-cons r rs head tail = tame (r ∷ rs) each
    where
      each :
          (reading : Bool) (i : ℕ) (w w' : W) (rs' : List (Routine W)) (effect : Effect)
          → goroutine reading i (r ∷ rs) w ≡ some (rs', effect, w')
          → Tame W rs'
      each reading zero w w' rs' effect h = head reading w w' rs' effect h
      each reading (suc i) w w' rs' effect h =
          let (rest, e, same) = behind-eq-some r (goroutine reading i rs w) rs' effect w' h in
          subst (Tame W) same (tail reading i w w' rest effect e)

  Tame-deferring : (rs : List (Routine W)) → Tame W rs → Tame W (deferring ∷ rs)
  unfolding goroutine
  Tame-deferring rs (tame _ f) =
      Tame-cons deferring rs
        (λ reading w w' rs' effect h. subst (Tame W) (ground (arith, h)) (tame rs f))
        (λ reading i w w' rs' effect h. Tame-deferring rs' (f reading i w w' rs' effect h))

  Tame-working : (t : Task W) (rs : List (Routine W)) → Tame W rs → Tame W (working t ∷ rs)
  unfolding goroutine
  Tame-working (returned value) rs (tame _ f) =
      Tame-cons (working (returned value)) rs
        (λ reading w w' rs' effect h.
          subst (Tame W) (ground (arith, h)) (Tame-deferring rs (tame rs f)))
        (λ reading i w w' rs' effect h.
          Tame-working (returned value) rs' (f reading i w w' rs' effect h))
  Tame-working (running next put) rs (tame _ f) =
      Tame-cons (working (running next put)) rs
        (λ reading w w' rs' effect h.
          subst (Tame W) (ground (arith, h)) (Tame-working (next w) rs (tame rs f)))
        (λ reading i w w' rs' effect h.
          Tame-working (running next put) rs' (f reading i w w' rs' effect h))

  pub all-Tame : (rs : List (Routine W)) → Tame W rs
  unfolding goroutine
  all-Tame [] = tame [] (λ reading i w w' rs' effect h. ground (arith, h))
  all-Tame (working t ∷ rs) = Tame-working t rs (all-Tame rs)
  all-Tame (deferring ∷ rs) = Tame-deferring rs (all-Tame rs)
