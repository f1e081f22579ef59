-- ===== src/Utils/Concurrent/Errors.antt =====
-- `RunConcurrently`: no error is lost, and what every function keeps, the run keeps.
use ceph_csi_operator.Utils.Concurrent.{
  run, advance, step, join_errors, Task, run_concurrently, returned, Pool, running,
}
use ceph_csi_operator.Prelude.Result.{Error}
use ceph_csi_operator.Prelude.{
  List, Option, ℕ, zero, suc, ◌≡◌, ◌++◌, All, Any, ◌∷◌, none, some, [], arith, refl, ◌⊎◌, inl, inr,
  is_some, true,
}

Any-left : {A : Type 0} (P : A → Type 0) (xs ys : List A) → Any P xs → Any P (xs ++ ys)
Any-left P [] ys at = elim at [ ]
Any-left P (x ∷ xs) ys (inl h) = inl h
Any-left P (x ∷ xs) ys (inr at) = inr (Any-left P xs ys at)

Any-right : {A : Type 0} (P : A → Type 0) (xs ys : List A) → Any P ys → Any P (xs ++ ys)
Any-right P [] ys at = at
Any-right P (x ∷ xs) ys at = inr (Any-right P xs ys at)

abbrev IsError : Option Error → Type 0
IsError v = is_some v ≡ true

join_errors-Any :
    (values : List (Option Error)) → Any IsError values → is_some (join_errors values) ≡ true
unfolding join_errors
join_errors-Any [] at = elim at [ ]
join_errors-Any (some e ∷ values) at = refl
join_errors-Any (none ∷ values) (inl h) = ground (arith, h)
join_errors-Any (none ∷ values) (inr at) = join_errors-Any values at

module _ {W : Type 0} where
  -- A function that returns an error whatever the others do
  unfoldable pub Fails : Task W → Type 0
  Fails (returned value) = IsError value
  Fails (running next put) = (w : W) → Fails (next w)

  -- An error that is to come, or has been received
  abbrev IsPending : List (Task W) → List (Option Error) → Type 0
  IsPending tasks values = Any Fails tasks ⊎ Any IsError values

  advance-IsPending :
      (i : ℕ) (tasks : List (Task W)) (w : W)
      → Any Fails tasks
      → IsPending (advance i tasks w).0 (advance i tasks w).1
  unfolding advance Fails
  advance-IsPending i [] w at = elim at [ ]
  advance-IsPending zero (returned value ∷ tasks) w (inl h) = inr (inl h)
  advance-IsPending zero (returned value ∷ tasks) w (inr at) = inl at
  advance-IsPending zero (running next put ∷ tasks) w (inl h) = inl (inl (h w))
  advance-IsPending zero (running next put ∷ tasks) w (inr at) = inl (inr at)
  advance-IsPending (suc i) (task ∷ tasks) w (inl h) = inl (inl h)
  advance-IsPending (suc i) (task ∷ tasks) w (inr at) = elim (advance-IsPending i tasks w at) [
    | inl rest ↦ inl (inr rest)
    | inr sent ↦ inr sent
  ]

  step-IsPending :
      (i : ℕ) (p : Pool W)
      → IsPending p.tasks p.received
      → IsPending (step i p).tasks (step i p).received
  unfolding step
  step-IsPending i p (inl at) = elim (advance-IsPending i p.tasks p.world at) [
    | inl rest ↦ inl rest
    | inr sent ↦ inr (Any-right IsError p.received (advance i p.tasks p.world).1 sent)
  ]
  step-IsPending i p (inr at) = inr (Any-left IsError p.received (advance i p.tasks p.world).1 at)

  run-IsPending :
      (schedule : List ℕ) (p : Pool W)
      → IsPending p.tasks p.received
      → IsPending (run schedule p).tasks (run schedule p).received
  unfolding run
  run-IsPending [] p h = h
  run-IsPending (i ∷ schedule) p h = run-IsPending schedule (step i p) (step-IsPending i p h)

  closed-IsPending :
      (tasks : List (Task W)) (values : List (Option Error))
      → tasks ≡ []
      → IsPending tasks values
      → is_some (join_errors values) ≡ true
  closed-IsPending [] values e (inl at) = elim at [ ]
  closed-IsPending (task ∷ tasks) values e h = ground (arith, e)
  closed-IsPending [] values e (inr at) = join_errors-Any values at

  -- Where one function returns an error whatever the others do, the joined error is not nil in any order,
  -- once all have returned.
  pub run-Fails :
      (schedule : List ℕ) (fn_list : List (Task W)) (w : W)
      → Any Fails fn_list
      → (run schedule (run_concurrently fn_list w)).tasks ≡ []
      → is_some (join_errors (run schedule (run_concurrently fn_list w)).received) ≡ true
  run-Fails schedule fn_list w at e =
      closed-IsPending _ _ e (run-IsPending schedule (run_concurrently fn_list w) (inl at))

  module _ (I : W → Type 0) where
    -- Every move of a function keeps a property of what all share.
    unfoldable pub Keeps : Task W → Type 0
    Keeps (returned value) = Unit
    Keeps (running next put) = (w : W) → I w → I (put w) × Keeps (next w)

    advance-Keeps :
        (i : ℕ) (tasks : List (Task W)) (w : W)
        → All Keeps tasks
        → I w
        → All Keeps (advance i tasks w).0 × I (advance i tasks w).2
    unfolding advance Keeps
    advance-Keeps i [] w h k = (tt, k)
    advance-Keeps zero (returned value ∷ tasks) w h k = (h.1, k)
    advance-Keeps zero (running next put ∷ tasks) w h k =
        let (kept, later) = h.0 w k in ((later, h.1), kept)
    advance-Keeps (suc i) (task ∷ tasks) w h k =
        let (rest, kept) = advance-Keeps i tasks w h.1 k in ((h.0, rest), kept)

    pub run-Keeps :
        (schedule : List ℕ) (p : Pool W) → All Keeps p.tasks → I p.world → I (run schedule p).world
    unfolding run step
    run-Keeps [] p h k = k
    run-Keeps (i ∷ schedule) p h k =
        let (rest, kept) = advance-Keeps i p.tasks p.world h k in
        run-Keeps schedule (step i p) rest kept
