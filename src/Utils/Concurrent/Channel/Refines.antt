-- ===== src/Utils/Concurrent/Channel/Refines.antt =====
-- `RunConcurrently` with its channel goes on as the goroutines of Utils/Concurrent do.
use ceph_csi_operator.Utils.Concurrent.{
  Task, returned, running, Pool, run, step, advance, run_concurrently,
}
use ceph_csi_operator.Utils.Concurrent.Laws.{run-append}
use ceph_csi_operator.Utils.Concurrent.Channel.{
  Routine, working, deferring, Machine, Move, start_next, go_on, close_channel, Effect, quiet,
  sends, done, begin, start, goroutine, behind, after_effect, after_go, move, moves,
}
use ceph_csi_operator.Utils.Concurrent.Channel.Sound.{
  IsSound, AllSound, move-IsSound, begin-IsSound, IsSized, goroutine-IsSized, open_before,
}
use mathlib.Core.List.{append-nil}
use mathlib.Core.Path.{subst}
use ceph_csi_operator.Prelude.Result.{Error}
use ceph_csi_operator.Prelude.{
  Bool, true, false, Option, none, some, List, [], ◌∷◌, ◌++◌, ℕ, zero, suc, ◌≡◌, inl, inr, length,
  refl, ap, sym, ◌∙◌, eqb, if◌then◌else◌, not, ◌&&◌, Bool-cases, ◌-◌,
}

module _ {W : Type 0} where
  -- The functions that have not sent their value
  unfoldable pub tasks_of : List (Routine W) → List (Task W) → List (Task W)
  tasks_of [] fns = fns
  tasks_of (working task ∷ rs) fns = task ∷ tasks_of rs fns
  tasks_of (deferring ∷ rs) fns = tasks_of rs fns

  -- The machine without its wait group and its channel
  abbrev pub pool_of : Machine W → Pool W
  pool_of m = record {
    tasks = tasks_of m.routines m.to_start;
    received = m.received;
    world = m.world;
  }

  -- The move of a goroutine, as a move of its function
  abbrev Follows :
      List (Routine W) → List (Task W) → W → Option (List (Routine W) × Effect × W) → Type 0
  Follows rs fns w none = Unit {0}
  Follows rs fns w (some (rs', quiet, w')) =
      (i : ℕ) × (advance i (tasks_of rs fns) w ≡ (tasks_of rs' fns, [], w'))
  Follows rs fns w (some (rs', sends value, w')) =
      (i : ℕ) × (advance i (tasks_of rs fns) w ≡ (tasks_of rs' fns, value ∷ [], w'))
  Follows rs fns w (some (rs', done, w')) = (tasks_of rs' fns ≡ tasks_of rs fns) × (w' ≡ w)

  behind-Follows :
      (r : Routine W) (rs : List (Routine W)) (fns : List (Task W)) (w : W)
      (o : Option (List (Routine W) × Effect × W))
      → Follows rs fns w o
      → Follows (r ∷ rs) fns w (behind r o)
  unfolding tasks_of advance
  behind-Follows r rs fns w none h = tt
  behind-Follows (working t) rs fns w (some (rs', quiet, w')) (i, h) =
      (suc i, ap (λ x. (t ∷ x.0, x.1, x.2)) h)
  behind-Follows deferring rs fns w (some (rs', quiet, w')) h = h
  behind-Follows (working t) rs fns w (some (rs', sends v, w')) (i, h) =
      (suc i, ap (λ x. (t ∷ x.0, x.1, x.2)) h)
  behind-Follows deferring rs fns w (some (rs', sends v, w')) h = h
  behind-Follows (working t) rs fns w (some (rs', done, w')) h = (ap (λ x. t ∷ x) h.0, h.1)
  behind-Follows deferring rs fns w (some (rs', done, w')) h = h

  goroutine-Follows :
      (reading : Bool) (i : ℕ) (rs : List (Routine W)) (fns : List (Task W)) (w : W)
      → Follows rs fns w (goroutine reading i rs w)
  unfolding goroutine tasks_of advance
  goroutine-Follows reading i [] fns w = tt
  goroutine-Follows reading zero (working (running next put) ∷ rs) fns w = (0, refl)
  goroutine-Follows true zero (working (returned value) ∷ rs) fns w = (0, refl)
  goroutine-Follows false zero (working (returned value) ∷ rs) fns w = tt
  goroutine-Follows reading zero (deferring ∷ rs) fns w = (refl, refl)
  goroutine-Follows reading (suc i) (r ∷ rs) fns w =
      behind-Follows r rs fns w (goroutine reading i rs w) (goroutine-Follows reading i rs fns w)

  -- A move that is not blocked, as a run of the goroutines
  abbrev Simulates : Pool W → Option (Machine W) → Type 0
  Simulates p none = Unit {0}
  Simulates p (some m) = (schedule : List ℕ) × (run schedule p ≡ pool_of m)

  one_step :
      (i : ℕ) (p : Pool W) (tasks : List (Task W)) (sent : List (Option Error)) (w : W)
      → advance i p.tasks p.world ≡ (tasks, sent, w)
      → run (i ∷ []) p ≡ record { tasks = tasks; received = p.received ++ sent; world = w }
  unfolding run step
  one_step i p tasks sent w h =
      ap (λ x. record { tasks = x.0; received = p.received ++ x.1; world = x.2 }) h

  after_effect-Simulates :
      (n k : ℕ) (effect : Effect) (m : Machine W) (rs : List (Routine W)) (w : W)
      → IsSound n m
      → length m.routines ≡ suc k
      → Follows m.routines m.to_start m.world (some (rs, effect, w))
      → Simulates (pool_of m) (some (after_effect effect (record m { routines = rs; world = w })))
  unfolding after_effect run
  after_effect-Simulates n k quiet m rs w s e (i, h) = (
    i ∷ [],
    one_step i (pool_of m) (tasks_of rs m.to_start) [] w h
        ∙ ap (λ x. record { tasks = tasks_of rs m.to_start; received = x; world = w })
            (append-nil m.received),
  )
  after_effect-Simulates n k (sends value) m rs w s e (i, h) =
      rw (open_before m k s.ended e)
        (i ∷ [], one_step i (pool_of m) (tasks_of rs m.to_start) (value ∷ []) w h)
  after_effect-Simulates n k done m rs w s e (same, kept) = elim (Bool-cases (eqb m.counter 0)) [
    | inl c ↦ rw c ([], end)
    | inr c ↦ rw c ([], end)
  ]
    where
      end : pool_of m ≡ record { tasks = tasks_of rs m.to_start; received = m.received; world = w }
      end i = record { tasks = sym same i; received = m.received; world = sym kept i }

  after_go-Simulates :
      (n : ℕ) (o : Option (List (Routine W) × Effect × W)) (m : Machine W)
      → IsSound n m
      → IsSized m.routines o
      → Follows m.routines m.to_start m.world o
      → Simulates (pool_of m) (after_go o m)
  unfolding after_go
  after_go-Simulates n none m s z h = tt
  after_go-Simulates n (some (rs, effect, w)) m s z h =
      after_effect-Simulates n (length m.routines - 1) effect m rs w s z.1 h

  tasks_of-start :
      (rs : List (Routine W)) (fn : Task W) (fns : List (Task W))
      → tasks_of rs (fn ∷ fns) ≡ tasks_of (rs ++ working fn ∷ []) fns
  unfolding tasks_of
  tasks_of-start [] fn fns = refl
  tasks_of-start (working task ∷ rs) fn fns = ap (λ x. task ∷ x) (tasks_of-start rs fn fns)
  tasks_of-start (deferring ∷ rs) fn fns = tasks_of-start rs fn fns

  start-Simulates :
      (m : Machine W) (fns : List (Task W)) → m.to_start ≡ fns → Simulates (pool_of m) (start m fns)
  unfolding start run
  start-Simulates m (fn ∷ fns) e = (
    [],
    ap (λ x. record { tasks = x; received = m.received; world = m.world })
        (ap (tasks_of m.routines) e ∙ tasks_of-start m.routines fn fns),
  )
  start-Simulates m [] e = elim (Bool-cases m.waiting) [ inl c ↦ rw c tt | inr c ↦ rw c ([], refl) ]

  if-Simulates :
      (stopped : Bool) (p : Pool W) (o : Option (Machine W))
      → Simulates p o
      → Simulates p (if stopped then none else o)
  if-Simulates true p o h = tt
  if-Simulates false p o h = h

  move-Simulates :
      (n : ℕ) (x : Move) (m : Machine W) → IsSound n m → Simulates (pool_of m) (move x m)
  unfolding move run
  move-Simulates n start_next m s =
      if-Simulates m.panicked (pool_of m) (start m m.to_start) (start-Simulates m m.to_start refl)
  move-Simulates n (go_on i) m s =
      if-Simulates m.panicked (pool_of m) (after_go (goroutine m.waiting i m.routines m.world) m) (
        after_go-Simulates n (goroutine m.waiting i m.routines m.world) m s
          (goroutine-IsSized m.waiting i m.routines m.world)
          (goroutine-Follows m.waiting i m.routines m.to_start m.world))
  move-Simulates n close_channel m s =
      elim (Bool-cases (not m.panicked && m.waiting && eqb m.counter 0 && not m.closed)) [
        | inl c ↦ rw c ([], refl)
        | inr c ↦ rw c tt
      ]

  extend :
      (p : Pool W) (first : List ℕ) (m : Machine W) (o : Option (Machine W))
      → run first p ≡ pool_of m
      → Simulates (pool_of m) o
      → Simulates p o
  extend p first m none h k = tt
  extend p first m (some m') h (rest, k) =
      (first ++ rest, run-append first rest p ∙ ap (run rest) h ∙ k)

  moves-Simulates :
      (n : ℕ) (list : List Move) (p : Pool W) (o : Option (Machine W))
      → AllSound n o
      → Simulates p o
      → Simulates p (moves list o)
  unfolding moves
  moves-Simulates n [] p none s h = tt
  moves-Simulates n (x ∷ list) p none s h = tt
  moves-Simulates n [] p (some m) s h = h
  moves-Simulates n (x ∷ list) p (some m) s (first, h) =
      moves-Simulates n list p (move x m) (move-IsSound n x m s)
        (extend p first m (move x m) h (move-Simulates n x m s))

  -- A run with the wait group and the channel is a run of the goroutines alone: some order of their moves
  -- leads to the same values received, the same functions that have not sent theirs, and the same shared
  -- state.
  pub moves-run :
      (list : List Move) (fn_list : List (Task W)) (w : W) (m : Machine W)
      → moves list (some (begin fn_list w)) ≡ some m
      → (schedule : List ℕ) × (run schedule (run_concurrently fn_list w) ≡ pool_of m)
  unfolding tasks_of run
  moves-run list fn_list w m h = subst (Simulates (run_concurrently fn_list w)) h (
      moves-Simulates (length fn_list) list (run_concurrently fn_list w) (some (begin fn_list w))
        (begin-IsSound fn_list w) ([], refl))
