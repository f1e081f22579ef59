-- ===== src/Utils/Concurrent/Laws.antt =====
-- What holds of every order in which the goroutines go on.
use ceph_csi_operator.Prelude.{zero, suc, ap}
use ceph_csi_operator.Prelude.{
  List, Option, ℕ, ◌≡◌, length, ◌++◌, All, ◌∷◌, none, [], ◌+◌, arith, refl, ◌∙◌, All-append, some,
  length-append, suc,
}
use ceph_csi_operator.Prelude.Result.{Error}
use ceph_csi_operator.Utils.Concurrent.{
  advance, Pool, Task, join_errors, run, step, returned, run_concurrently, running,
}

join_errors-All :
    (values : List (Option Error)) → All (λ v. v ≡ none) values → join_errors values ≡ none
unfolding join_errors
join_errors-All [] h = refl
join_errors-All (none ∷ values) h = join_errors-All values h.1
join_errors-All (some e ∷ values) h = ground (arith, h.0)

module _ {W : Type 0} where
  advance-count :
      (i : ℕ) (tasks : List (Task W)) (w : W)
      → length (advance i tasks w).0 + length (advance i tasks w).1 ≡ length tasks
  unfolding advance
  advance-count i [] w = refl
  advance-count zero (returned value ∷ tasks) w = omega arith
  advance-count zero (running next put ∷ tasks) w = omega arith
  advance-count (suc i) (task ∷ tasks) w = omega (arith, advance-count i tasks w)

  -- No value is lost and none is sent twice: in every order, there are as many goroutines and received
  -- values together as there were functions.
  pub run-count :
      (schedule : List ℕ) (p : Pool W)
      → length (run schedule p).tasks + length (run schedule p).received
        ≡ length p.tasks + length p.received
  unfolding run step
  run-count [] p = refl
  run-count (i ∷ schedule) p =
      run-count schedule (step i p)
      ∙ omega (
        arith,
        advance-count i p.tasks p.world,
        length-append p.received (advance i p.tasks p.world).1,
      )

  pub run-append : (xs ys : List ℕ) (p : Pool W) → run (xs ++ ys) p ≡ run ys (run xs p)
  unfolding run
  run-append [] ys p = refl
  run-append (x ∷ xs) ys p = run-append xs ys (step x p)

  -- The first goroutine can go on until it has sent its value.
  finish_first :
      (task : Task W) (tasks : List (Task W)) (values : List (Option Error)) (w : W)
      → (schedule : List ℕ) × ((run schedule
            (record { tasks = task ∷ tasks; received = values; world = w })).tasks
          ≡ tasks)
  unfolding run step advance
  finish_first (returned value) tasks values w = (0 ∷ [], refl)
  finish_first (running next put) tasks values w =
      let (schedule, e) = finish_first (next w) tasks (values ++ []) (put w) in (0 ∷ schedule, e)

  closes :
      (tasks : List (Task W)) (values : List (Option Error)) (w : W)
      → (schedule : List ℕ) × ((run schedule
            (record { tasks = tasks; received = values; world = w })).tasks
          ≡ [])
  unfolding run
  closes [] values w = ([], refl)
  closes (task ∷ tasks) values w =
      let (now, e) = finish_first task tasks values w in
      let p : Pool W = run now (record { tasks = task ∷ tasks; received = values; world = w }) in
      let (later, e') = closes tasks p.received p.world in
      (
        now ++ later,
        ap (λ q. q.tasks)
              (run-append now later (record { tasks = task ∷ tasks; received = values; world = w }))
            ∙ (λ i.
                (run later (record { tasks = e i; received = p.received; world = p.world })).tasks)
            ∙ e',
      )

  -- From every point, some order lets all goroutines send their value, whereupon the channel is closed.
  pub run-closes : (p : Pool W) → (schedule : List ℕ) × ((run schedule p).tasks ≡ [])
  run-closes p = closes p.tasks p.received p.world

  -- A function that returns nil whatever the others do
  unfoldable pub Succeeds : Task W → Type 0
  Succeeds (returned value) = value ≡ none
  Succeeds (running next put) = (w : W) → Succeeds (next w)

  advance-All :
      (i : ℕ) (tasks : List (Task W)) (w : W)
      → All Succeeds tasks
      → All Succeeds (advance i tasks w).0 × All (λ v. v ≡ none) (advance i tasks w).1
  unfolding advance Succeeds
  advance-All i [] w h = (tt, tt)
  advance-All zero (returned value ∷ tasks) w h = (h.1, (h.0, tt))
  advance-All zero (running next put ∷ tasks) w h = ((h.0 w, h.1), tt)
  advance-All (suc i) (task ∷ tasks) w h =
      let (rest, sent) = advance-All i tasks w h.1 in ((h.0, rest), sent)

  run-All :
      (schedule : List ℕ) (p : Pool W)
      → All Succeeds p.tasks
      → All (λ v. v ≡ none) p.received
      → All (λ v. v ≡ none) (run schedule p).received
  unfolding run step
  run-All [] p h k = k
  run-All (i ∷ schedule) p h k =
      let (rest, sent) = advance-All i p.tasks p.world h in
      run-All schedule (step i p) rest
        (All-append (λ v. v ≡ none) p.received (advance i p.tasks p.world).1 k sent)

  -- Where every function returns nil whatever the others do, the joined error is nil in every order.
  pub run-join_errors :
      (schedule : List ℕ) (fn_list : List (Task W)) (w : W)
      → All Succeeds fn_list
      → join_errors (run schedule (run_concurrently fn_list w)).received ≡ none
  run-join_errors schedule fn_list w h =
      join_errors-All (run schedule (run_concurrently fn_list w)).received
        (run-All schedule (run_concurrently fn_list w) h tt)
