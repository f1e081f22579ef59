-- ===== src/Utils/Concurrent/Channel/Stuck.antt =====
-- `RunConcurrently` does not block for ever and does not panic.
use ceph_csi_operator.Utils.Concurrent.{Task, returned, running}
use ceph_csi_operator.Utils.Concurrent.Channel.{
  Routine, working, deferring, Machine, Move, start_next, go_on, close_channel, Effect, begin,
  start, goroutine, after_go, move, moves,
}
use ceph_csi_operator.Utils.Concurrent.Channel.Sound.{
  unsent, IsSound, AllSound, moves-IsSound, begin-IsSound,
}
use mathlib.Core.Path.{subst}
use ceph_csi_operator.Prelude.{
  true, false, Option, none, some, List, [], ◌∷◌, ℕ, ◌≡◌, length, arith, refl, ap, sym, ◌∙◌,
}

module _ {W : Type 0} where
  start-none :
      (m : Machine W) (fns : List (Task W)) → start m fns ≡ none → (fns ≡ []) × (m.waiting ≡ true)
  unfolding start
  start-none m [] h = (refl, ground (arith, h))
  start-none m (fn ∷ fns) h = ground (arith, h)

  goroutine-none : (rs : List (Routine W)) (w : W) → goroutine true 0 rs w ≡ none → rs ≡ []
  unfolding goroutine
  goroutine-none [] w h = refl
  goroutine-none (working (running next put) ∷ rs) w h = ground (arith, h)
  goroutine-none (working (returned value) ∷ rs) w h = ground (arith, h)
  goroutine-none (deferring ∷ rs) w h = ground (arith, h)

  after_go-none :
      (o : Option (List (Routine W) × Effect × W)) (m : Machine W) → after_go o m ≡ none → o ≡ none
  unfolding after_go
  after_go-none none m h = refl
  after_go-none (some (rs, effect, w)) m h = ground (arith, h)

  -- A machine in which nothing can go on has ended.
  blocked :
      (n : ℕ) (m : Machine W)
      → IsSound n m
      → ((x : Move) → move x m ≡ none)
      → (m.closed ≡ true) × (length m.received ≡ n)
  unfolding move unsent
  blocked n m s stuck =
      let (all_started, waiting) =
        start-none m m.to_start (ground (arith, stuck start_next, s.calm)) in
      let ended = goroutine-none m.routines m.world (
        ap (λ reading. goroutine reading 0 m.routines m.world) (sym waiting)
        ∙ after_go-none (goroutine m.waiting 0 m.routines m.world) m
            (ground (arith, stuck (go_on 0), s.calm))) in
      let counter = s.counted ∙ ap length ended in
      (
        ground (arith, stuck close_channel, s.calm, waiting, counter),
        omega (arith, s.kept, ap length all_started, ap unsent ended),
      )

  -- Whatever order the goroutines went on in: where none of them, nor the caller, nor the goroutine that
  -- closes the channel can go on, the channel is closed, nothing has panicked, and one value was received
  -- for each function.
  pub blocked-ended :
      (list : List Move) (fn_list : List (Task W)) (w : W) (m : Machine W)
      → moves list (some (begin fn_list w)) ≡ some m
      → ((x : Move) → move x m ≡ none)
      → (m.closed ≡ true) × (m.panicked ≡ false) × (length m.received ≡ length fn_list)
  blocked-ended list fn_list w m h stuck =
      let s =
        subst (AllSound (length fn_list)) h (
          moves-IsSound (length fn_list) list (some (begin fn_list w)) (begin-IsSound fn_list w)) in
      let (closed, all) = blocked (length fn_list) m s stuck in (closed, s.calm, all)
