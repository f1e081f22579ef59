-- ===== src/Utils/Concurrent.antt =====
-- internal/utils/core.go: `RunConcurrently` and `ChannelToSlice`. The functions run in goroutines, whose
-- steps may interleave in any order: an explicit schedule says which goroutine goes on next.
pub mod Laws
pub mod Errors
pub mod Channel
use ceph_csi_operator.Prelude.{zero, suc}
use ceph_csi_operator.Prelude.Result.{Error}
use ceph_csi_operator.Prelude.{Option, List, ℕ, ◌++◌, ◌∷◌, [], none, suc, some, deref}

-- A goroutine: its function has returned, or it goes on with a step on what all share, `W`.
pub data Task (W : Type 0) : Type 0 where
  returned : Option Error → Task W
  running : (W → Task W) → (W → W) → Task W

-- The goroutines that have not sent their value yet, the values that were received from the channel, in
-- their order, and what all share.
pub record Pool (W : Type 0) : Type 0 where
  pub tasks : List (Task W)
  pub received : List (Option Error)
  pub world : W

module _ {W : Type 0} where
  -- `RunConcurrently`: all functions are started and nothing is received.
  abbrev pub run_concurrently : List (Task W) → W → Pool W
  run_concurrently fn_list w = record { tasks = fn_list; received = []; world = w }

  -- One step of the goroutine at a position, where there is one: a function that has returned sends its
  -- value and is done.
  unfoldable pub advance : ℕ → List (Task W) → W → List (Task W) × List (Option Error) × W
  advance i [] w = ([], [], w)
  advance zero (returned value ∷ tasks) w = (tasks, value ∷ [], w)
  advance zero (running next put ∷ tasks) w = (next w ∷ tasks, [], put w)
  advance (suc i) (task ∷ tasks) w =
      let (rest, sent, w') = advance i tasks w in (task ∷ rest, sent, w')

  unfoldable pub step : ℕ → Pool W → Pool W
  unfolding advance
  step i p =
      let (tasks, sent, w) = advance i p.tasks p.world in
      record { tasks = tasks; received = p.received ++ sent; world = w }

  unfoldable pub run : List ℕ → Pool W → Pool W
  run [] p = p
  run (i ∷ schedule) p = run schedule (step i p)

-- `ChannelToSlice` and `errors.Join`: the errors that are not nil; nil where there is none.
unfoldable pub join_errors : List (Option Error) → Option (List Error)
join_errors [] = none
join_errors (none ∷ values) = join_errors values
join_errors (some e ∷ values) = let rest = join_errors values in some (e ∷ deref rest [])
