-- ===== src/Utils/Concurrent/Channel.antt =====
-- internal/utils/core.go: `RunConcurrently` and `ChannelToSlice` with their wait group and their channel,
-- move by move: what blocks, what counts, and what would panic.
pub mod Sound
pub mod Stuck
pub mod Refines
pub mod Tame
pub mod Ends
use ceph_csi_operator.Utils.Concurrent.{Task, returned, running}
use ceph_csi_operator.Prelude.Result.{Error}
use ceph_csi_operator.Prelude.{
  Bool, true, false, Option, none, some, List, [], ◌∷◌, ◌++◌, ℕ, zero, suc, ◌+◌, ◌-◌, eqb, ◌&&◌,
  not, if◌then◌else◌,
}

-- A goroutine: in its function or blocked in the send of its value, or with its deferred `wg.Done` left.
pub data Routine (W : Type 0) : Type 0 where
  working : Task W → Routine W
  deferring : Routine W

-- The functions that the loop has not started yet; the goroutines that have not ended; the counter of the
-- wait group; whether the loop is behind, so that the closing goroutine waits and the channel is read;
-- the channel; and what all share.
pub record Machine (W : Type 0) : Type 0 where
  pub to_start : List (Task W)
  pub routines : List (Routine W)
  pub counter : ℕ
  pub waiting : Bool
  pub closed : Bool
  pub panicked : Bool
  pub received : List (Option Error)
  pub world : W

-- Who goes on: the caller, a goroutine, or the goroutine that closes the channel
pub data Move : Type 0 where
  start_next : Move
  go_on : ℕ → Move
  close_channel : Move

-- What the move of a goroutine does outside it
pub data Effect : Type 0 where
  quiet : Effect
  sends : Option Error → Effect
  done : Effect

module _ {W : Type 0} where
  abbrev pub begin : List (Task W) → W → Machine W
  begin fn_list w = record {
    to_start = fn_list;
    routines = [];
    counter = 0;
    waiting = false;
    closed = false;
    panicked = false;
    received = [];
    world = w;
  }

  -- `wg.Add(1)` and the start of a goroutine; behind the last one, the start of the closing goroutine,
  -- whereupon the caller reads the channel until it is closed.
  unfoldable pub start : Machine W → List (Task W) → Option (Machine W)
  start m (fn ∷ fns) = some (record m {
    to_start = fns;
    routines = m.routines ++ working fn ∷ [];
    counter = m.counter + 1;
  })
  start m [] = if m.waiting then none else some (record m { waiting = true })

  abbrev pub behind :
      Routine W → Option (List (Routine W) × Effect × W) → Option (List (Routine W) × Effect × W)
  behind r (some (rs, effect, w)) = some (r ∷ rs, effect, w)
  behind r none = none

  -- The move of the goroutine at a position. The channel has no buffer: a send waits for the reader.
  unfoldable pub goroutine :
      Bool → ℕ → List (Routine W) → W → Option (List (Routine W) × Effect × W)
  goroutine reading i [] w = none
  goroutine reading zero (working (running next put) ∷ rs) w =
      some (working (next w) ∷ rs, quiet, put w)
  goroutine reading zero (working (returned value) ∷ rs) w =
      if reading then some (deferring ∷ rs, sends value, w) else none
  goroutine reading zero (deferring ∷ rs) w = some (rs, done, w)
  goroutine reading (suc i) (r ∷ rs) w = behind r (goroutine reading i rs w)

  -- A send on a closed channel panics, and so does a counter below zero.
  unfoldable pub after_effect : Effect → Machine W → Machine W
  after_effect quiet m = m
  after_effect (sends value) m =
      if m.closed
      then record m { panicked = true }
      else record m { received = m.received ++ value ∷ [] }
  after_effect done m =
      if eqb m.counter 0 then record m { panicked = true } else record m { counter = m.counter - 1 }

  unfoldable pub after_go : Option (List (Routine W) × Effect × W) → Machine W → Option (Machine W)
  unfolding after_effect
  after_go none m = none
  after_go (some (rs, effect, w)) m =
      some (after_effect effect (record m { routines = rs; world = w }))

  -- One move, where it is not blocked
  unfoldable pub move : Move → Machine W → Option (Machine W)
  unfolding start goroutine after_go
  move start_next m = if m.panicked then none else start m m.to_start
  move (go_on i) m =
      if m.panicked then none else after_go (goroutine m.waiting i m.routines m.world) m
  move close_channel m =
      if not m.panicked && m.waiting && eqb m.counter 0 && not m.closed
      then some (record m { closed = true })
      else none

  unfoldable pub moves : List Move → Option (Machine W) → Option (Machine W)
  unfolding move
  moves list none = none
  moves [] (some m) = some m
  moves (x ∷ list) (some m) = moves list (move x m)
