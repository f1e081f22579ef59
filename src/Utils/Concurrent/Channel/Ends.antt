-- ===== src/Utils/Concurrent/Channel/Ends.antt =====
-- `RunConcurrently`: no run goes on for ever.
use ceph_csi_operator.Utils.Concurrent.{Task}
use ceph_csi_operator.Utils.Concurrent.Channel.{Machine, Move, Effect, goroutine, move}
use ceph_csi_operator.Prelude.{Bool, true, false, some, ◌∷◌, ℕ, suc, ◌+◌, ◌≡◌, ◌⊎◌}
use ceph_csi_operator.Utils.Concurrent.Channel.Tame.{Tame}

-- A machine that can go on only finitely often, whoever goes on
pub data Ends (W : Type 0) : Machine W → Type 0 where
  ends : (m : Machine W) → ((x : Move) (m' : Machine W) → move x m ≡ some m' → Ends W m') → Ends W m

flag : Bool → ℕ
flag true = 0
flag false = 1

module _ {W : Type 0} where
  -- How many of the two events are to come: the loop ends, and the channel is closed.
  left : Machine W → ℕ
  left m = flag m.waiting + flag m.closed

  -- What a move brings nearer: the end of the loop's list, one of the two events, or the end of a goroutine
  abbrev Nearer : Machine W → Machine W → Type 0
  Nearer m m' =
      ((fn : Task W) × (m.to_start ≡ fn ∷ m'.to_start))
      ⊎ ((m'.to_start ≡ m.to_start) × (left m ≡ suc (left m')))
      ⊎ ((m'.to_start ≡ m.to_start)
          × (left m' ≡ left m)
          × (reading : Bool) × (i : ℕ) × (w : W) × (w' : W) × (effect : Effect) × (goroutine reading
                i m.routines w
              ≡ some (m'.routines, effect, w')))
