-- ===== src/Utils/Concurrent/Channel/Sound.antt =====
-- `RunConcurrently`: what holds at every point of every run.
use ceph_csi_operator.Utils.Concurrent.{Task, returned, running}
use ceph_csi_operator.Utils.Concurrent.Channel.{
  Routine, working, deferring, Machine, Move, start_next, go_on, close_channel, Effect, quiet,
  sends, done, begin, start, goroutine, behind, after_effect, after_go, move, moves,
}
use ceph_csi_operator.Prelude.{
  Bool, true, false, Option, none, some, List, [], ◌∷◌, ◌++◌, ℕ, zero, suc, ◌+◌, ◌-◌, ◌≡◌, ◌⊎◌, inl,
  inr, length, arith, refl, length-append, ap, ◌∙◌, not, ◌&&◌, if◌then◌else◌, Bool-cases, eqb,
}

module _ {W : Type 0} where
  -- The goroutines that have not sent their value
  unfoldable pub unsent : List (Routine W) → ℕ
  unsent [] = 0
  unsent (working task ∷ rs) = suc (unsent rs)
  unsent (deferring ∷ rs) = unsent rs

  -- How an effect changes the numbers of the goroutines that have not ended, and have not sent
  abbrev pub Sized : Effect → List (Routine W) → List (Routine W) → Type 0
  Sized quiet rs rs' = (length rs' ≡ length rs) × (unsent rs' ≡ unsent rs)
  Sized (sends value) rs rs' = (length rs' ≡ length rs) × (suc (unsent rs') ≡ unsent rs)
  Sized done rs rs' = (suc (length rs') ≡ length rs) × (unsent rs' ≡ unsent rs)

  Sized-cons :
      (effect : Effect) (r : Routine W) (rs rs' : List (Routine W))
      → Sized effect rs rs'
      → Sized effect (r ∷ rs) (r ∷ rs')
  unfolding unsent
  Sized-cons quiet (working t) rs rs' h = (omega (arith, h.0), omega (arith, h.1))
  Sized-cons quiet deferring rs rs' h = (omega (arith, h.0), omega (arith, h.1))
  Sized-cons (sends v) (working t) rs rs' h = (omega (arith, h.0), omega (arith, h.1))
  Sized-cons (sends v) deferring rs rs' h = (omega (arith, h.0), omega (arith, h.1))
  Sized-cons done (working t) rs rs' h = (omega (arith, h.0), omega (arith, h.1))
  Sized-cons done deferring rs rs' h = (omega (arith, h.0), omega (arith, h.1))

  -- Of a move that is not blocked
  abbrev pub IsSized : List (Routine W) → Option (List (Routine W) × Effect × W) → Type 0
  IsSized rs none = Unit {0}
  IsSized rs (some (rs', effect, w)) = Sized effect rs rs' × (length rs ≡ suc (length rs - 1))

  behind-IsSized :
      (r : Routine W) (rs : List (Routine W)) (o : Option (List (Routine W) × Effect × W))
      → IsSized rs o
      → IsSized (r ∷ rs) (behind r o)
  behind-IsSized r rs none h = tt
  behind-IsSized r rs (some (rs', effect, w)) h = (Sized-cons effect r rs rs' h.0, omega arith)

  pub goroutine-IsSized :
      (reading : Bool) (i : ℕ) (rs : List (Routine W)) (w : W)
      → IsSized rs (goroutine reading i rs w)
  unfolding goroutine unsent
  goroutine-IsSized reading i [] w = tt
  goroutine-IsSized reading zero (working (running next put) ∷ rs) w = ((refl, refl), omega arith)
  goroutine-IsSized true zero (working (returned value) ∷ rs) w = ((refl, refl), omega arith)
  goroutine-IsSized false zero (working (returned value) ∷ rs) w = tt
  goroutine-IsSized reading zero (deferring ∷ rs) w = ((refl, refl), omega arith)
  goroutine-IsSized reading (suc i) (r ∷ rs) w =
      behind-IsSized r rs (goroutine reading i rs w) (goroutine-IsSized reading i rs w)

  -- What holds at every point of a run over `n` functions
  pub record IsSound (n : ℕ) (m : Machine W) : Type 0 where
    pub calm : m.panicked ≡ false
    pub counted : m.counter ≡ length m.routines
    pub kept : length m.received + (unsent m.routines + length m.to_start) ≡ n
    pub started : (m.waiting ≡ false) ⊎ (m.to_start ≡ [])
    pub ended : (m.closed ≡ false) ⊎ ((m.waiting ≡ true) × (length m.routines ≡ 0))

  abbrev pub AllSound : ℕ → Option (Machine W) → Type 0
  AllSound n none = Unit {0}
  AllSound n (some m) = IsSound n m

  pub open_before :
      (m : Machine W) (k : ℕ)
      → (m.closed ≡ false) ⊎ ((m.waiting ≡ true) × (length m.routines ≡ 0))
      → length m.routines ≡ suc k
      → m.closed ≡ false
  open_before m k (inl e) h = e
  open_before m k (inr e) h = ground (arith, e.1, h)

  after_effect-IsSound :
      (n k : ℕ) (effect : Effect) (m : Machine W) (rs : List (Routine W)) (w : W)
      → IsSound n m
      → Sized effect m.routines rs
      → length m.routines ≡ suc k
      → IsSound n (after_effect effect (record m { routines = rs; world = w }))
  unfolding after_effect
  after_effect-IsSound n k quiet m rs w s h e = record {
    calm = s.calm;
    counted = omega (arith, s.counted, h.0);
    kept = omega (arith, s.kept, h.1);
    started = s.started;
    ended = inl (open_before m k s.ended e);
  }
  after_effect-IsSound n k (sends value) m rs w s h e = rw (open_before m k s.ended e) (record {
    calm = s.calm;
    counted = omega (arith, s.counted, h.0);
    kept = omega (arith, s.kept, h.1, length-append m.received (value ∷ []));
    started = s.started;
    ended = inl refl;
  })
  after_effect-IsSound n k done m rs w s h e = rw (positive (s.counted ∙ e)) (record {
    calm = s.calm;
    counted = omega (arith, s.counted, h.0);
    kept = omega (arith, s.kept, h.1);
    started = s.started;
    ended = inl (open_before m k s.ended e);
  })
    where
      positive : m.counter ≡ suc k → eqb m.counter 0 ≡ false
      positive c = ground (arith, c)

  after_go-IsSound :
      (n : ℕ) (o : Option (List (Routine W) × Effect × W)) (m : Machine W)
      → IsSound n m
      → IsSized m.routines o
      → AllSound n (after_go o m)
  unfolding after_go
  after_go-IsSound n none m s h = tt
  after_go-IsSound n (some (rs, effect, w)) m s h =
      after_effect-IsSound n (length m.routines - 1) effect m rs w s h.0 h.1

  unsent-start :
      (rs : List (Routine W)) (fn : Task W) → unsent (rs ++ working fn ∷ []) ≡ suc (unsent rs)
  unfolding unsent
  unsent-start [] fn = refl
  unsent-start (working task ∷ rs) fn = ap suc (unsent-start rs fn)
  unsent-start (deferring ∷ rs) fn = unsent-start rs fn

  start-IsSound :
      (n : ℕ) (m : Machine W) (fns : List (Task W))
      → m.to_start ≡ fns
      → IsSound n m
      → AllSound n (start m fns)
  unfolding start unsent
  start-IsSound n m (fn ∷ fns) e s = record {
    calm = s.calm;
    counted = omega (arith, s.counted, length-append m.routines (working fn ∷ []));
    kept = omega (arith, s.kept, ap length e, unsent-start m.routines fn);
    started = inl (still s.started);
    ended = inl (unclosed s.ended);
  }
    where
      still : (m.waiting ≡ false) ⊎ (m.to_start ≡ []) → m.waiting ≡ false
      still (inl h) = h
      still (inr h) = ground (arith, h, e)

      unclosed :
          (m.closed ≡ false) ⊎ ((m.waiting ≡ true) × (length m.routines ≡ 0)) → m.closed ≡ false
      unclosed (inl h) = h
      unclosed (inr h) = ground (arith, h.0, still s.started)
  start-IsSound n m [] e s = elim (Bool-cases m.waiting) [
    | inl w ↦ rw w tt
    | inr w ↦ rw w (record {
      calm = s.calm;
      counted = s.counted;
      kept = s.kept;
      started = inr e;
      ended = elim s.ended [ inl h ↦ inl h | inr h ↦ ground (arith, h.0, w) ];
    })
  ]

  close-IsSound : (n : ℕ) (m : Machine W) → IsSound n m → AllSound n (move close_channel m)
  unfolding move
  close-IsSound n m s =
      elim (Bool-cases (not m.panicked && m.waiting && eqb m.counter 0 && not m.closed)) [
        | inl h ↦ rw h (record {
          calm = s.calm;
          counted = s.counted;
          kept = s.kept;
          started = s.started;
          ended = inr (ground (arith, h), ground (arith, h, s.counted));
        })
        | inr h ↦ rw h tt
      ]

  if-AllSound :
      (n : ℕ) (stopped : Bool) (o : Option (Machine W))
      → AllSound n o
      → AllSound n (if stopped then none else o)
  if-AllSound n true o h = tt
  if-AllSound n false o h = h

  pub move-IsSound : (n : ℕ) (x : Move) (m : Machine W) → IsSound n m → AllSound n (move x m)
  unfolding move
  move-IsSound n start_next m s =
      if-AllSound n m.panicked (start m m.to_start) (start-IsSound n m m.to_start refl s)
  move-IsSound n (go_on i) m s =
      if-AllSound n m.panicked (after_go (goroutine m.waiting i m.routines m.world) m) (
        after_go-IsSound n (goroutine m.waiting i m.routines m.world) m s
          (goroutine-IsSized m.waiting i m.routines m.world))
  move-IsSound n close_channel m s = close-IsSound n m s

  pub moves-IsSound :
      (n : ℕ) (list : List Move) (o : Option (Machine W)) → AllSound n o → AllSound n (moves list o)
  unfolding moves
  moves-IsSound n [] none s = tt
  moves-IsSound n (x ∷ list) none s = tt
  moves-IsSound n [] (some m) s = s
  moves-IsSound n (x ∷ list) (some m) s = moves-IsSound n list (move x m) (move-IsSound n x m s)

  pub begin-IsSound : (fn_list : List (Task W)) (w : W) → IsSound (length fn_list) (begin fn_list w)
  unfolding unsent
  begin-IsSound fn_list w = record {
    calm = refl;
    counted = refl;
    kept = omega arith;
    started = inl refl;
    ended = inl refl;
  }
