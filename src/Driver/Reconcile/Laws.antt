-- ===== src/Driver/Reconcile/Laws.antt =====
-- internal/controller/driver_controller.go: how the concurrent steps of an iteration end.
use ceph_csi_operator.Driver.Reconcile.{
  Action, task_of, outcome, value_of, joined, run_reconcilers, reconcile, after_load, reconcilers,
  reconcile_request, receiver,
}
use ceph_csi_operator.Utils.Concurrent.{Pool, join_errors, Task, run_concurrently, run}
use ceph_csi_operator.Prelude.Result.{Result, panic, ok, Error, err}
use ceph_csi_operator.Utils.Concurrent.Errors.{Keeps, Fails, run-Fails, run-Keeps}
use ceph_csi_operator.Utils.Concurrent.Laws.{Succeeds, run-join_errors, run-closes}
use ceph_csi_operator.Api.Driver.{Foreign}
use ceph_csi_operator.Driver.State.{Env, State}
use ceph_csi_operator.Driver.Load.{load_and_validate_desired_state}
use ceph_csi_operator.Api.Meta.{ObjectKey}
use ceph_csi_operator.Prelude.{
  Bool, List, Option, ℕ, true, false, ◌≡◌, All, Any, ◌∷◌, none, some, [], arith, refl, inl, inr,
  is_some, map, sym, ◌∙◌, ap, if◌then◌else◌, deref,
}

abbrev pub is_ok : Result (Unit {0}) → Bool
is_ok (ok u) = true
is_ok _ = false

-- A step that returns an error, or nil, whatever the cluster is
abbrev pub AlwaysFails : {W : Type 0} → Action W → Type 0
AlwaysFails {W} f = (w : W) → is_some (value_of (f w).0) ≡ true

abbrev pub AlwaysSucceeds : {W : Type 0} → Action W → Type 0
AlwaysSucceeds {W} f = (w : W) → (f w).0 ≡ ok tt

module _ {W : Type 0} where
  abbrev end_of : Pool (W × Bool) → Result (Unit {0})
  end_of p = if p.world.1 then panic else joined (join_errors p.received)

  end_at :
      (tasks : List (Task (W × Bool))) (x y : Result (Unit {0}) × W)
      → elim tasks [ [] ↦ some x | ◌∷◌ task rest ↦ none ] ≡ some y
      → (tasks ≡ []) × (x.0 ≡ y.0)
  end_at [] x y h = (refl, ap (λ o. (deref o y).0) h)
  end_at (task ∷ tasks) x y h = ground (arith, h)

  outcome-eq-some :
      (p : Pool (W × Bool)) (r : Result (Unit {0})) (w : W)
      → outcome p ≡ some (r, w)
      → (p.tasks ≡ []) × (end_of p ≡ r)
  unfolding outcome
  outcome-eq-some p r w h = end_at p.tasks (end_of p, p.world.0) (r, w) h

  tasks-Fails : (fs : List (Action W)) → Any AlwaysFails fs → Any Fails (map task_of fs)
  unfolding task_of Fails
  tasks-Fails [] at = elim at [ ]
  tasks-Fails (f ∷ fs) (inl h) = inl (λ shared. h shared.0)
  tasks-Fails (f ∷ fs) (inr at) = inr (tasks-Fails fs at)

  tasks-Succeeds : (fs : List (Action W)) → All AlwaysSucceeds fs → All Succeeds (map task_of fs)
  unfolding task_of Succeeds
  tasks-Succeeds [] h = tt
  tasks-Succeeds (f ∷ fs) h = (λ shared. ap value_of (h.0 shared.0), tasks-Succeeds fs h.1)

  -- No goroutine has panicked.
  IsCalm : W × Bool → Type 0
  IsCalm shared = shared.1 ≡ false

  tasks-Keeps : (fs : List (Action W)) → All AlwaysSucceeds fs → All (Keeps IsCalm) (map task_of fs)
  unfolding task_of Keeps IsCalm
  tasks-Keeps [] h = tt
  tasks-Keeps (f ∷ fs) h = (λ shared calm. (rw (calm, h.0 shared.0) refl, tt), tasks-Keeps fs h.1)

joined-false :
    (errors : Option (List Error)) → is_some errors ≡ true → is_ok (joined errors) ≡ false
unfolding joined
joined-false none h = ground (arith, h)
joined-false (some errors) h = refl

end-false :
    (panicked : Bool) (r : Result (Unit {0}))
    → is_ok r ≡ false
    → is_ok (if panicked then panic else r) ≡ false
end-false true r h = refl
end-false false r h = h

end-ok :
    (panicked : Bool) (errors : Option (List Error))
    → panicked ≡ false
    → errors ≡ none
    → (if panicked then panic else joined errors) ≡ ok tt
unfolding joined
end-ok panicked errors calm h = rw (calm, h) refl

module _ {W : Type 0} {F : Foreign} (env : Env W F) (schedule : List ℕ) (s loaded : State W F) where
  abbrev pub IsLoaded : Type 0
  IsLoaded = load_and_validate_desired_state env s ≡ (ok tt, loaded)

  reconcile-loaded :
      (r : Result (Unit {0})) (w : W)
      → IsLoaded
      → reconcile env schedule s ≡ some (r, w)
      → ((run_reconcilers env schedule loaded).tasks ≡ [])
        × (end_of (run_reconcilers env schedule loaded) ≡ r)
  unfolding reconcile after_load
  reconcile-loaded r w load h =
      outcome-eq-some (run_reconcilers env schedule loaded) r w
        (sym (ap (λ x. after_load env schedule x.0 x.1) load) ∙ h)

  -- Behind a load that succeeds, an iteration in which one step fails whatever the cluster is does not
  -- return nil, in whatever order the goroutines go on.
  pub reconcile_fails :
      (r : Result (Unit {0})) (w : W)
      → IsLoaded
      → Any AlwaysFails (reconcilers env loaded)
      → reconcile env schedule s ≡ some (r, w)
      → is_ok r ≡ false
  unfolding run_reconcilers
  reconcile_fails r w load at h =
      let (closed, e) = reconcile-loaded r w load h in
      let p = run_reconcilers env schedule loaded in
      let lost = joined-false (join_errors p.received) (
        run-Fails schedule (map task_of (reconcilers env loaded)) (loaded.world, false)
          (tasks-Fails (reconcilers env loaded) at) closed) in
      ap is_ok (sym e) ∙ end-false p.world.1 (joined (join_errors p.received)) lost

  -- Behind a load that succeeds, an iteration whose steps return nil whatever the cluster is returns nil,
  -- in whatever order the goroutines go on.
  pub reconcile_succeeds :
      (r : Result (Unit {0})) (w : W)
      → IsLoaded
      → All AlwaysSucceeds (reconcilers env loaded)
      → reconcile env schedule s ≡ some (r, w)
      → r ≡ ok tt
  unfolding run_reconcilers IsCalm joined
  reconcile_succeeds r w load all h =
      let (closed, e) = reconcile-loaded r w load h in
      let fs = map task_of (reconcilers env loaded) in
      let calm =
        run-Keeps IsCalm schedule (run_concurrently fs (loaded.world, false))
          (tasks-Keeps (reconcilers env loaded) all) refl in
      let none_joined =
        run-join_errors schedule fs (loaded.world, false)
          (tasks-Succeeds (reconcilers env loaded) all) in
      sym e
      ∙ end-ok (run schedule (run_concurrently fs (loaded.world, false))).world.1
          (join_errors (run schedule (run_concurrently fs (loaded.world, false))).received) calm
          none_joined

module _ {W : Type 0} {F : Foreign} (env : Env W F) where
  outcome-closed : {W : Type 0} (p : Pool (W × Bool)) → p.tasks ≡ [] → is_some (outcome p) ≡ true
  unfolding outcome
  outcome-closed p closed = rw closed refl

  after_load-returns :
      (r : Result (Unit {0})) (s : State W F)
      → (schedule : List ℕ) × (is_some (after_load env schedule r s) ≡ true)
  unfolding after_load run_reconcilers
  after_load-returns (ok u) s =
      let fs = map task_of (reconcilers env s) in
      let (schedule, closed) = run-closes (run_concurrently fs (s.world, false)) in
      (schedule, outcome-closed (run schedule (run_concurrently fs (s.world, false))) closed)
  after_load-returns (err e) s = ([], refl)
  after_load-returns panic s = ([], refl)

  -- Whatever the cluster answers, there is an order of the goroutines in which an iteration for a request
  -- comes to its end.
  pub reconcile_request-returns :
      (req : ObjectKey) (w : W)
      → (schedule : List ℕ) × (is_some (reconcile_request env schedule req w) ≡ true)
  unfolding reconcile_request reconcile
  reconcile_request-returns req w =
      let (r, s) = load_and_validate_desired_state env (receiver env req w) in
      after_load-returns r s
