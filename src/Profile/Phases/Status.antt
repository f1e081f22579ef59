-- ===== src/Profile/Phases/Status.antt =====
-- The phase that an iteration leaves in the status.
use ceph_csi_operator.Profile.State.{Env, State, or_failed}
use ceph_csi_operator.Prelude.Result.{Result, Method, ok, err, ◌>>◌, panic}
use ceph_csi_operator.Profile.Phases.{
  finish, reconcile_client_profile_replication, reconcile_phases, set_pending, ensure_finalizer,
  own_replication, reconcile_ceph_connection, reconcile_ceph_csi_cluster_info,
}
use ceph_csi_operator.Profile.Phases.Frame.{
  clean_up-own, clean_up-references, phase-ensure, clean_up-config, clean_up-connection,
  clean_up-ensure,
}
use ceph_csi_operator.Prelude.{String, ◌≡◌, arith, false, ◌⊎◌, inl, inr, ◌∙◌, refl}

-- What the phase says of the way in which the phases ended.
abbrev pub Verdict : {W : Type 0} → Result (Unit {0}) → State W → Type 0
Verdict (ok u) s = s.client_profile.status.phase ≡ "Ready"
Verdict (err e) s =
    (s.client_profile.status.phase ≡ "Failed") ⊎ (s.client_profile.status.phase ≡ "Pending")
Verdict panic s = Unit {0}

module _ {W : Type 0} (env : Env W) where
  replication-clean_up :
      (s : State W) → (reconcile_client_profile_replication env s).1.clean_up ≡ s.clean_up
  unfolding reconcile_client_profile_replication
  replication-clean_up s =
      ground (arith, clean_up-own env s, clean_up-references env (own_replication env s).1)

  finish-Verdict : (s : State W) → s.clean_up ≡ false → Verdict (finish env s).0 (finish env s).1
  unfolding finish
  finish-Verdict s h = rw h refl

  or_failed-Verdict :
      (what : String) (m : Method (State W) (Unit {0})) (k : Method (State W) (Unit {0}))
      (s : State W)
      → ((s : State W) → s.clean_up ≡ false → Verdict (k s).0 (k s).1)
      → (m s).1.clean_up ≡ false
      → Verdict ((or_failed what m >> k) s).0 ((or_failed what m >> k) s).1
  or_failed-Verdict what m k s hk hm = after (m s).0 refl
    where
      after :
          (r : Result (Unit {0}))
          → (m s).0 ≡ r
          → Verdict ((or_failed what m >> k) s).0 ((or_failed what m >> k) s).1
      after (ok u) e = rw e (hk (m s).1 hm)
      after (err x) e = rw e (inl refl)
      after panic e = rw e tt

  -- Of a profile that is not deleted: where the phases succeed, the phase is Ready, and where they
  -- fail, it is Failed or Pending, and not Ready.
  pub reconcile_phases-Verdict :
      (s : State W)
      → s.clean_up ≡ false
      → Verdict (reconcile_phases env s).0 (reconcile_phases env s).1
  unfolding reconcile_phases
  reconcile_phases-Verdict s live = after (ensure_finalizer env s').0 refl
    where
      s' : State W
      s' = (set_pending env s).1

      after :
          (r : Result (Unit {0}))
          → (ensure_finalizer env s').0 ≡ r
          → Verdict (reconcile_phases env s).0 (reconcile_phases env s).1
      after (err e) h = rw h (inr (phase-ensure env s' e h))
      after panic h = rw h tt
      after (ok u) h = rw h (
          or_failed-Verdict _ (reconcile_ceph_connection env) _ (ensure_finalizer env s').1
            (λ s₁ live₁.
              or_failed-Verdict _ (reconcile_client_profile_replication env) _ s₁
                (λ s₂ live₂.
                  or_failed-Verdict _ (reconcile_ceph_csi_cluster_info env) _ s₂ finish-Verdict
                    (clean_up-config env s₂ ∙ live₂))
                (replication-clean_up s₁ ∙ live₁))
            (clean_up-connection env _ ∙ clean_up-ensure env s' ∙ live))
