-- ===== src/Profile/Phases/Frame.antt =====
-- What the steps of `reconcilePhases` leave alone, and how their composition fails.
use ceph_csi_operator.Profile.State.{Env, State}
use ceph_csi_operator.Profile.Phases.{
  reconcile_ceph_csi_cluster_info, reconcile_ceph_connection, own_replication, check_references,
  ensure_finalizer,
}
use ceph_csi_operator.Prelude.Result.{Error, err}
use ceph_csi_operator.Prelude.{◌≡◌, arith, true}

module _ {W : Type 0} (env : Env W) (s : State W) where
  pub clean_up-connection : (reconcile_ceph_connection env s).1.clean_up ≡ s.clean_up
  unfolding reconcile_ceph_connection
  clean_up-connection = ground arith

  pub clean_up-own : (own_replication env s).1.clean_up ≡ s.clean_up
  unfolding own_replication
  clean_up-own = ground arith

  pub clean_up-references : (check_references env s).1.clean_up ≡ s.clean_up
  unfolding check_references
  clean_up-references = ground arith

  pub clean_up-config : (reconcile_ceph_csi_cluster_info env s).1.clean_up ≡ s.clean_up
  unfolding reconcile_ceph_csi_cluster_info
  clean_up-config = ground arith

  pub clean_up-ensure : (ensure_finalizer env s).1.clean_up ≡ s.clean_up
  unfolding ensure_finalizer
  clean_up-ensure = ground arith

  pub phase-ensure :
      (e : Error)
      → (ensure_finalizer env s).0 ≡ err e
      → (ensure_finalizer env s).1.client_profile.status.phase ≡ s.client_profile.status.phase
  unfolding ensure_finalizer
  phase-ensure e h = ground arith

  pub profile-connection : (reconcile_ceph_connection env s).1.client_profile ≡ s.client_profile
  unfolding reconcile_ceph_connection
  profile-connection = ground arith

  pub profile-own : (own_replication env s).1.client_profile ≡ s.client_profile
  unfolding own_replication
  profile-own = ground arith

  pub profile-ensure :
      s.clean_up ≡ true → (ensure_finalizer env s).1.client_profile ≡ s.client_profile
  unfolding ensure_finalizer
  profile-ensure h = ground arith
