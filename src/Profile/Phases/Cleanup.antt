-- ===== src/Profile/Phases/Cleanup.antt =====
-- What has happened where the phases succeed on a profile that is deleted.
use ceph_csi_operator.Profile.State.{Env, State, or_failed}
use ceph_csi_operator.Prelude.Result.{Method, ok, Result, ◌>>◌}
use ceph_csi_operator.Profile.Phases.{
  reconcile_ceph_csi_cluster_info, finish, cleanup_finalizer, reconcile_ceph_connection,
  reconcile_client_profile_replication,
}
use ceph_csi_operator.Api.Profile.{ClientProfile}
use ceph_csi_operator.Prelude.{[], ◌≡◌}

module _ {W : Type 0} (env : Env W) where
  -- The profile's metadata as the server answers, without the finalizer.
  abbrev finalizer_removed : State W → ClientProfile
  finalizer_removed s = record s.client_profile {
    metadata = (env.util.remove_finalizer s.client_profile.metadata cleanup_finalizer).0;
  }

  -- The phases from the third, the second and the first step on.
  abbrev to_config : Method (State W) (Unit {0})
  to_config =
      or_failed "failed to reconcile ConfigMap: " (reconcile_ceph_csi_cluster_info env)
      >> finish env

  abbrev to_replication : Method (State W) (Unit {0})
  to_replication =
      or_failed "failed to reconcile ClientProfileReplication: "
        (reconcile_client_profile_replication env)
      >> to_config

  abbrev to_connection : Method (State W) (Unit {0})
  to_connection =
      or_failed "failed to reconcile CephConnection: " (reconcile_ceph_connection env)
      >> to_replication

  -- The three calls, from the state `t` at which the replications are listed.
  pub record Deleted (t s' : State W) : Type 0 where
    pub after_list : W
    pub after_config : W
    pub no_reference :
        env.replications.list_by_field t.client_profile.metadata.namespace
          t.client_profile.metadata.name t.world
        ≡ (ok [], after_list)
    pub config_written :
        reconcile_ceph_csi_cluster_info env (record t { world = after_list })
        ≡ (ok tt, record t { world = after_config })
    pub finalizer_dropped :
        env.profiles.update (finalizer_removed t) after_config ≡ (ok s'.client_profile, s'.world)
