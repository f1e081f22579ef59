-- ===== src/Profile/Phases/Replication.antt =====
-- What the iterations of the ClientProfile controller use of the replications in the cluster.
use ceph_csi_operator.Profile.State.{Env, State}
use ceph_csi_operator.Api.Client.{Store}
use ceph_csi_operator.Api.Profile.{ClientProfileReplication}
use ceph_csi_operator.Profile.Load.{load_and_validate}
use ceph_csi_operator.Profile.ConfigFile.{mutate_config_map}
use ceph_csi_operator.Api.Meta.{ConfigMap}
use ceph_csi_operator.Profile.State.{or_failed}
use ceph_csi_operator.Prelude.Result.{◌>>◌}
use ceph_csi_operator.Profile.Phases.{
  own_replication, check_references, reconcile_client_profile_replication,
  reconcile_ceph_connection, reconcile_ceph_csi_cluster_info, finish, ensure_finalizer,
  reconcile_phases, reconcile, set_pending, phases_and_status, write_status,
}
use ceph_csi_operator.Prelude.{◌≡◌, arith}

module _ {W : Type 0} (env : Env W) (store : Store W ClientProfileReplication) where
  -- The cluster with all calls on replications but the listing by a field taken from elsewhere
  abbrev pub other_calls : Env W
  other_calls = record env {
    replications = record store { list_by_field = env.replications.list_by_field };
  }

  own_replication-other : (s : State W) → own_replication other_calls s ≡ own_replication env s
  unfolding own_replication
  own_replication-other s = ground arith

  check_references-other : (s : State W) → check_references other_calls s ≡ check_references env s
  unfolding check_references
  check_references-other s = ground arith

  connection-other :
      (s : State W) → reconcile_ceph_connection other_calls s ≡ reconcile_ceph_connection env s
  unfolding reconcile_ceph_connection
  connection-other s = ground arith

  mutate-other :
      (s : State W) (config_map : ConfigMap)
      → mutate_config_map other_calls s config_map ≡ mutate_config_map env s config_map
  unfolding mutate_config_map
  mutate-other s config_map = ground arith

  cluster_info-other :
      (s : State W)
      → reconcile_ceph_csi_cluster_info other_calls s ≡ reconcile_ceph_csi_cluster_info env s
  unfolding reconcile_ceph_csi_cluster_info
  cluster_info-other s = ground (arith, same)
    where
      same : mutate_config_map other_calls s ≡ mutate_config_map env s
      same i config_map = mutate-other s config_map i

  finish-other : (s : State W) → finish other_calls s ≡ finish env s
  unfolding finish
  finish-other s = ground arith

  ensure_finalizer-other : (s : State W) → ensure_finalizer other_calls s ≡ ensure_finalizer env s
  unfolding ensure_finalizer
  ensure_finalizer-other s = ground arith

  load-other : (s : State W) → load_and_validate other_calls s ≡ load_and_validate env s
  unfolding load_and_validate
  load-other s = ground arith

  phases-other : (s : State W) → reconcile_phases other_calls s ≡ reconcile_phases env s
  unfolding reconcile_phases reconcile_client_profile_replication
  phases-other s i =
      (set_pending env
          >> ((λ s. ensure_finalizer-other s i)
              >> (or_failed "failed to reconcile CephConnection: " (λ s. connection-other s i)
                  >> (or_failed "failed to reconcile ClientProfileReplication: "
                        ((λ s. own_replication-other s i) >> (λ s. check_references-other s i))
                      >> (or_failed "failed to reconcile ConfigMap: " (λ s. cluster_info-other s i)
                          >> (λ s. finish-other s i))))))
        s

  status-other : (s : State W) → phases_and_status other_calls s ≡ phases_and_status env s
  unfolding phases_and_status write_status
  status-other s = ground (arith, phases-other s)

  -- An iteration of the ClientProfile controller uses the replications in the cluster by their listing
  -- alone: with all other calls on them, their updates included, in any other way, it ends in the same
  -- result and the same state. So the owner reference that it toggles on the ready replication reaches the
  -- cluster by no call.
  pub reconcile-other : (s : State W) → reconcile other_calls s ≡ reconcile env s
  unfolding reconcile
  reconcile-other s i = ((λ s. load-other s i) >> (λ s. status-other s i)) s
