-- ===== src/Profile/Phases.antt =====
-- `reconcilePhases` and its steps, and `reconcile` with the status update behind them.
-- The mutex round the update of the config map is left out: it orders the iterations of one process,
-- and the model is of one iteration.
pub mod Frame
pub mod Status
pub mod Cleanup
pub mod Replication
pub mod Outcome
use ceph_csi_operator.Profile.State.{Env, State, ask, or_failed, set_phase, show_names, names_of}
use ceph_csi_operator.Prelude.Result.{Method, Result, ok, err, panic, ◌>>◌, other, keep_error}
use ceph_csi_operator.Api.Meta.{ObjectMeta, named}
use ceph_csi_operator.Api.Client.{OperationResult}
use ceph_csi_operator.Api.Profile.{ClientProfileReplication}
use ceph_csi_operator.Utils.Meta.{toggle_owner_reference}
use ceph_csi_operator.Profile.ConfigFile.{mutate_config_map}
use ceph_csi_operator.Profile.Load.{load_and_validate}
use ceph_csi_operator.Prelude.Text.{◌<>◌}
use ceph_csi_operator.Prelude.{[], String, List, Bool, if◌then◌else◌, ◌==◌, none, not, ◌∷◌}

abbrev pub cleanup_finalizer : String
cleanup_finalizer = "csi.ceph.com/cleanup"

module _ {W : Type 0} (env : Env W) where
  pub set_pending : Method (State W) (Unit {0})
  set_pending s = (
    ok tt,
    record s {
      client_profile = record s.client_profile {
        status = record s.client_profile.status { phase = "Pending" };
      };
    },
  )

  update_profile : Method (State W) (Unit {0})
  update_profile s =
      ask (λ p s. record s { client_profile = p }) (env.profiles.update s.client_profile) s

  update_connection : Method (State W) (Unit {0})
  update_connection s =
      ask (λ c s. record s { ceph_conn = c }) (env.connections.update s.ceph_conn) s

  put_profile_metadata : ObjectMeta → State W → State W
  put_profile_metadata m s = record s { client_profile = record s.client_profile { metadata = m } }

  -- A finalizer on the ClientProfile, so that it can be cleaned up.
  pub ensure_finalizer : Method (State W) (Unit {0})
  unfolding update_profile put_profile_metadata
  ensure_finalizer s =
      if s.clean_up
      then (ok tt, s)
      else let (m, added) = env.util.add_finalizer s.client_profile.metadata cleanup_finalizer in
        if added
        then update_profile (put_profile_metadata m s)
        else (ok tt, put_profile_metadata m s)

  -- The end of a step that toggled an owner reference: the CephConnection is written if it changed.
  if_changed : Result Bool → Method (State W) (Unit {0})
  unfolding update_connection
  if_changed (ok needs_update) s = if needs_update then update_connection s else (ok tt, s)
  if_changed (err e) s = (err e, s)
  if_changed panic s = (panic, s)

  -- `reconcileCephConnection`
  unfoldable pub reconcile_ceph_connection : Method (State W) (Unit {0})
  unfolding if_changed
  reconcile_ceph_connection s =
      let (r, m) =
        toggle_owner_reference env.util (not s.clean_up) s.client_profile.metadata
          s.ceph_conn.metadata in
      if_changed r (record s { ceph_conn = record s.ceph_conn { metadata = m } })

  -- The owner reference on the ready replication. As in the source, it is the CephConnection that is
  -- written where the reference changed.
  unfoldable pub own_replication : Method (State W) (Unit {0})
  unfolding if_changed
  own_replication s =
      if s.replication.metadata.uid == ""
      then (ok tt, s)
      else let (r, m) =
          toggle_owner_reference env.util (not s.clean_up) s.client_profile.metadata
            s.replication.metadata in
        if_changed r (record s { replication = record s.replication { metadata = m } })

  -- A deletion is blocked by replications that name the profile.
  refuse_references : Result (List ClientProfileReplication) → Method (State W) (Unit {0})
  refuse_references (ok []) s = (ok tt, s)
  refuse_references (ok (cr ∷ crs)) s = (
    err (
        other (
          "cannot delete: ClientProfileReplication CRs still reference this profile: "
          <> show_names (names_of (cr ∷ crs)))),
    s,
  )
  refuse_references (err e) s = (err e, s)
  refuse_references panic s = (panic, s)

  unfoldable pub check_references : Method (State W) (Unit {0})
  unfolding refuse_references
  check_references s =
      if s.clean_up
      then (let (r, w) =
            env.replications.list_by_field s.client_profile.metadata.namespace
              s.client_profile.metadata.name s.world in
          refuse_references r (record s { world = w }))
      else (ok tt, s)

  -- `reconcileClientProfileReplication`
  unfoldable pub reconcile_client_profile_replication : Method (State W) (Unit {0})
  unfolding own_replication check_references
  reconcile_client_profile_replication = do own_replication; check_references

  -- `reconcileCephCsiClusterInfo`: the config map "ceph-csi-config" in the profile's namespace
  config_written : Result OperationResult → Method (State W) (Unit {0})
  config_written (ok op) s = (ok tt, s)
  config_written (err e) s = (err e, s)
  config_written panic s = (panic, s)

  unfoldable pub reconcile_ceph_csi_cluster_info : Method (State W) (Unit {0})
  unfolding config_written
  reconcile_ceph_csi_cluster_info s =
      let (r, config_map, w) =
        env.config_maps.create_or_update
          (record {
            metadata = named "ceph-csi-config" s.client_profile.metadata.namespace;
            content = none;
          })
          (mutate_config_map env s) s.world in
      config_written r (record s { world = w })

  -- The last step: the finalizer goes, or the profile is ready.
  unfoldable pub finish : Method (State W) (Unit {0})
  unfolding update_profile put_profile_metadata
  finish s =
      if s.clean_up
      then (let (m, removed) =
            env.util.remove_finalizer s.client_profile.metadata cleanup_finalizer in
          or_failed "failed to remove finalizer: " update_profile (put_profile_metadata m s))
      else (ok tt, set_phase "Ready" "ClientProfile reconciled successfully" s)

  -- `reconcilePhases`
  unfoldable pub reconcile_phases : Method (State W) (Unit {0})
  unfolding set_pending ensure_finalizer
  reconcile_phases = do
    set_pending
    ensure_finalizer
    or_failed "failed to reconcile CephConnection: " reconcile_ceph_connection
    or_failed "failed to reconcile ClientProfileReplication: " reconcile_client_profile_replication
    or_failed "failed to reconcile ConfigMap: " reconcile_ceph_csi_cluster_info
    finish

  -- The status is written whether the phases failed or not, and their error comes first.
  write_status : Result (Unit {0}) → Method (State W) (Unit {0})
  write_status panic s = (panic, s)
  write_status (ok u) s =
      ask (λ p s. record s { client_profile = p }) (env.profiles.update_status s.client_profile) s
  write_status (err e) s =
      let (r, s') =
        ask (λ p s. record s { client_profile = p }) (env.profiles.update_status s.client_profile)
          s in
      (keep_error e r, s')

  phases_and_status : Method (State W) (Unit {0})
  unfolding write_status
  phases_and_status s = let (r, s') = reconcile_phases s in write_status r s'

  -- `reconcile`
  unfoldable pub reconcile : Method (State W) (Unit {0})
  unfolding phases_and_status
  reconcile = do load_and_validate env; phases_and_status
