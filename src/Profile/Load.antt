-- ===== src/Profile/Load.antt =====
-- `loadAndValidate`: the ClientProfile, its CephConnection with the owner reference on it, and the
-- one replication that is ready.
pub mod Ready
use ceph_csi_operator.Prelude.{
  ℕ, String, Bool, true, false, not, Option, none, some, List, [], ◌∷◌, ◌++◌, ◌==◌, if◌then◌else◌,
  any_of, deref, is_some, map,
}
use ceph_csi_operator.Prelude.Assoc.{Assoc, lookup, insert}
use ceph_csi_operator.Prelude.Result.{
  Error, other, message, Result, ok, err, panic, Method, pure, fail, ◌>>=◌, ◌>>◌,
}
use ceph_csi_operator.Prelude.Text.{◌<>◌, join}
use ceph_csi_operator.Api.Meta.{ObjectMeta, ObjectKey, object_key, ConfigMap, named}
use ceph_csi_operator.Api.Profile.{ClientProfile, CephConnection, ClientProfileReplication}
use ceph_csi_operator.Api.Client.{Store, Ctrlutil, Codec, OperationResult}
use ceph_csi_operator.Utils.Meta.{toggle_owner_reference, is_owned_by}
use ceph_csi_operator.Profile.Record.{CsiClusterInfoRecord, compose_csi_cluster_info_record}
use ceph_csi_operator.Profile.Entries.{update_entries}
use ceph_csi_operator.Profile.State.{Env, State, ask, show_names, names_of}

-- The loop that filters for the Ready state.
unfoldable pub ready_replications : List ClientProfileReplication → List ClientProfileReplication
ready_replications [] = []
ready_replications (item ∷ items) =
    let rest = ready_replications items in
    if item.status.phase == "Ready" then item ∷ rest else rest

module _ {W : Type 0} (env : Env W) where
  -- The first part of `loadAndValidate`: the ClientProfile, and its pointer to a CephConnection.
  load_profile : Method (State W) (Unit {0})
  load_profile s =
      ask (λ p s. record s { client_profile = p; clean_up = is_some p.metadata.deletion_timestamp })
        (env.profiles.get (object_key s.client_profile.metadata)) s

  check_connection_ref : Method (State W) (Unit {0})
  check_connection_ref s =
      if s.client_profile.spec.ceph_connection_ref == ""
      then (err (other "validation error"), s)
      else (ok tt, s)

  load_connection : Method (State W) (Unit {0})
  load_connection s =
      ask (λ c s. record s { ceph_conn = c })
        (env.connections.get (record {
          name = s.client_profile.spec.ceph_connection_ref;
          namespace = s.client_profile.metadata.namespace;
        }))
        s

  -- The owner reference of the CephConnection, which is written at once where it was missing.
  write_owned : Result ObjectMeta → Method (State W) (Unit {0})
  write_owned (ok m) s =
      let conn = record s.ceph_conn { metadata = m } in
      ask (λ c s. record s { ceph_conn = c }) (env.connections.update conn)
        (record s { ceph_conn = conn })
  write_owned (err e) s = (err e, s)
  write_owned panic s = (panic, s)

  own_connection : Method (State W) (Unit {0})
  unfolding write_owned
  own_connection s =
      if any_of (λ ref. ref.uid == s.client_profile.metadata.uid)
        s.ceph_conn.metadata.owner_references
      then (ok tt, s)
      else write_owned (env.util.set_owner_reference s.client_profile.metadata s.ceph_conn.metadata)
          s

  -- The last part: at most one replication of the profile may be ready.
  take_ready : List ClientProfileReplication → Method (State W) (Unit {0})
  take_ready [] s = (ok tt, s)
  take_ready (cr ∷ []) s = (ok tt, record s { replication = cr })
  take_ready (cr ∷ cr' ∷ crs) s = (
    err (
        other (
          "multiple Ready ClientProfileReplication CRs found: "
          <> show_names (names_of (cr ∷ cr' ∷ crs)))),
    s,
  )

  listed : Result (List ClientProfileReplication) → Method (State W) (Unit {0})
  unfolding take_ready ready_replications
  listed (ok items) s = take_ready (ready_replications items) s
  listed (err e) s = (err e, s)
  listed panic s = (panic, s)

  load_replication : Method (State W) (Unit {0})
  unfolding listed
  load_replication s =
      let (r, w) =
        env.replications.list_by_field s.client_profile.metadata.namespace
          s.client_profile.metadata.name s.world in
      listed r (record s { world = w })

  -- `loadAndValidate`
  unfoldable pub load_and_validate : Method (State W) (Unit {0})
  unfolding load_profile check_connection_ref load_connection own_connection load_replication
  load_and_validate = do
    load_profile
    check_connection_ref
    load_connection
    own_connection
    load_replication
