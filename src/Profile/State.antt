-- ===== src/Profile/State.antt =====
-- The receiver of a reconcile iteration of a ClientProfile, `ClientProfileReconcile`, with the
-- cluster in it, and what the iteration calls. Log lines are left out.
use ceph_csi_operator.Prelude.{String, Bool, Option, List, map}
use ceph_csi_operator.Prelude.Result.{message, Result, ok, err, panic, Method}
use ceph_csi_operator.Prelude.Text.{◌<>◌, join}
use ceph_csi_operator.Api.Meta.{ConfigMap}
use ceph_csi_operator.Api.Profile.{ClientProfile, CephConnection, ClientProfileReplication}
use ceph_csi_operator.Api.Client.{Store, Ctrlutil, Codec}
use ceph_csi_operator.Profile.Record.{CsiClusterInfoRecord}

-- What the iteration calls.
pub record Env (W : Type 0) : Type 0 where
  pub profiles : Store W ClientProfile
  pub connections : Store W CephConnection
  pub replications : Store W ClientProfileReplication
  pub config_maps : Store W ConfigMap
  pub util : Ctrlutil
  pub codec : Codec (List (Option CsiClusterInfoRecord))

-- `ClientProfileReconcile`, with the cluster
pub record State (W : Type 0) : Type 0 where
  pub client_profile : ClientProfile
  pub ceph_conn : CephConnection
  pub replication : ClientProfileReplication
  pub clean_up : Bool
  pub world : W

-- The list that `%v` prints.
abbrev pub show_names : List String → String
show_names names = "[" <> join " " names <> "]"

abbrev pub names_of : List ClientProfileReplication → List String
names_of = map (λ cr. cr.metadata.name)

module _ {W : Type 0} where
  -- A call of the client whose answer the receiver takes in.
  abbrev pub answered :
      {A : Type 0} → (A → State W → State W) → Result A → W → Method (State W) (Unit {0})
  answered take_in (ok a) w s = (ok tt, take_in a (record s { world = w }))
  answered take_in (err e) w s = (err e, record s { world = w })
  answered take_in panic w s = (panic, record s { world = w })

  abbrev pub ask :
      {A : Type 0} → (A → State W → State W) → (W → Result A × W) → Method (State W) (Unit {0})
  ask take_in f s = answered take_in (f s.world).0 (f s.world).1 s

  abbrev pub set_phase : String → String → State W → State W
  set_phase phase text s = record s {
    client_profile = record s.client_profile { status = record { phase = phase; message = text } };
  }

  -- `err` as it comes back to `reconcilePhases`: the status is marked as failed.
  abbrev pub marked : String → Result (Unit {0}) → Method (State W) (Unit {0})
  marked what (ok u) s = (ok u, s)
  marked what (err e) s = (err e, set_phase "Failed" (what <> message e) s)
  marked what panic s = (panic, s)

  abbrev pub or_failed : String → Method (State W) (Unit {0}) → Method (State W) (Unit {0})
  or_failed what m s = marked what (m s).0 (m s).1
