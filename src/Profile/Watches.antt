-- ===== src/Profile/Watches.antt =====
-- internal/controller/clientprofile_controller.go: `Reconcile`, and the function that
-- `SetupWithManager` gives to the watch of the replications.
use ceph_csi_operator.Profile.State.{Env, State}
use ceph_csi_operator.Profile.Phases.{reconcile}
use ceph_csi_operator.Api.Meta.{ObjectKey, ObjectMeta, named}
use ceph_csi_operator.Api.Profile.{ClientProfileReplication, CephConnection, ClientProfile}
use ceph_csi_operator.Utils.Meta.{event_type_predicate, EventType}
use ceph_csi_operator.Prelude.Result.{Result}
use ceph_csi_operator.Prelude.{true, false, none, List, [], ◌∷◌, Bool}

-- A ClientProfileReplication leads to a request for the profile that it names.
unfoldable pub requests_of : ClientProfileReplication → List ObjectKey
requests_of cpr =
    record { name = cpr.spec.local_client_profile; namespace = cpr.metadata.namespace } ∷ []

-- The events of a replication that are looked at
unfoldable pub replication_events : EventType → Bool
unfolding event_type_predicate
replication_events = event_type_predicate true true true false

-- The zero values of the receiver's objects
abbrev pub zero_profile : ObjectMeta → ClientProfile
zero_profile m = record {
  metadata = m;
  spec = record { ceph_connection_ref = ""; ceph_fs = none; rbd = none; nfs = none; nvmeof = none };
  status = record { phase = ""; message = "" };
}

abbrev pub zero_connection : CephConnection
zero_connection = record {
  metadata = named "" "";
  spec = record { monitors = []; read_affinity = none; rbd_mirror_daemon_count = 0 };
}

abbrev pub zero_replication : ObjectMeta → ClientProfileReplication
zero_replication m = record {
  metadata = m;
  spec = record { local_client_profile = ""; remote_client_profile = ""; rbd = none };
  status = record { phase = ""; message = "" };
}

module _ {W : Type 0} (env : Env W) where
  abbrev pub receiver : ObjectKey → W → State W
  receiver req w = record {
    client_profile = zero_profile (named req.name req.namespace);
    ceph_conn = zero_connection;
    replication = zero_replication (named "" "");
    clean_up = false;
    world = w;
  }

  -- `Reconcile`, whose result is empty beside the error
  unfoldable pub reconcile_request : ObjectKey → W → Result (Unit {0}) × W
  unfolding reconcile
  reconcile_request req w = let (r, s) = reconcile env (receiver req w) in (r, s.world)
