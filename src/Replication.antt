-- ===== src/Replication.antt =====
-- internal/controller/clientprofilereplication_controller.go: the ClientProfileReplication
-- controller, which lets one replication of a ClientProfile be active.
pub mod Order
pub mod Conflicts
pub mod Watches
use ceph_csi_operator.Prelude.Result.{Result, Method, panic, ok, err, keep_error, not_found}
use ceph_csi_operator.Prelude.Text.{◌<>◌}
use ceph_csi_operator.Api.Profile.{ClientProfileReplication, ClientProfile}
use ceph_csi_operator.Api.Meta.{ObjectMeta, object_key}
use ceph_csi_operator.Api.Client.{Store}
use ceph_csi_operator.Prelude.TextOrder.{str_lt}
use ceph_csi_operator.Prelude.{
  [], String, ◌≡◌, List, ◌∷◌, Bool, if◌then◌else◌, ◌==◌, eqb, ◌&&◌, ltb,
}

-- What an iteration calls.
pub record Env (W : Type 0) : Type 0 where
  pub profiles : Store W ClientProfile
  pub replications : Store W ClientProfileReplication

-- `ClientProfileReplicationReconcile`, with the cluster
pub record State (W : Type 0) : Type 0 where
  pub replication : ClientProfileReplication
  pub world : W

-- The comparison that `sort.Slice` is given: the older first, and the lesser name at equal times.
unfoldable pub older : ClientProfileReplication → ClientProfileReplication → Bool
older a b =
    if eqb a.metadata.creation_timestamp b.metadata.creation_timestamp
    then str_lt a.metadata.name b.metadata.name
    else ltb a.metadata.creation_timestamp b.metadata.creation_timestamp

-- `sort.Slice`: the items in the order of the comparison.
insert_sorted :
    ClientProfileReplication → List ClientProfileReplication → List ClientProfileReplication
insert_sorted a [] = a ∷ []
insert_sorted a (b ∷ items) = if older b a then b ∷ insert_sorted a items else a ∷ b ∷ items

unfoldable pub sort_by_age : List ClientProfileReplication → List ClientProfileReplication
unfolding insert_sorted older
sort_by_age [] = []
sort_by_age (a ∷ items) = insert_sorted a (sort_by_age items)

abbrev pub rejected_by : String → String → String
rejected_by winner profile =
    "rejected: another ClientProfileReplication '" <> winner
    <> "' is already active for localClientProfile '" <> profile <> "'"

abbrev pub same_object : ObjectMeta → ObjectMeta → Bool
same_object a b = a.name == b.name && a.namespace == b.namespace

-- Step 4: the status, by whether this replication is the winner.
unfoldable pub judge :
    String → ClientProfileReplication → ClientProfileReplication → ClientProfileReplication
judge profile winner cr =
    if same_object cr.metadata winner.metadata
    then record cr { status = record { phase = "Ready"; message = "accepted" } }
    else record cr {
      status = record { phase = "Rejected"; message = rejected_by winner.metadata.name profile };
    }

module _ {W : Type 0} where
  -- Step 3: the oldest is the winner; the index of an empty list panics.
  unfoldable pub pick_winner : List ClientProfileReplication → Method (State W) (Unit {0})
  unfolding judge
  pick_winner [] s = (panic, s)
  pick_winner (winner ∷ items) s = (
    ok tt,
    record s { replication = judge s.replication.spec.local_client_profile winner s.replication },
  )

  unfoldable pub listed : Result (List ClientProfileReplication) → Method (State W) (Unit {0})
  unfolding pick_winner sort_by_age
  listed (ok items) s = pick_winner (sort_by_age items) s
  listed (err e) s = (err e, s)
  listed panic s = (panic, s)

  set_pending : State W → State W
  set_pending s = record s {
    replication = record s.replication {
      status = record s.replication.status { phase = "Pending" };
    };
  }

  reject_missing : State W → State W
  reject_missing s = record s {
    replication = record s.replication {
      status = record {
        phase = "Rejected";
        message =
            "rejected: ClientProfile '" <> s.replication.spec.local_client_profile <> "' not found";
      };
    };
  }

module _ {W : Type 0} (env : Env W) where
  -- The look-up of all replications that name the same profile, and the conflict detection. The source
  -- takes the name from the ClientProfile that it got, which is the name that it asked for.
  unfoldable pub detect_conflict : Method (State W) (Unit {0})
  unfolding listed
  detect_conflict s =
      let (r, w) =
        env.replications.list_by_field s.replication.metadata.namespace
          s.replication.spec.local_client_profile s.world in
      listed r (record s { world = w })

  -- The answer to the request for the ClientProfile.
  profile_answered : Result ClientProfile → Method (State W) (Unit {0})
  unfolding detect_conflict reject_missing
  profile_answered (ok profile) s = detect_conflict s
  profile_answered (err (not_found text)) s = (ok tt, reject_missing s)
  profile_answered (err e) s = (err e, s)
  profile_answered panic s = (panic, s)

  -- `reconcilePhases`
  unfoldable pub reconcile_phases : Method (State W) (Unit {0})
  unfolding profile_answered set_pending
  reconcile_phases s =
      let (r, w) =
        env.profiles.get
          (record {
            name = s.replication.spec.local_client_profile;
            namespace = s.replication.metadata.namespace;
          })
          s.world in
      profile_answered r (record (set_pending s) { world = w })

  written : Result ClientProfileReplication → Method (State W) (Unit {0})
  written (ok cr) s = (ok tt, record s { replication = cr })
  written (err e) s = (err e, s)
  written panic s = (panic, s)

  -- The status is written whether the phases failed or not, and their error comes first.
  write_status : Result (Unit {0}) → Method (State W) (Unit {0})
  unfolding written
  write_status panic s = (panic, s)
  write_status (ok u) s =
      let (r, w) = env.replications.update_status s.replication s.world in
      written r (record s { world = w })
  write_status (err e) s =
      let (r, w) = env.replications.update_status s.replication s.world in
      let (r', s') = written r (record s { world = w }) in (keep_error e r', s')

  loaded : Result ClientProfileReplication → Method (State W) (Unit {0})
  unfolding reconcile_phases write_status
  loaded (ok cr) s =
      let (r, s') = reconcile_phases (record s { replication = cr }) in write_status r s'
  loaded (err (not_found text)) s = (ok tt, s)
  loaded (err e) s = (err e, s)
  loaded panic s = (panic, s)

  -- `reconcile`: a replication that is gone is no error.
  unfoldable pub reconcile : Method (State W) (Unit {0})
  unfolding loaded
  reconcile s =
      let (r, w) = env.replications.get (object_key s.replication.metadata) s.world in
      loaded r (record s { world = w })
