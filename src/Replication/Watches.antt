-- ===== src/Replication/Watches.antt =====
-- internal/controller/clientprofilereplication_controller.go: `Reconcile`, the field index, and the
-- function that `SetupWithManager` gives to the watch of the profiles.
use ceph_csi_operator.Replication.{Env, State, reconcile}
use ceph_csi_operator.Api.Meta.{ObjectKey, ObjectMeta, object_key, named}
use ceph_csi_operator.Api.Profile.{ClientProfileReplication}
use ceph_csi_operator.Prelude.Result.{Result, ok, err, panic}
use ceph_csi_operator.Utils.Meta.{event_type_predicate, EventType}
use ceph_csi_operator.Profile.Watches.{zero_replication}
use ceph_csi_operator.Prelude.{String, true, false, List, [], ◌∷◌, Bool, ◌==◌, if◌then◌else◌, map}

-- The function of the field index: the profile that a replication names, if any
unfoldable pub index_values : ClientProfileReplication → List String
index_values cpr =
    if cpr.spec.local_client_profile == "" then [] else cpr.spec.local_client_profile ∷ []

-- The events of a profile that are looked at
unfoldable pub profile_events : EventType → Bool
unfolding event_type_predicate
profile_events = event_type_predicate true false true false

abbrev pub listed_requests : Result (List ClientProfileReplication) → Result (List ObjectKey)
listed_requests (ok items) = ok (map (λ item. object_key item.metadata) items)
listed_requests (err e) = ok []
listed_requests panic = panic

module _ {W : Type 0} (env : Env W) where
  -- A ClientProfile leads to requests for the replications that name it.
  unfoldable pub requests_of : ObjectMeta → W → Result (List ObjectKey) × W
  requests_of profile w =
      let (r, w') = env.replications.list_by_field profile.namespace profile.name w in
      (listed_requests r, w')

  abbrev pub receiver : ObjectKey → W → State W
  receiver req w = record {
    replication = zero_replication (named req.name req.namespace);
    world = w;
  }

  -- `Reconcile`, whose result is empty beside the error
  unfoldable pub reconcile_request : ObjectKey → W → Result (Unit {0}) × W
  unfolding reconcile
  reconcile_request req w = let (r, s) = reconcile env (receiver req w) in (r, s.world)
