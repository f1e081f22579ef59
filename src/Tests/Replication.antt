-- ===== src/Tests/Replication.antt =====
-- The ClientProfileReplication controller at concrete inputs.
use ceph_csi_operator.Prelude.{[], ◌≡◌, List, ℕ, refl, ◌∷◌, inl, inr, none, Any, All, if◌then◌else◌}
use ceph_csi_operator.Api.Profile.{ClientProfileReplication}
use ceph_csi_operator.Prelude.Result.{ok}
use ceph_csi_operator.Replication.Conflicts.{detect_conflict_unique, detect_conflict-oldest}
use ceph_csi_operator.Tests.Data.{replication_at, store_of, test_profile}
use ceph_csi_operator.Replication.Order.{NotOlder}
use ceph_csi_operator.Replication.{Env, State, detect_conflict, same_object}

abbrev first : ClientProfileReplication
first = replication_at "first" 1 ""

abbrev second : ClientProfileReplication
second = replication_at "second" 2 ""

abbrev env_of : List ClientProfileReplication → Env ℕ
env_of crs = record {
  profiles = store_of (test_profile none) [];
  replications = store_of first crs;
}

abbrev state_of : ClientProfileReplication → State ℕ
state_of cr = record { replication = cr; world = 0 }

abbrev both : Env ℕ
both = env_of (second ∷ first ∷ [])

detect_conflict-oldest_example :
    (winner : ClientProfileReplication) × Any (λ x. x ≡ winner) (second ∷ first ∷ [])
    × All (NotOlder winner) (second ∷ first ∷ [])
    × ((detect_conflict both (state_of second)).0 ≡ ok tt)
    × ((detect_conflict both (state_of second)).1.replication.status.phase
        ≡ (if same_object second.metadata winner.metadata then "Ready" else "Rejected"))
detect_conflict-oldest_example =
    detect_conflict-oldest both (state_of second) second (first ∷ []) 0 refl

first-Ready : (detect_conflict both (state_of first)).1.replication.status.phase ≡ "Ready"
unfolding detect_conflict
first-Ready = refl

detect_conflict_unique_example : first.metadata.name ≡ first.metadata.name
detect_conflict_unique_example =
    detect_conflict_unique both (state_of first) (state_of first) second second (first ∷ [])
      (first ∷ []) 0 0 refl refl (inl refl, (inr (inl refl), tt)) (inl refl, (inr (inl refl), tt))
      first-Ready first-Ready
