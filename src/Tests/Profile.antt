-- ===== src/Tests/Profile.antt =====
-- The ClientProfile controller at concrete inputs.
use ceph_csi_operator.Profile.Phases.{reconcile}
use ceph_csi_operator.Prelude.Result.{other, err}
use ceph_csi_operator.Profile.Entries.{update_entries}
use ceph_csi_operator.Profile.State.{Env, State}
use ceph_csi_operator.Profile.Phases.{reconcile_phases}
use ceph_csi_operator.Profile.Load.{load_and_validate}
use ceph_csi_operator.Profile.Phases.Status.{Verdict, reconcile_phases-Verdict}
use ceph_csi_operator.Api.Meta.{ConfigMap, named}
use ceph_csi_operator.Profile.ConfigFile.{mutate_config_map, parse_entries}
use ceph_csi_operator.Prelude.{
  Option, ℕ, List, ◌≡◌, ◌≢◌, refl, Bool, some, none, is_some, true, false, [], ◌∷◌, String,
  if◌then◌else◌, ◌==◌, ◌⊎◌,
}
use ceph_csi_operator.Api.Profile.{ClientProfileReplication}
use ceph_csi_operator.Api.Client.{Codec, Store}
use ceph_csi_operator.Prelude.Result.{ok}
use ceph_csi_operator.Tests.Data.{
  store_of, no_config_map, replication_at, test_profile, test_connection, test_util,
}
use ceph_csi_operator.Profile.Phases.Replication.{reconcile-other, other_calls}
use ceph_csi_operator.Profile.Record.{CsiClusterInfoRecord, compose_csi_cluster_info_record}
use ceph_csi_operator.Profile.ConfigFile.Laws.{
  Written, desired_record, mutate_config_map-delete, mutate_config_map-upsert, Holds,
}
use ceph_csi_operator.Profile.Load.Ready.{Loaded, load_and_validate-Loaded}
use ceph_csi_operator.Profile.Entries.Laws.{find_record, ids}
use ceph_csi_operator.Prelude.Keyed.{distinct}
use ceph_csi_operator.Prelude.Assoc.{lookup}

abbrev test_codec : Codec (List (Option CsiClusterInfoRecord))
test_codec = record { marshal = λ entries. ok "entries"; unmarshal = λ text. ok [] }

-- A cluster with the profile, live or with a deletion timestamp, and some replications.
abbrev env_of : Option ℕ → List ClientProfileReplication → Env ℕ
env_of deletion crs = record {
  profiles = store_of (test_profile deletion) (test_profile deletion ∷ []);
  connections = store_of test_connection (test_connection ∷ []);
  replications = store_of (replication_at "first" 1 "Ready") crs;
  config_maps = store_of no_config_map [];
  util = test_util;
  codec = test_codec;
}

abbrev no_replication : ClientProfileReplication
no_replication = record {
  metadata = named "" "";
  spec = record { local_client_profile = ""; remote_client_profile = ""; rbd = none };
  status = record { phase = ""; message = "" };
}

abbrev state_of : Option ℕ → Bool → ClientProfileReplication → State ℕ
state_of deletion clean_up cr = record {
  client_profile = test_profile deletion;
  ceph_conn = test_connection;
  replication = cr;
  clean_up = clean_up;
  world = 0;
}

abbrev pub live_env : Env ℕ
live_env = env_of none (replication_at "first" 1 "Ready" ∷ [])

abbrev pub live : State ℕ
live = state_of none false (replication_at "first" 1 "Ready")

abbrev deleted_env : Env ℕ
deleted_env = env_of (some 7) []

abbrev deleted : State ℕ
deleted = state_of (some 7) true no_replication

reconcile_phases-Verdict_example :
    Verdict (reconcile_phases live_env live).0 (reconcile_phases live_env live).1
reconcile_phases-Verdict_example = reconcile_phases-Verdict live_env live refl

abbrev cleaned : State ℕ
cleaned = (reconcile_phases deleted_env deleted).1

abbrev loaded : State ℕ
loaded = (load_and_validate live_env live).1

live-ok : load_and_validate live_env live ≡ (ok tt, loaded)
unfolding load_and_validate
live-ok = refl

load_and_validate-Loaded_example :
    (loaded.client_profile.spec.ceph_connection_ref ≢ "")
    × (loaded.clean_up ≡ is_some loaded.client_profile.metadata.deletion_timestamp)
    × Loaded live_env live.replication loaded
load_and_validate-Loaded_example = load_and_validate-Loaded live_env live loaded live-ok

abbrev upserted : ConfigMap
upserted = (mutate_config_map live_env live no_config_map).1

upserted-ok : mutate_config_map live_env live no_config_map ≡ (ok tt, upserted)
unfolding mutate_config_map update_entries
upserted-ok = refl

no_text : Holds test_codec no_config_map []
unfolding parse_entries lookup
no_text = refl

mutate_config_map-upsert_example :
    (rs' : List CsiClusterInfoRecord) × Written test_codec no_config_map upserted rs'
    × ((k : String)
        → find_record k rs'
          ≡ (if "blue" == k then some (desired_record live_env live) else find_record k []))
    × ((distinct (ids []) ≡ false) ⊎ (distinct (ids rs') ≡ true))
mutate_config_map-upsert_example =
    mutate_config_map-upsert live_env live no_config_map upserted [] refl no_text upserted-ok

-- A config map with three records, of which the profile's is the first
abbrev record_of : String → CsiClusterInfoRecord
record_of name = record (desired_record deleted_env deleted) { cluster_id = name }

abbrev three_records : List CsiClusterInfoRecord
three_records = record_of "blue" ∷ record_of "red" ∷ record_of "green" ∷ []

abbrev three_env : Env ℕ
three_env = record deleted_env {
  codec = record {
    marshal = λ entries. ok "entries";
    unmarshal = λ text.
        ok (some (record_of "blue") ∷ some (record_of "red") ∷ some (record_of "green") ∷ []);
  };
}

abbrev three_map : ConfigMap
three_map = record no_config_map { content = some (("config.json", "records") ∷ []) }

three-parsed : Holds three_env.codec three_map three_records
unfolding parse_entries lookup
three-parsed = refl

abbrev removed : ConfigMap
removed = (mutate_config_map three_env deleted three_map).1

removed-ok : mutate_config_map three_env deleted three_map ≡ (ok tt, removed)
unfolding mutate_config_map update_entries compose_csi_cluster_info_record
removed-ok = refl

mutate_config_map-delete_example :
    (rs' : List CsiClusterInfoRecord) × Written three_env.codec three_map removed rs'
    × ((k : String)
        → find_record k rs' ≡ (if "blue" == k then none else find_record k three_records))
    × (distinct (ids rs') ≡ true)
mutate_config_map-delete_example =
    mutate_config_map-delete three_env deleted three_map removed three_records refl three-parsed
      refl removed-ok

-- Replications whose other calls all fail
abbrev failing_store : Store ℕ ClientProfileReplication
failing_store = record (store_of no_replication []) {
  update = λ cr w. (err (other "failed"), w);
  update_status = λ cr w. (err (other "failed"), w);
}

reconcile-other_example :
    reconcile (other_calls live_env failing_store) live ≡ reconcile live_env live
reconcile-other_example = reconcile-other live_env failing_store live

-- A cluster that refuses to update a profile.
abbrev refusing : Env ℕ
refusing = record live_env {
  profiles = record live_env.profiles { update = λ profile w. (err (other "conflict"), w) };
}

abbrev before : State ℕ
before = (load_and_validate refusing live).1

abbrev failed : State ℕ
failed = (reconcile_phases refusing before).1
