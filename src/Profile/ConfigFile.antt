-- ===== src/Profile/ConfigFile.antt =====
-- The callback of `reconcileCephCsiClusterInfo`, which changes the config map.
pub mod Laws
pub mod Frame
use ceph_csi_operator.Api.Client.{Codec}
use ceph_csi_operator.Profile.State.{Env, State}
use ceph_csi_operator.Api.Meta.{ConfigMap}
use ceph_csi_operator.Utils.Meta.{toggle_owner_reference}
use ceph_csi_operator.Prelude.Assoc.{lookup, insert}
use ceph_csi_operator.Prelude.Result.{Result, Method, ok, err, panic}
use ceph_csi_operator.Profile.Record.{CsiClusterInfoRecord, compose_csi_cluster_info_record}
use ceph_csi_operator.Profile.Entries.{update_entries}
use ceph_csi_operator.Prelude.{
  String, deref, some, List, [], Option, Bool, if◌then◌else◌, not, ◌==◌,
}

abbrev pub config_key : String
config_key = "config.json"

-- `csiConfigMap.Data[key]`, with "" for a missing key and a nil map
abbrev pub data_at : String → ConfigMap → String
data_at key config_map = deref (lookup key (deref config_map.content [])) ""

-- `csiConfigMap.Data[key] = value`, on a map that is made where it is nil
abbrev pub put_data : String → String → ConfigMap → ConfigMap
put_data key value config_map = record config_map {
  content = some (insert key value (deref config_map.content []));
}

module _ (codec : Codec (List (Option CsiClusterInfoRecord))) where
  -- The parsed list; no text is an empty list.
  unfoldable pub parse_entries : String → Result (List (Option CsiClusterInfoRecord))
  parse_entries configs_as_json =
      if configs_as_json == "" then ok [] else codec.unmarshal configs_as_json

  store_text : Result String → Method ConfigMap (Unit {0})
  store_text (ok text) config_map = (ok tt, put_data config_key text config_map)
  store_text (err e) config_map = (err e, config_map)
  store_text panic config_map = (panic, config_map)

  store_entries : Result (List (Option CsiClusterInfoRecord)) → Method ConfigMap (Unit {0})
  unfolding store_text
  store_entries (ok entries) config_map = store_text (codec.marshal entries) config_map
  store_entries (err e) config_map = (err e, config_map)
  store_entries panic config_map = (panic, config_map)

  -- The parsed list is changed and written back.
  pub change_file :
      Bool
      → String
      → CsiClusterInfoRecord
      → Result (List (Option CsiClusterInfoRecord))
      → Method ConfigMap (Unit {0})
  unfolding store_entries
  change_file clean_up name entry (ok entries) config_map =
      store_entries (update_entries clean_up name entry entries) config_map
  change_file clean_up name entry (err e) config_map = (err e, config_map)
  change_file clean_up name entry panic config_map = (panic, config_map)

module _ {W : Type 0} (env : Env W) where
  after_toggle : State W → Result Bool → Method ConfigMap (Unit {0})
  unfolding parse_entries change_file lookup insert
  after_toggle s (ok changed) config_map =
      change_file env.codec s.clean_up s.client_profile.metadata.name
        (compose_csi_cluster_info_record s.client_profile s.ceph_conn (some s.replication))
        (parse_entries env.codec (data_at config_key config_map)) config_map
  after_toggle s (err e) config_map = (err e, config_map)
  after_toggle s panic config_map = (panic, config_map)

  -- The callback, over the receiver that it reads.
  unfoldable pub mutate_config_map : State W → Method ConfigMap (Unit {0})
  unfolding after_toggle toggle_owner_reference
  mutate_config_map s config_map =
      let (r, m) =
        toggle_owner_reference env.util (not s.clean_up) s.client_profile.metadata
          config_map.metadata in
      after_toggle s r (record config_map { metadata = m })
