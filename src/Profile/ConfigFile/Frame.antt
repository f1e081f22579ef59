-- ===== src/Profile/ConfigFile/Frame.antt =====
-- internal/controller/clientprofile_controller.go: what the callback on the config map leaves as it is.
use ceph_csi_operator.Profile.State.{Env, State}
use ceph_csi_operator.Api.Meta.{ConfigMap}
use ceph_csi_operator.Api.Client.{Codec}
use ceph_csi_operator.Profile.ConfigFile.{
  store_text, config_key, put_data, store_entries, after_toggle, mutate_config_map, change_file,
  parse_entries, data_at,
}
use ceph_csi_operator.Prelude.Assoc.{lookup, lookup-insert}
use ceph_csi_operator.Profile.Record.{CsiClusterInfoRecord, compose_csi_cluster_info_record}
use ceph_csi_operator.Prelude.Result.{Result, ok, err, panic}
use ceph_csi_operator.Utils.Meta.{toggle_owner_reference}
use ceph_csi_operator.Profile.Entries.{update_entries}
use ceph_csi_operator.Prelude.{
  String, Bool, false, Option, some, List, [], ◌≡◌, ◌==◌, refl, deref, ◌∙◌, not,
}

-- `csiConfigMap.Data[key]`, if it is there
abbrev pub entry_of : String → ConfigMap → Option String
entry_of key config_map = lookup key (deref config_map.content [])

pub entry_of-put_data :
    (key other text : String) (config_map : ConfigMap)
    → (key == other) ≡ false
    → entry_of other (put_data key text config_map) ≡ entry_of other config_map
entry_of-put_data key other text config_map h =
    lookup-insert key other text (deref config_map.content []) ∙ rw h refl

module _ (codec : Codec (List (Option CsiClusterInfoRecord))) (key : String)
    (other : (config_key == key) ≡ false) where
  store_text-kept :
      (r : Result String) (config_map : ConfigMap)
      → entry_of key (store_text codec r config_map).1 ≡ entry_of key config_map
  unfolding store_text
  store_text-kept (ok text) config_map = entry_of-put_data config_key key text config_map other
  store_text-kept (err e) config_map = refl
  store_text-kept panic config_map = refl

  store_entries-kept :
      (r : Result (List (Option CsiClusterInfoRecord))) (config_map : ConfigMap)
      → entry_of key (store_entries codec r config_map).1 ≡ entry_of key config_map
  unfolding store_entries
  store_entries-kept (ok entries) config_map = store_text-kept (codec.marshal entries) config_map
  store_entries-kept (err e) config_map = refl
  store_entries-kept panic config_map = refl

  change_file-kept :
      (clean_up : Bool) (name : String) (entry : CsiClusterInfoRecord)
      (r : Result (List (Option CsiClusterInfoRecord))) (config_map : ConfigMap)
      → entry_of key (change_file codec clean_up name entry r config_map).1
        ≡ entry_of key config_map
  unfolding change_file
  change_file-kept clean_up name entry (ok entries) config_map =
      store_entries-kept (update_entries clean_up name entry entries) config_map
  change_file-kept clean_up name entry (err e) config_map = refl
  change_file-kept clean_up name entry panic config_map = refl

module _ {W : Type 0} (env : Env W) (key : String) (other : (config_key == key) ≡ false) where
  after_toggle-kept :
      (s : State W) (r : Result Bool) (config_map : ConfigMap)
      → entry_of key (after_toggle env s r config_map).1 ≡ entry_of key config_map
  unfolding after_toggle
  after_toggle-kept s (ok changed) config_map =
      change_file-kept env.codec key other s.clean_up s.client_profile.metadata.name
        (compose_csi_cluster_info_record s.client_profile s.ceph_conn (some s.replication))
        (parse_entries env.codec (data_at config_key config_map)) config_map
  after_toggle-kept s (err e) config_map = refl
  after_toggle-kept s panic config_map = refl

  -- The entries but its own
  pub mutate_config_map-kept :
      (s : State W) (config_map : ConfigMap)
      → entry_of key (mutate_config_map env s config_map).1 ≡ entry_of key config_map
  unfolding mutate_config_map
  mutate_config_map-kept s config_map =
      let (r, m) =
        toggle_owner_reference env.util (not s.clean_up) s.client_profile.metadata
          config_map.metadata in
      after_toggle-kept s r (record config_map { metadata = m })
