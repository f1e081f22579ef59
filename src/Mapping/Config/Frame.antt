-- ===== src/Mapping/Config/Frame.antt =====
-- internal/controller/clientprofilemapping_controller.go: what the callback on the config map leaves as it is.
use ceph_csi_operator.Mapping.Config.{
  Env, State, store_text, store_scan, after_owner, own, mutate_mapping, find_owner, mapping_key,
}
use ceph_csi_operator.Api.Meta.{ConfigMap}
use ceph_csi_operator.Prelude.Result.{Result, ok, err, panic}
use ceph_csi_operator.Api.Client.{Codec}
use ceph_csi_operator.Profile.ConfigFile.Frame.{entry_of, entry_of-put_data}
use ceph_csi_operator.Mapping.{CsiClusterMappingRecord, Scan, scan_items, no_scan}
use ceph_csi_operator.Prelude.{String, false, List, ◌≡◌, ◌==◌, refl}

module _ (key : String) (other : (mapping_key == key) ≡ false) where
  store_text-kept :
      (r : Result String) (config_map : ConfigMap)
      → entry_of key (store_text r config_map).1 ≡ entry_of key config_map
  unfolding store_text
  store_text-kept (ok text) config_map = entry_of-put_data mapping_key key text config_map other
  store_text-kept (err e) config_map = refl
  store_text-kept panic config_map = refl

  store_scan-kept :
      (codec : Codec (List CsiClusterMappingRecord)) (r : Result (Unit {0})) (scan : Scan)
      (config_map : ConfigMap)
      → entry_of key (store_scan codec r scan config_map).1 ≡ entry_of key config_map
  unfolding store_scan
  store_scan-kept codec (ok u) scan config_map =
      store_text-kept (codec.marshal scan.csi_cluster_mappings_list) config_map
  store_scan-kept codec (err e) scan config_map = refl
  store_scan-kept codec panic scan config_map = refl

module _ {W : Type 0} (env : Env W) (key : String) (other : (mapping_key == key) ≡ false) where
  after_owner-kept :
      (s : State W) (r : Result (Unit {0})) (config_map : ConfigMap)
      → entry_of key (after_owner env s r config_map).1 ≡ entry_of key config_map
  unfolding after_owner
  after_owner-kept s (ok u) config_map =
      let (r, scan) = scan_items s.items no_scan in
      store_scan-kept key other env.codec r scan config_map
  after_owner-kept s (err e) config_map = refl
  after_owner-kept s panic config_map = refl

  -- The entries but its own
  pub mutate_mapping-kept :
      (s : State W) (config_map : ConfigMap)
      → entry_of key (mutate_mapping env s config_map).1 ≡ entry_of key config_map
  unfolding mutate_mapping
  mutate_mapping-kept s config_map =
      let (r, m) = own env (find_owner s.req s.items) config_map.metadata in
      after_owner-kept s r (record config_map { metadata = m })
