-- ===== src/Mapping/Config/Laws.antt =====
-- What the config map holds behind a reconcile iteration.
use ceph_csi_operator.Mapping.Config.{
  Env, State, own, find_owner, mutate_mapping, mapping_key, after_owner, store_scan, store_text,
}
use ceph_csi_operator.Api.Meta.{ConfigMap, ObjectMeta}
use ceph_csi_operator.Mapping.Groups.{Entry, Says, all_mappings, render, group_all}
use ceph_csi_operator.Prelude.Result.{ok}
use ceph_csi_operator.Profile.ConfigFile.{put_data}
use ceph_csi_operator.Mapping.Refines.{scan_items-groups}
use ceph_csi_operator.Prelude.{[], List, String, ◌≡◌, map, refl}

module _ {W : Type 0} (env : Env W) where
  -- The callback, where the owner reference does not fail and the groups can be marshalled: the text of
  -- the groups stands under the key of the mapping.
  pub mutate_mapping-written :
      (s : State W) (config_map : ConfigMap) (entries : List Entry) (text : String) (m : ObjectMeta)
      → Says (all_mappings s.items) entries
      → own env (find_owner s.req s.items) config_map.metadata ≡ (ok tt, m)
      → env.codec.marshal (map render (group_all entries [])) ≡ ok text
      → mutate_mapping env s config_map
        ≡ (ok tt, put_data mapping_key text (record config_map { metadata = m }))
  unfolding mutate_mapping after_owner store_scan store_text
  mutate_mapping-written s config_map entries text m says h j =
      let (scan, e, r) = scan_items-groups s.items entries says in rw h (rw e (rw r (rw j refl)))
