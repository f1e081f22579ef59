-- ===== src/Mapping/Config.antt =====
-- The reconcile iteration of a ClientProfileMapping, which writes the mapping to the config map.
pub mod Laws
pub mod Frame
-- What the iteration calls
use ceph_csi_operator.Utils.Meta.{toggle_owner_reference}
use ceph_csi_operator.Prelude.{
  String, Option, Bool, List, none, ◌∷◌, some, true, if◌then◌else◌, ◌==◌, ◌&&◌, [],
}
use ceph_csi_operator.Api.Client.{Codec, Store, Ctrlutil}
use ceph_csi_operator.Api.Meta.{ObjectKey, ConfigMap, named, ObjectMeta}
use ceph_csi_operator.Prelude.Result.{Method, Result, ok, err, panic, only_error}
use ceph_csi_operator.Mapping.{scan_items, CsiClusterMappingRecord, no_scan, Scan}
use ceph_csi_operator.Api.Profile.{ClientProfileMapping}
use ceph_csi_operator.Driver.State.{}
use ceph_csi_operator.Profile.ConfigFile.{put_data}
use ceph_csi_operator.Utils.Csi.Volumes.{csi_config_volume}

pub record Env (W : Type 0) : Type 0 where
  pub mappings : Store W ClientProfileMapping
  pub config_maps : Store W ConfigMap
  pub util : Ctrlutil
  pub codec : Codec (List CsiClusterMappingRecord)

-- `ClientProfileMappingReconcile`: the request and the loaded list
pub record State (W : Type 0) : Type 0 where
  pub req : ObjectKey
  pub items : List ClientProfileMapping
  pub world : W

-- The item that is reconciled, where it is in the list
unfoldable pub find_owner : ObjectKey → List ClientProfileMapping → Option ClientProfileMapping
find_owner req [] = none
find_owner req (item ∷ items) =
    let rest = find_owner req items in
    if item.metadata.name == req.name && item.metadata.namespace == req.namespace
    then some item
    else rest

abbrev pub mapping_key : String
mapping_key = "cluster-mapping.json"

unfoldable pub store_text : Result String → Method ConfigMap (Unit {0})
store_text (ok text) config_map = (ok tt, put_data mapping_key text config_map)
store_text (err e) config_map = (err e, config_map)
store_text panic config_map = (panic, config_map)

module _ (codec : Codec (List CsiClusterMappingRecord)) where
  unfoldable pub store_scan : Result (Unit {0}) → Scan → Method ConfigMap (Unit {0})
  unfolding store_text
  store_scan (ok u) scan config_map =
      store_text (codec.marshal scan.csi_cluster_mappings_list) config_map
  store_scan (err e) scan config_map = (err e, config_map)
  store_scan panic scan config_map = (panic, config_map)

module _ {W : Type 0} (env : Env W) where
  toggled : Result Bool → Method ObjectMeta (Unit {0})
  toggled (ok changed) m = (ok tt, m)
  toggled (err e) m = (err e, m)
  toggled panic m = (panic, m)

  unfoldable pub own : Option ClientProfileMapping → Method ObjectMeta (Unit {0})
  unfolding toggled toggle_owner_reference
  own none m = (ok tt, m)
  own (some owner) m =
      let (r, m') = toggle_owner_reference env.util true owner.metadata m in toggled r m'

  unfoldable pub after_owner : State W → Result (Unit {0}) → Method ConfigMap (Unit {0})
  unfolding store_scan scan_items
  after_owner s (ok u) config_map =
      let (r, scan) = scan_items s.items no_scan in store_scan env.codec r scan config_map
  after_owner s (err e) config_map = (err e, config_map)
  after_owner s panic config_map = (panic, config_map)

  -- The callback
  unfoldable pub mutate_mapping : State W → Method ConfigMap (Unit {0})
  unfolding after_owner own find_owner
  mutate_mapping s config_map =
      let (r, m) = own (find_owner s.req s.items) config_map.metadata in
      after_owner s r (record config_map { metadata = m })

  -- `reconcileCephCsiBlockPoolMapping`
  unfoldable pub reconcile_block_pool_mapping : Method (State W) (Unit {0})
  unfolding mutate_mapping
  reconcile_block_pool_mapping s =
      let (r, config_map, w) =
        env.config_maps.create_or_update
          (record { metadata = named csi_config_volume.name s.req.namespace; content = none })
          (mutate_mapping s) s.world in
      (only_error r, record s { world = w })

  loaded : Result (List ClientProfileMapping) → Method (State W) (Unit {0})
  unfolding reconcile_block_pool_mapping
  loaded (ok items) s = reconcile_block_pool_mapping (record s { items = items })
  loaded (err e) s = (err e, s)
  loaded panic s = (panic, s)

  -- `reconcile`
  unfoldable pub reconcile : Method (State W) (Unit {0})
  unfolding loaded
  reconcile s =
      let (r, w) = env.mappings.list s.req.namespace s.world in loaded r (record s { world = w })
