-- ===== src/Driver/Load.antt =====
-- internal/controller/driver_controller.go: `LoadAndValidateDesiredState`
pub mod Owner
pub mod Settings
pub mod Images
pub mod Kept
use ceph_csi_operator.Prelude.Assoc.{Assoc, copy, lookup}
use ceph_csi_operator.Prelude.{
  String, Option, ◌∷◌, [], deref, some, if◌then◌else◌, none, ◌==◌, ◌&&◌,
}
use ceph_csi_operator.Driver.State.{Env, State, owner_ref_annotation_key, annotations_of}
use ceph_csi_operator.Prelude.Result.{Result, Method, ok, ◌>>◌, err, other, not_found, panic}
use ceph_csi_operator.Api.Cluster.{CsiDriver}
use ceph_csi_operator.Driver.Merge.{merge_driver_specs}
use ceph_csi_operator.Api.Meta.{ConfigMap, ObjectKey, object_key}
use ceph_csi_operator.Driver.Names.{match_name}
use ceph_csi_operator.Prelude.Text.{◌<>◌}
use ceph_csi_operator.Api.Driver.{Foreign, OperatorConfig, DriverSpec, Driver}

-- `imageDefaults`
abbrev pub image_defaults : Assoc String
image_defaults =
    ("provisioner", "registry.k8s.io/sig-storage/csi-provisioner:v6.2.0")
    ∷ ("attacher", "registry.k8s.io/sig-storage/csi-attacher:v4.12.0")
    ∷ ("resizer", "registry.k8s.io/sig-storage/csi-resizer:v2.1.0")
    ∷ ("snapshotter", "registry.k8s.io/sig-storage/csi-snapshotter:v8.5.0")
    ∷ ("registrar", "registry.k8s.io/sig-storage/csi-node-driver-registrar:v2.17.0")
    ∷ ("snapshot-metadata", "registry.k8s.io/sig-storage/csi-snapshot-metadata:v1.0.0")
    ∷ ("plugin", "quay.io/cephcsi/cephcsi:v3.17.0")
    ∷ ("addons", "quay.io/csiaddons/k8s-sidecar:v0.14.0")
    ∷ []

module _ {W : Type 0} {F : Foreign} (env : Env W F) where
  -- The owner that the annotation names has to be this driver.
  unfoldable pub same_owner : Result ObjectKey → Method (State W F) (Unit {0})
  same_owner (ok owner) s =
      if s.driver.metadata.namespace == owner.namespace && s.driver.metadata.name == owner.name
      then (ok tt, s)
      else (err (other "invalid driver name"), s)
  same_owner (err e) s = (err e, s)
  same_owner panic s = (panic, s)

  -- A CSIDriver that is there already, by the text of its annotation
  unfoldable pub check_owner : String → Method (State W F) (Unit {0})
  unfolding same_owner
  check_owner owner_ref s =
      if owner_ref == ""
      then (err (other "invalid driver name"), s)
      else same_owner (env.key_codec.unmarshal owner_ref) s

  -- The annotation of the CSIDriver, with "" for none
  abbrev pub owner_ref : CsiDriver → String
  owner_ref csi_driver =
      deref (lookup owner_ref_annotation_key (annotations_of csi_driver.metadata)) ""

  -- The answer to the request for the CSIDriver; one that is not found has no uid.
  unfoldable pub claimed : Result CsiDriver → Method (State W F) (Unit {0})
  unfolding check_owner lookup
  claimed (ok csi_driver) s =
      if csi_driver.metadata.uid == "" then (ok tt, s) else check_owner (owner_ref csi_driver) s
  claimed (err (not_found text)) s = (ok tt, s)
  claimed (err e) s = (err e, s)
  claimed panic s = (panic, s)

  unfoldable pub check_name : Method (State W F) (Unit {0})
  unfolding claimed
  check_name s =
      let (r, w) =
        env.csi_drivers.get (record { name = s.driver.metadata.name; namespace = "" }) s.world in
      claimed r (record s { world = w })

  unfoldable pub put_type : Option String → Method (State W F) (Unit {0})
  put_type (some t) s = (ok tt, record s { driver_type = t })
  put_type none s = (err (other ("invalid driver name " <> s.driver.metadata.name)), s)

  -- The types are in lower case already, so `ToLower` keeps them.
  unfoldable pub load_type : Method (State W F) (Unit {0})
  unfolding put_type
  load_type s = put_type (match_name s.driver.metadata.name) s

  -- The answer to the request for an image set
  unfoldable pub images_answered : Result ConfigMap → Method (State W F) (Unit {0})
  unfolding copy
  images_answered (ok config_map) s =
      (ok tt, record s { images = copy s.images (deref config_map.content []) })
  images_answered (err e) s = (err e, s)
  images_answered panic s = (panic, s)

  -- The image set of a spec, in a namespace
  unfoldable pub load_image_set : Option String → String → Method (State W F) (Unit {0})
  unfolding images_answered
  load_image_set none namespace s = (ok tt, s)
  load_image_set (some name) namespace s =
      if name == ""
      then (ok tt, s)
      else let (r, w) =
          env.config_maps.get (record { name = name; namespace = namespace }) s.world in
        images_answered r (record s { world = w })

  -- The defaults of the operator's configuration
  unfoldable pub apply_defaults : Option (DriverSpec F) → Method (State W F) (Unit {0})
  unfolding load_image_set merge_driver_specs
  apply_defaults none s = (ok tt, s)
  apply_defaults (some defaults) s =
      load_image_set defaults.image_set env.operator_namespace
        (record s { driver = record s.driver { spec = merge_driver_specs s.driver.spec defaults } })

  -- The driver's own image set
  unfoldable pub apply_own_images : Method (State W F) (Unit {0})
  unfolding load_image_set
  apply_own_images s = load_image_set s.driver.spec.image_set s.driver.metadata.namespace s

  -- The driver as the cluster has it
  unfoldable pub driver_answered :
      Option (DriverSpec F) → Result (Driver F) → Method (State W F) (Unit {0})
  unfolding apply_defaults apply_own_images
  driver_answered defaults (ok driver) s =
      (apply_defaults defaults >> apply_own_images)
        (record s { driver = driver; images = image_defaults })
  driver_answered defaults (err e) s = (err e, s)
  driver_answered defaults panic s = (panic, s)

  unfoldable pub load_driver : Option (DriverSpec F) → Method (State W F) (Unit {0})
  unfolding driver_answered
  load_driver defaults s =
      let (r, w) = env.drivers.get (object_key s.driver.metadata) s.world in
      driver_answered defaults r (record s { world = w })

  -- The operator's configuration; one that is not found has no defaults.
  unfoldable pub config_answered : Result (OperatorConfig F) → Method (State W F) (Unit {0})
  unfolding load_driver
  config_answered (ok op_config) s = load_driver op_config.driver_spec_defaults s
  config_answered (err (not_found text)) s = load_driver none s
  config_answered (err e) s = (err e, s)
  config_answered panic s = (panic, s)

  unfoldable pub load_specs : Method (State W F) (Unit {0})
  unfolding config_answered
  load_specs s =
      let (r, w) =
        env.operator_configs.get
          (record { name = env.operator_config_name; namespace = env.operator_namespace })
          s.world in
      config_answered r (record s { world = w })

  unfoldable pub load_and_validate_desired_state : Method (State W F) (Unit {0})
  unfolding check_name load_type load_specs
  load_and_validate_desired_state = do check_name; load_type; load_specs
