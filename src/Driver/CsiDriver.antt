-- ===== src/Driver/CsiDriver.antt =====
-- internal/controller/driver_controller.go: `reconcileK8sCsiDriver`
use ceph_csi_operator.Driver.State.{Env, State, owner_ref_annotation_key}
use ceph_csi_operator.Api.Cluster.{CsiDriver}
use ceph_csi_operator.Utils.Meta.{add_annotation}
use ceph_csi_operator.Prelude.Result.{Result, ok, Method, err, panic, is_invalid, only_error}
use ceph_csi_operator.Prelude.{
  String, none, if◌then◌else◌, some, true, not, ptr_or, ◌==◌, str_or, ◌&&◌,
}
use ceph_csi_operator.Api.Meta.{object_key, named}
use ceph_csi_operator.Api.Client.{OperationResult}
use ceph_csi_operator.Api.Driver.{Foreign, Driver}

module _ {W : Type 0} {F : Foreign} (env : Env W F) where
  -- The callback behind the owner's key as text
  unfoldable pub annotated : Driver F → Result String → Method CsiDriver (Unit {0})
  unfolding add_annotation
  annotated driver (ok text) csi_driver =
      let (m, added) = add_annotation csi_driver.metadata owner_ref_annotation_key text in
      (
        ok tt,
        record csi_driver {
          metadata = m;
          spec = record {
            pod_info_on_mount = some true;
            attach_required = ptr_or driver.spec.attach_required (some true);
            fs_group_policy = some (str_or driver.spec.fs_group_policy "File");
            se_linux_mount = some true;
          };
        },
      )
  annotated driver (err e) csi_driver = (err e, csi_driver)
  annotated driver panic csi_driver = (panic, csi_driver)

  unfoldable pub mutate_csi_driver : Driver F → Method CsiDriver (Unit {0})
  unfolding annotated
  mutate_csi_driver driver csi_driver =
      annotated driver (env.key_codec.marshal (object_key driver.metadata)) csi_driver

  -- The object that is created again: the name, labels, annotations and spec of the old one
  abbrev pub recreation : CsiDriver → CsiDriver
  recreation csi_driver = record {
    metadata = record (named csi_driver.metadata.name "") {
      annotations = csi_driver.metadata.annotations;
    };
    labels = csi_driver.labels;
    spec = csi_driver.spec;
  }

  create_again : CsiDriver → Result (Unit {0}) → W → Result (Unit {0}) × W
  create_again csi_driver (ok u) w =
      let (r, w') = env.csi_drivers.create (recreation csi_driver) w in (only_error r, w')
  create_again csi_driver (err e) w = (err e, w)
  create_again csi_driver panic w = (panic, w)

  recreate : CsiDriver → W → Result (Unit {0}) × W
  unfolding create_again
  recreate csi_driver w =
      let (r, w') = env.csi_drivers.delete (object_key csi_driver.metadata) w in
      create_again csi_driver r w'

  -- An existing driver that cannot be updated, since a field of it is immutable, is made again.
  unfoldable pub csi_driver_written : Result OperationResult → CsiDriver → W → Result (Unit {0}) × W
  unfolding recreate
  csi_driver_written (ok op) csi_driver w = (ok tt, w)
  csi_driver_written (err e) csi_driver w =
      if not (csi_driver.metadata.uid == "") && is_invalid e
      then recreate csi_driver w
      else (err e, w)
  csi_driver_written panic csi_driver w = (panic, w)

  abbrev pub new_csi_driver : String → CsiDriver
  new_csi_driver name = record {
    metadata = named name "";
    labels = none;
    spec = record {
      pod_info_on_mount = none;
      attach_required = none;
      fs_group_policy = none;
      se_linux_mount = none;
    };
  }

  -- `reconcileK8sCsiDriver`, which reads the receiver
  unfoldable pub reconcile_k8s_csi_driver : State W F → W → Result (Unit {0}) × W
  unfolding mutate_csi_driver csi_driver_written
  reconcile_k8s_csi_driver s w =
      let (r, csi_driver, w') =
        env.csi_drivers.create_or_update (new_csi_driver s.driver.metadata.name)
          (mutate_csi_driver s.driver) w in
      csi_driver_written r csi_driver w'
