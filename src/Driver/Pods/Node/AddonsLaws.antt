-- ===== src/Driver/Pods/Node/AddonsLaws.antt =====
-- internal/controller/driver_controller.go: the daemon set for csi-addons, its mounts, and an annotation
-- that is not a Boolean.
use ceph_csi_operator.Api.Driver.{Foreign, Given, built_in}
use ceph_csi_operator.Driver.State.{Env, State, annotations_of}
use ceph_csi_operator.Driver.Pods.Node.Addons.{
  reconcile_node_plugin_daemon_set_for_csi_addons, addons_daemon_set_spec, addons_volumes,
  addons_containers, volume_condition_of, parse_bool, node_addons_container, addons_step,
  driver_csi_addons_feature_volume_condition,
}
use ceph_csi_operator.Driver.Pods.Mounts.{
  MountsIn, All-appended, keys_of, mem_key-right, KeysIn, log_volumes-in, mem_key-left, All-under,
}
use ceph_csi_operator.Prelude.Assoc.{lookup}
use ceph_csi_operator.Driver.Pods.Controller.{log_rotation}
use ceph_csi_operator.Prelude.Result.{err, other}
use ceph_csi_operator.Prelude.Keyed.{mem_key}
use ceph_csi_operator.Api.Pods.{Container}
use ceph_csi_operator.Utils.Csi.Volumes.{
  Volume, plugin_dir_volume, plugin_mount_dir_volume, logs_dir_volume_name, pods_mount_dir_volume,
  log_rotate_dir_volume_name, plugin_mount_dir_volume_name, pods_mount_dir_volume_name,
}
use ceph_csi_operator.Utils.Csi.Mounts.{
  logs_dir_volume_mount, plugin_dir_volume_mount, VolumeMount, log_rotate_dir_volume_mount,
  plugin_mount_dir_volume_mount, pods_mount_dir_volume_mount,
}
use ceph_csi_operator.Driver.Pods.Node.{node_log_rotator_container, node_spec}
use ceph_csi_operator.Driver.Pods.{log_volumes, appended, mount_key, volume_key, kubelet_dir_of}
use ceph_csi_operator.Prelude.{
  Bool, String, true, false, some, List, [], ◌∷◌, ◌++◌, ◌==◌, is_some, arith, All, refl, ◌≡◌,
  any_of, All-append,
}

module _ {W : Type 0} {F : Foreign} (env : Env W F) (s : State W F) where
  module _ (name : String) (condition : Bool) where
    abbrev plugin_volumes : List (Given Volume F.volume)
    plugin_volumes =
        built_in (plugin_dir_volume (kubelet_dir_of (node_spec s)) s.driver.metadata.name) ∷ []

    abbrev rotation_volumes : List (Given Volume F.volume)
    rotation_volumes = log_volumes (log_rotation s) name s.driver.metadata.name

    abbrev condition_volumes : List (Given Volume F.volume)
    condition_volumes = appended condition (
        built_in (plugin_mount_dir_volume (kubelet_dir_of (node_spec s)))
        ∷ built_in (pods_mount_dir_volume (kubelet_dir_of (node_spec s)))
        ∷ [])

    abbrev own_keys : List String
    own_keys = keys_of env (addons_volumes s condition name)

    IsOwn : Given VolumeMount F.volume_mount → Type 0
    IsOwn m = mem_key (mount_key env m) own_keys ≡ true

    logs-in :
        is_some (log_rotation s) ≡ true
        → IsOwn (built_in logs_dir_volume_mount) × IsOwn (built_in log_rotate_dir_volume_mount)
    unfolding addons_volumes IsOwn
    logs-in e =
        let (dir, rotate) = log_volumes-in env (log_rotation s) name s.driver.metadata.name e in
        (
          mem_key-left (volume_key env) logs_dir_volume_name (plugin_volumes ++ rotation_volumes)
              condition_volumes
              (mem_key-right (volume_key env) logs_dir_volume_name plugin_volumes rotation_volumes
                dir),
          mem_key-left (volume_key env) log_rotate_dir_volume_name
              (plugin_volumes ++ rotation_volumes) condition_volumes
              (mem_key-right (volume_key env) log_rotate_dir_volume_name plugin_volumes
                rotation_volumes rotate),
        )

    -- The names of the volumes for the condition
    condition-in :
        (k : String) → mem_key k (keys_of env condition_volumes) ≡ true → mem_key k own_keys ≡ true
    unfolding addons_volumes
    condition-in k =
        mem_key-right (volume_key env) k (plugin_volumes ++ rotation_volumes) condition_volumes

    addons-IsOwn : All IsOwn (node_addons_container s condition).volume_mounts
    unfolding node_addons_container addons_volumes IsOwn
    addons-IsOwn =
        let first = built_in plugin_dir_volume_mount ∷ [] in
        let rotated = is_some (log_rotation s) in
        All-append IsOwn (first ++ appended rotated (built_in logs_dir_volume_mount ∷ []))
          (appended condition (
            built_in (plugin_mount_dir_volume_mount (kubelet_dir_of (node_spec s)))
            ∷ built_in (pods_mount_dir_volume_mount (kubelet_dir_of (node_spec s)))
            ∷ []))
          (All-appended IsOwn first rotated (built_in logs_dir_volume_mount) (refl, tt)
            (λ e. (logs-in e).0))
          (All-under IsOwn condition _ λ e. (
            condition-in plugin_mount_dir_volume_name (rw e refl),
            (condition-in pods_mount_dir_volume_name (rw e refl), tt),
          ))

    abbrev IsMounted : Container F → Type 0
    IsMounted c = KeysIn (mount_key env) own_keys c.volume_mounts

    -- Every mount of every container of the csi-addons pod names a volume of the pod.
    pub addons_daemon_set_spec-MountsIn :
        MountsIn env
          (addons_daemon_set_spec env s condition name).template.spec.volumes
          (addons_daemon_set_spec env s condition name).template.spec.containers
    unfolding addons_daemon_set_spec addons_containers IsOwn
    addons_daemon_set_spec-MountsIn =
        All-appended IsMounted (node_addons_container s condition ∷ []) (is_some (log_rotation s))
          (node_log_rotator_container s) (addons-IsOwn, tt)
          (λ e. ((logs-in e).0, ((logs-in e).1, tt)))

  -- An annotation that is set and that is none of the twelve texts for a Boolean stops the step with an
  -- error and no call of the cluster, also where the daemon set is to be deleted.
  pub reconcile_node_plugin_daemon_set_for_csi_addons-refused :
      (feature : String) (w : W)
      → lookup driver_csi_addons_feature_volume_condition (annotations_of s.driver.metadata)
        ≡ some feature
      → (feature == "") ≡ false
      → any_of
          (λ known. known == feature)
          ("1" ∷ "t" ∷ "T" ∷ "TRUE" ∷ "true" ∷ "True" ∷ "0" ∷ "f" ∷ "F" ∷ "FALSE" ∷ "false"
            ∷ "False" ∷ [])
        ≡ false
      → reconcile_node_plugin_daemon_set_for_csi_addons env s w ≡ (err (other "invalid syntax"), w)
  unfolding reconcile_node_plugin_daemon_set_for_csi_addons volume_condition_of parse_bool
      addons_step
  reconcile_node_plugin_daemon_set_for_csi_addons-refused feature w h set unknown =
      rw (h, set) (ground (arith, unknown))
