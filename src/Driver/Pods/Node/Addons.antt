-- ===== src/Driver/Pods/Node/Addons.antt =====
-- internal/controller/driver_controller.go: `reconcileNodePluginDaemonSetForCsiAddons`.
use ceph_csi_operator.Api.Driver.{Foreign, Given, Driver, built_in}
use ceph_csi_operator.Prelude.Result.{Result, ok, ignore_not_found, err, other, panic}
use ceph_csi_operator.Driver.State.{State, Env, annotations_of}
use ceph_csi_operator.Driver.Pods.{
  arguments, app_labels, is_nfs_driver, appended, image_of, verbosity_of, privileged_context,
  strategy_of, default_daemon_set_update_strategy, kubelet_dir_of, log_volumes, service_account,
}
use ceph_csi_operator.Driver.Names.{generate_name}
use ceph_csi_operator.Prelude.Assoc.{lookup}
use ceph_csi_operator.Driver.Pods.Node.{
  mutate_daemon_set, write_daemon_set, node_spec, node_pull_policy, node_log_rotator_container,
}
use ceph_csi_operator.Utils.Csi.Args.{
  csi_addons_node_id_container_arg, log_verbosity_container_arg, csi_addons_address_container_arg,
  container_port_arg, pod_container_arg, namespace_container_arg, pod_uid_container_arg,
  staging_path_container_arg, log_file_container_arg, csi_addons_volume_condition_arg,
}
use ceph_csi_operator.Api.Pods.{Container, DaemonSetSpec}
use ceph_csi_operator.Utils.Csi.Volumes.{
  Volume, plugin_dir_volume, plugin_mount_dir_volume, pods_mount_dir_volume,
}
use ceph_csi_operator.Driver.Pods.Controller.{log_rotation}
use ceph_csi_operator.Utils.Csi.Mounts.{
  node_plugin_csi_addons_container_port, node_id_env_var, pod_uid_env_var, pod_name_env_var,
  pod_namespace_env_var, plugin_dir_volume_mount, logs_dir_volume_mount,
  plugin_mount_dir_volume_mount, pods_mount_dir_volume_mount,
}
use ceph_csi_operator.Utils.Core.{choose}
use ceph_csi_operator.Prelude.{
  Bool, String, true, false, some, List, [], ◌∷◌, ◌++◌, ◌==◌, ◌&&◌, not, if◌then◌else◌, deref,
  is_some, any_of,
}

-- `driverCSIAddonsFeatureVolumeCondition`
abbrev pub driver_csi_addons_feature_volume_condition : String
driver_csi_addons_feature_volume_condition = "addons.csi.ceph.io/volume-condition"

-- `strconv.ParseBool`
unfoldable pub parse_bool : String → Result Bool
parse_bool text =
    if any_of (λ known. known == text) ("1" ∷ "t" ∷ "T" ∷ "TRUE" ∷ "true" ∷ "True" ∷ [])
    then ok true
    else if any_of (λ known. known == text) ("0" ∷ "f" ∷ "F" ∷ "FALSE" ∷ "false" ∷ "False" ∷ [])
    then ok false
    else err (other "invalid syntax")

module _ {W : Type 0} {F : Foreign} where
  -- The arguments of the csi-addons container that the code gives
  unfoldable pub node_addons_args : State W F → Bool → List String
  node_addons_args s volume_condition =
      csi_addons_node_id_container_arg
      ∷ log_verbosity_container_arg (verbosity_of s.driver.spec.log)
      ∷ csi_addons_address_container_arg
      ∷ container_port_arg node_plugin_csi_addons_container_port
      ∷ pod_container_arg
      ∷ namespace_container_arg
      ∷ pod_uid_container_arg
      ∷ staging_path_container_arg (kubelet_dir_of (node_spec s))
      ∷ choose (is_some (log_rotation s)) (log_file_container_arg "csi-addons") ""
      ∷ choose volume_condition csi_addons_volume_condition_arg ""
      ∷ []

  unfoldable pub node_addons_container : State W F → Bool → Container F
  unfolding node_addons_args
  node_addons_container s volume_condition = record {
    name = "csi-addons";
    image = image_of s.images "addons";
    image_pull_policy = node_pull_policy s;
    security_context = some privileged_context;
    command = [];
    args =
        arguments "csi-addons" (node_spec s).container_extra_args
          (node_addons_args s volume_condition);
    ports = node_plugin_csi_addons_container_port ∷ [];
    env = node_id_env_var ∷ pod_uid_env_var ∷ pod_name_env_var ∷ pod_namespace_env_var ∷ [];
    volume_mounts =
        built_in plugin_dir_volume_mount ∷ []
        ++ appended (is_some (log_rotation s)) (built_in logs_dir_volume_mount ∷ [])
        ++ appended volume_condition (
            built_in (plugin_mount_dir_volume_mount (kubelet_dir_of (node_spec s)))
            ∷ built_in (pods_mount_dir_volume_mount (kubelet_dir_of (node_spec s)))
            ∷ []);
    resources = (node_spec s).resources.addons;
  }

  unfoldable pub addons_containers : State W F → Bool → List (Container F)
  unfolding node_addons_container
  addons_containers s volume_condition =
      node_addons_container s volume_condition
      ∷ appended (is_some (log_rotation s)) (node_log_rotator_container s ∷ [])

  unfoldable pub addons_volumes : State W F → Bool → String → List (Given Volume F.volume)
  addons_volumes s volume_condition daemon_set_name =
      built_in (plugin_dir_volume (kubelet_dir_of (node_spec s)) s.driver.metadata.name) ∷ []
      ++ log_volumes (log_rotation s) daemon_set_name s.driver.metadata.name
      ++ appended volume_condition (
          built_in (plugin_mount_dir_volume (kubelet_dir_of (node_spec s)))
          ∷ built_in (pods_mount_dir_volume (kubelet_dir_of (node_spec s)))
          ∷ [])

module _ {W : Type 0} {F : Foreign} (env : Env W F) where
  -- The spec of the daemon set, over its name
  unfoldable pub addons_daemon_set_spec : State W F → Bool → String → DaemonSetSpec F
  unfolding app_labels addons_containers addons_volumes
  addons_daemon_set_spec s volume_condition app_name =
      let spec = node_spec s in
      record {
        selector = ("app", app_name) ∷ [];
        update_strategy = strategy_of spec.update_strategy default_daemon_set_update_strategy;
        template = record {
          labels = app_labels spec.pod_common.labels app_name;
          annotations = spec.pod_common.annotations;
          spec = record {
            service_account_name =
                service_account env spec.pod_common.service_account_name s.driver_type
                  "-nodeplugin-sa";
            priority_class_name = deref spec.pod_common.priorityl_class_name "";
            host_network = false;
            host_pid = false;
            dns_policy = "ClusterFirstWithHostNet";
            affinity = spec.pod_common.affinity;
            tolerations = spec.pod_common.tolerations;
            containers = addons_containers s volume_condition;
            volumes = addons_volumes s volume_condition app_name;
          };
        };
      }

  -- The feature of the driver's annotations, `ok false` where there is none
  unfoldable pub volume_condition_of : Driver F → Result Bool
  unfolding parse_bool lookup
  volume_condition_of driver =
      let feature =
        deref (lookup driver_csi_addons_feature_volume_condition (annotations_of driver.metadata))
          "" in
      if feature == "" then ok false else parse_bool feature

  abbrev pub with_daemon_set : State W F → Bool
  with_daemon_set s =
      not (is_nfs_driver s.driver_type) && deref s.driver.spec.deploy_csi_addons false

  delete_daemon_set : State W F → String → W → Result (Unit {0}) × W
  delete_daemon_set s name w =
      let (r, w') =
        env.daemon_sets.delete (record { name = name; namespace = s.driver.metadata.namespace })
          w in
      (ignore_not_found r, w')

  -- The step behind the feature
  unfoldable pub addons_step : State W F → String → Result Bool → W → Result (Unit {0}) × W
  unfolding delete_daemon_set addons_daemon_set_spec mutate_daemon_set
  addons_step s name (ok volume_condition) w =
      if with_daemon_set s
      then write_daemon_set env s name (addons_daemon_set_spec s volume_condition) w
      else delete_daemon_set s name w
  addons_step s name (err e) w = (err e, w)
  addons_step s name panic w = (panic, w)

  -- `reconcileNodePluginDaemonSetForCsiAddons`
  unfoldable pub reconcile_node_plugin_daemon_set_for_csi_addons :
      State W F → W → Result (Unit {0}) × W
  unfolding addons_step volume_condition_of generate_name
  reconcile_node_plugin_daemon_set_for_csi_addons s =
      addons_step s (generate_name s.driver.metadata.name "nodeplugin-csi-addons")
        (volume_condition_of s.driver)
