-- ===== src/Driver/Pods/Node.antt =====
-- internal/controller/driver_controller.go: `reconcileNodePluginDaemonSet`.
pub mod Addons
pub mod AddonsLaws
pub mod Mounts
use ceph_csi_operator.Api.Driver.{Foreign, NodePluginSpec, Given, Driver, built_in}
use ceph_csi_operator.Api.Pods.{SecurityContext, DaemonSetSpec, Container, DaemonSet}
use ceph_csi_operator.Driver.State.{Env, State}
use ceph_csi_operator.Driver.Pods.{
  arguments, app_labels, pull_if_not_present, with_user_volumes, with_user_mounts, appended,
  node_plugin_of, is_ceph_fs_driver, rotator_container, plugin_name, image_of, strategy_of,
  default_daemon_set_update_strategy, kubelet_dir_of, privileged_context, verbosity_of,
  service_account, liveness_args, is_rbd_or_nvmeof_driver, kms_volumes, log_volumes,
}
use ceph_csi_operator.Prelude.Assoc.{insert, Assoc}
use ceph_csi_operator.Driver.Names.{generate_name}
use ceph_csi_operator.Driver.Pods.Controller.{log_rotation, force_kernel_client, with_topology}
use ceph_csi_operator.Prelude.Text.{ℤ, ◌<>◌}
use ceph_csi_operator.Utils.Csi.Volumes.{
  Volume, host_dev_volume, host_sys_volume, host_run_mount_volume, lib_modules_volume,
  keys_tmp_dir_volume, csi_config_volume, plugin_dir_volume, plugin_mount_dir_volume,
  pods_mount_dir_volume, registration_dir_volume, csi_mount_info_volume, etc_selinux_volume,
  oidc_token_volume,
}
use ceph_csi_operator.Prelude.Result.{Method, Result, only_error}
use ceph_csi_operator.Utils.Csi.Mounts.{
  VolumeMount, pod_ip_env_var, host_dev_volume_mount, node_id_env_var, host_sys_volume_mount,
  plugin_dir_volume_mount, pod_namespace_env_var, host_run_mount_volume_mount,
  lib_modules_volume_mount, registration_dir_volume_mount, keys_tmp_dir_volume_mount,
  csi_config_volume_mount, plugin_mount_dir_volume_mount, pods_mount_dir_volume_mount,
  etc_selinux_volume_mount, kms_config_volume_mount, csi_mount_info_volume_mount,
  oidc_token_volume_mount, logs_dir_volume_mount,
}
use ceph_csi_operator.Api.Meta.{named}
use ceph_csi_operator.Utils.Csi.Args.{
  log_verbosity_container_arg, kubelet_registration_path_container_arg, type_container_arg,
  node_server_container_arg, csi_address_container_arg, node_id_container_arg,
  driver_name_container_arg, set_fencing_container_arg, endpoint_container_arg,
  pidlimit_container_arg, force_ceph_kernel_client_container_arg, csi_addons_endpoint_container_arg,
  staging_path_container_arg, kernel_mount_options_container_arg, fuse_mount_options_container_arg,
  domain_labels_container_arg, log_to_std_err_container_arg, also_log_to_std_err_container_arg,
  log_file_container_arg,
}
use ceph_csi_operator.Driver.Network.{controlled}
use ceph_csi_operator.Utils.Core.{choose}
use ceph_csi_operator.Prelude.{
  Bool, String, true, false, Option, none, some, List, [], ◌∷◌, ◌++◌, ◌==◌, ◌&&◌, ◌||◌, not,
  if◌then◌else◌, deref, is_some, str_or,
}

-- The context of the plugin's container
abbrev pub node_plugin_context : SecurityContext
node_plugin_context = record {
  privileged = some true;
  capabilities = some (record { add = "SYS_ADMIN" ∷ []; drop = "All" ∷ [] });
  allow_privilege_escalation = some true;
}

-- The mounts of the plugin's container in each case, over the kubelet's directory
abbrev pub node_first_mounts : {V : Type 0} → String → List (Given VolumeMount V)
node_first_mounts kubelet_dir_path =
    built_in host_dev_volume_mount
    ∷ built_in host_sys_volume_mount
    ∷ built_in host_run_mount_volume_mount
    ∷ built_in lib_modules_volume_mount
    ∷ built_in keys_tmp_dir_volume_mount
    ∷ built_in plugin_dir_volume_mount
    ∷ built_in csi_config_volume_mount
    ∷ built_in (plugin_mount_dir_volume_mount kubelet_dir_path)
    ∷ built_in (pods_mount_dir_volume_mount kubelet_dir_path)
    ∷ []

-- The volumes in each case, over the kubelet's directory and the name of the driver
abbrev pub node_first_volumes : {V : Type 0} → String → String → List (Given Volume V)
node_first_volumes kubelet_dir_path driver_name =
    built_in host_dev_volume
    ∷ built_in host_sys_volume
    ∷ built_in host_run_mount_volume
    ∷ built_in lib_modules_volume
    ∷ built_in keys_tmp_dir_volume
    ∷ built_in csi_config_volume
    ∷ built_in (plugin_dir_volume kubelet_dir_path driver_name)
    ∷ built_in (plugin_mount_dir_volume kubelet_dir_path)
    ∷ built_in (pods_mount_dir_volume kubelet_dir_path)
    ∷ built_in (registration_dir_volume kubelet_dir_path)
    ∷ []

module _ {W : Type 0} {F : Foreign} where
  -- `pluginSpec`
  abbrev pub node_spec : State W F → NodePluginSpec F
  node_spec s = node_plugin_of s.driver.spec.node_plugin

  abbrev pub node_pull_policy : State W F → String
  node_pull_policy s = str_or (node_spec s).pod_common.image_pull_policy pull_if_not_present

  -- The arguments of the plugin's container that the code gives
  unfoldable pub node_plugin_args : State W F → List String
  node_plugin_args s =
      let rotated = is_some (log_rotation s) in
      let ceph_fs = is_ceph_fs_driver s.driver_type in
      log_verbosity_container_arg (verbosity_of s.driver.spec.log)
      ∷ type_container_arg s.driver_type
      ∷ node_server_container_arg
      ∷ node_id_container_arg
      ∷ driver_name_container_arg s.driver.metadata.name
      ∷ set_fencing_container_arg (deref s.driver.spec.enable_fencing false)
      ∷ endpoint_container_arg
      ∷ pidlimit_container_arg
      ∷ choose (force_kernel_client s) force_ceph_kernel_client_container_arg ""
      ∷ choose (deref s.driver.spec.deploy_csi_addons false) csi_addons_endpoint_container_arg ""
      ∷ choose (is_rbd_or_nvmeof_driver s.driver_type)
          (staging_path_container_arg (kubelet_dir_of (node_spec s))) ""
      ∷ choose ceph_fs
          (kernel_mount_options_container_arg (deref s.driver.spec.kernel_mount_options [])) ""
      ∷ choose ceph_fs
          (fuse_mount_options_container_arg (deref s.driver.spec.fuse_mount_options [])) ""
      ∷ choose (with_topology s) (domain_labels_container_arg (deref (node_spec s).topology [])) ""
      ∷ choose rotated log_to_std_err_container_arg ""
      ∷ choose rotated also_log_to_std_err_container_arg ""
      ∷ choose rotated (log_file_container_arg (plugin_name s.driver_type)) ""
      ∷ []

  -- The mounts of the plugin's container without the user's
  unfoldable pub node_plugin_mounts : State W F → List (Given VolumeMount F.volume_mount)
  node_plugin_mounts s =
      node_first_mounts (kubelet_dir_of (node_spec s))
      ++ appended (deref (node_spec s).enable_se_linux_host_mount false)
          (built_in etc_selinux_volume_mount ∷ [])
      ++ appended (is_some s.driver.spec.encryption) (built_in kms_config_volume_mount ∷ [])
      ++ appended (is_ceph_fs_driver s.driver_type) (built_in csi_mount_info_volume_mount ∷ [])
      ++ appended (is_rbd_or_nvmeof_driver s.driver_type) (built_in oidc_token_volume_mount ∷ [])
      ++ appended (is_some (log_rotation s)) (built_in logs_dir_volume_mount ∷ [])

  unfoldable pub registrar_container : State W F → Container F
  registrar_container s = record {
    name = "driver-registrar";
    image = image_of s.images "registrar";
    image_pull_policy = node_pull_policy s;
    security_context = some privileged_context;
    command = [];
    args = arguments "driver-registrar" (node_spec s).container_extra_args (
        log_verbosity_container_arg (verbosity_of s.driver.spec.log)
        ∷ kubelet_registration_path_container_arg (kubelet_dir_of (node_spec s))
            s.driver.metadata.name
        ∷ csi_address_container_arg
        ∷ []);
    ports = [];
    env = [];
    volume_mounts = built_in plugin_dir_volume_mount ∷ built_in registration_dir_volume_mount ∷ [];
    resources = (node_spec s).resources.registrar;
  }

  -- The container for liveness, over its port
  unfoldable pub node_liveness_container : State W F → Option ℤ → List (Container F)
  node_liveness_container s none = []
  node_liveness_container s (some metrics_port) =
      record {
        name = "liveness-prometheus";
        image = image_of s.images "plugin";
        image_pull_policy = node_pull_policy s;
        security_context = some privileged_context;
        command = [];
        args =
            arguments "liveness-prometheus" (node_spec s).container_extra_args
              (liveness_args metrics_port);
        ports = [];
        env = pod_ip_env_var ∷ [];
        volume_mounts = built_in plugin_dir_volume_mount ∷ [];
        resources = (node_spec s).resources.liveness;
      }
      ∷ []

  -- The log rotator of both daemon sets
  abbrev pub node_log_rotator_container : State W F → Container F
  node_log_rotator_container s =
      rotator_container s.images (node_pull_policy s) (some privileged_context)
        (node_spec s).resources.log_rotator

  -- The volumes that the code gives, over the name of the daemon set
  unfoldable pub node_built_in_volumes : State W F → String → List (Given Volume F.volume)
  node_built_in_volumes s daemon_set_name =
      let kubelet_dir_path = kubelet_dir_of (node_spec s) in
      node_first_volumes kubelet_dir_path s.driver.metadata.name
      ++ appended (is_ceph_fs_driver s.driver_type)
          (built_in (csi_mount_info_volume kubelet_dir_path s.driver.metadata.name) ∷ [])
      ++ appended (deref (node_spec s).enable_se_linux_host_mount false)
          (built_in etc_selinux_volume ∷ [])
      ++ kms_volumes s.driver.spec.encryption
      ++ appended (is_rbd_or_nvmeof_driver s.driver_type) (built_in oidc_token_volume ∷ [])
      ++ log_volumes (log_rotation s) daemon_set_name s.driver.metadata.name

  -- The labels of the pods, with the one that the liveness service may look for
  unfoldable pub node_labels : State W F → String → Assoc String
  unfolding app_labels insert
  node_labels s app_name =
      let labels = app_labels (node_spec s).pod_common.labels app_name in
      if is_some s.driver.spec.liveness
      then insert "contains" (app_name <> "-metrics") labels
      else labels

module _ {W : Type 0} {F : Foreign} (env : Env W F) where
  -- The plugin container
  unfoldable pub node_plugin_container : State W F → Container F
  unfolding node_plugin_args node_plugin_mounts with_user_mounts
  node_plugin_container s = record {
    name = plugin_name s.driver_type;
    image = image_of s.images "plugin";
    image_pull_policy = node_pull_policy s;
    security_context = some node_plugin_context;
    command = [];
    args =
        arguments (plugin_name s.driver_type) (node_spec s).container_extra_args
          (node_plugin_args s);
    ports = [];
    env = pod_ip_env_var ∷ node_id_env_var ∷ pod_namespace_env_var ∷ [];
    volume_mounts = with_user_mounts env (node_plugin_mounts s) (node_spec s).pod_common.volumes;
    resources = (node_spec s).resources.plugin;
  }

  unfoldable pub node_containers : State W F → List (Container F)
  unfolding node_plugin_container registrar_container node_liveness_container
  node_containers s =
      node_plugin_container s ∷ registrar_container s ∷ []
      ++ node_liveness_container s s.driver.spec.liveness
      ++ appended (is_some (log_rotation s)) (node_log_rotator_container s ∷ [])

  -- The spec of the daemon set, over its name
  unfoldable pub daemon_set_spec : State W F → String → DaemonSetSpec F
  unfolding node_labels node_containers node_built_in_volumes with_user_volumes
  daemon_set_spec s app_name =
      let spec = node_spec s in
      record {
        selector = ("app", app_name) ∷ [];
        update_strategy = strategy_of spec.update_strategy default_daemon_set_update_strategy;
        template = record {
          labels = node_labels s app_name;
          annotations = spec.pod_common.annotations;
          spec = record {
            service_account_name =
                service_account env spec.pod_common.service_account_name s.driver_type
                  "-nodeplugin-sa";
            priority_class_name = deref spec.pod_common.priorityl_class_name "";
            host_network = true;
            host_pid = is_rbd_or_nvmeof_driver s.driver_type;
            dns_policy = "ClusterFirstWithHostNet";
            affinity = spec.pod_common.affinity;
            tolerations = spec.pod_common.tolerations;
            containers = node_containers s;
            volumes =
                with_user_volumes env (node_built_in_volumes s app_name) spec.pod_common.volumes;
          };
        };
      }

  -- The callback of both daemon sets, over the spec for a name
  unfoldable pub mutate_daemon_set :
      Driver F → (String → DaemonSetSpec F) → Method (DaemonSet F) (Unit {0})
  mutate_daemon_set driver spec_for daemon_set =
      controlled env (env.util.set_controller_reference driver.metadata daemon_set.metadata)
        (λ m. record { metadata = m; spec = some (spec_for m.name) }) daemon_set

  abbrev pub write_daemon_set :
      State W F → String → (String → DaemonSetSpec F) → W → Result (Unit {0}) × W
  write_daemon_set s name spec_for w =
      let (r, daemon_set, w') =
        env.daemon_sets.create_or_update
          (record { metadata = named name s.driver.metadata.namespace; spec = none })
          (mutate_daemon_set s.driver spec_for) w in
      (only_error r, w')

  -- `reconcileNodePluginDaemonSet`
  unfoldable pub reconcile_node_plugin_daemon_set : State W F → W → Result (Unit {0}) × W
  unfolding daemon_set_spec mutate_daemon_set generate_name
  reconcile_node_plugin_daemon_set s =
      write_daemon_set s (generate_name s.driver.metadata.name "nodeplugin") (daemon_set_spec s)
