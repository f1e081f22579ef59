-- ===== src/Driver/Pods/Controller.antt =====
-- internal/controller/driver_controller.go: `reconcileControllerPluginDeployment`, its containers.
pub mod Sidecars
pub mod Deploy
pub mod Each
pub mod Mounts
use ceph_csi_operator.Api.Driver.{Foreign, Given, LogRotationSpec, ControllerPluginSpec, built_in}
use ceph_csi_operator.Driver.State.{State, Env}
use ceph_csi_operator.Api.Pods.{SecurityContext, Container}
use ceph_csi_operator.Driver.Pods.{
  pull_if_not_present, volume_snapshot_snapshot_policy, is_ceph_fs_driver, default_leader_election,
  is_rbd_driver, arguments, node_plugin_of, with_user_mounts, controller_plugin_of,
  kernel_ceph_fs_client, log_rotation_of, default_g_rpc_timeout, verbosity_of, plugin_name,
  appended, image_of,
}
use ceph_csi_operator.Utils.Csi.Args.{
  type_container_arg, leader_election_namespace_container_arg, log_verbosity_container_arg,
  leader_election_lease_duration_container_arg, endpoint_container_arg,
  leader_election_renew_deadline_container_arg, node_id_container_arg,
  leader_election_retry_period_container_arg, controller_server_container_arg,
  driver_name_container_arg, pidlimit_container_arg, set_fencing_container_arg,
  cluster_name_container_arg, force_ceph_kernel_client_container_arg,
  csi_addons_endpoint_container_arg, log_to_std_err_container_arg,
  also_log_to_std_err_container_arg, log_file_container_arg,
}
use ceph_csi_operator.Prelude.Text.{ℤ}
use ceph_csi_operator.Utils.Core.{choose}
use ceph_csi_operator.Utils.Csi.Mounts.{
  VolumeMount, socket_dir_volume_mount, host_dev_volume_mount, host_sys_volume_mount,
  pod_ip_env_var, lib_modules_volume_mount, node_id_env_var, pod_namespace_env_var,
  keys_tmp_dir_volume_mount, csi_config_volume_mount, kms_config_volume_mount,
  oidc_token_volume_mount, logs_dir_volume_mount,
}
use ceph_csi_operator.Driver.Merge.{int_or}
use ceph_csi_operator.Prelude.{
  Bool, String, true, false, Option, none, some, List, [], ◌∷◌, ◌++◌, ◌==◌, ◌||◌, ◌&&◌, not,
  if◌then◌else◌, deref, str_or, is_some,
}

-- The context over the field `Privileged`, where logs are rotated
abbrev pub log_rotate_context : Option Bool → Bool → Option SecurityContext
log_rotate_context privileged enabled =
    choose (is_some privileged && enabled)
      (some (record {
        privileged = privileged;
        capabilities = some (record { add = []; drop = "All" ∷ [] });
        allow_privilege_escalation = none;
      }))
      none

-- The mounts of the plugin's container in each case, and those that depend on the spec
abbrev pub plugin_first_mounts : {V : Type 0} → List (Given VolumeMount V)
plugin_first_mounts =
    built_in socket_dir_volume_mount
    ∷ built_in host_dev_volume_mount
    ∷ built_in host_sys_volume_mount
    ∷ built_in lib_modules_volume_mount
    ∷ built_in keys_tmp_dir_volume_mount
    ∷ built_in csi_config_volume_mount
    ∷ []

module _ {W : Type 0} {F : Foreign} where
  -- `pluginSpec`
  abbrev pub plugin_spec : State W F → ControllerPluginSpec F
  plugin_spec s = controller_plugin_of s.driver.spec.controller_plugin

  abbrev pub pull_policy : State W F → String
  pull_policy s = str_or (plugin_spec s).pod_common.image_pull_policy pull_if_not_present

  abbrev pub grpc_timeout : State W F → ℤ
  grpc_timeout s = int_or s.driver.spec.g_rpc_timeout default_g_rpc_timeout

  abbrev pub sn_policy : State W F → String
  sn_policy s = str_or s.driver.spec.snapshot_policy volume_snapshot_snapshot_policy

  abbrev pub log_rotation : State W F → Option (LogRotationSpec F)
  log_rotation s = log_rotation_of s.driver.spec.log

  abbrev pub force_kernel_client : State W F → Bool
  force_kernel_client s =
      is_ceph_fs_driver s.driver_type && s.driver.spec.ceph_fs_client_type == kernel_ceph_fs_client

  -- `logRotateSecurityContext`
  abbrev pub log_rotate_security_context : State W F → Option SecurityContext
  log_rotate_security_context s =
      log_rotate_context (plugin_spec s).privileged (is_some (log_rotation s))

  -- `leaderElectionSettingsArg`
  unfoldable pub leader_election_settings_arg : State W F → List String
  leader_election_settings_arg s =
      let spec = deref s.driver.spec.leader_election default_leader_election in
      leader_election_namespace_container_arg s.driver.metadata.namespace
      ∷ leader_election_lease_duration_container_arg spec.lease_duration
      ∷ leader_election_renew_deadline_container_arg spec.renew_deadline
      ∷ leader_election_retry_period_container_arg spec.retry_period
      ∷ []

  -- `topology`, of the node plugin
  abbrev pub with_topology : State W F → Bool
  with_topology s =
      is_rbd_driver s.driver_type && is_some (node_plugin_of s.driver.spec.node_plugin).topology

  -- The arguments of the plugin's container that the code gives, an empty one where it is left out
  unfoldable pub plugin_args : State W F → List String
  plugin_args s =
      let rotated = is_some (log_rotation s) in
      type_container_arg s.driver_type
      ∷ log_verbosity_container_arg (verbosity_of s.driver.spec.log)
      ∷ endpoint_container_arg
      ∷ node_id_container_arg
      ∷ controller_server_container_arg
      ∷ driver_name_container_arg s.driver.metadata.name
      ∷ pidlimit_container_arg
      ∷ set_fencing_container_arg (deref s.driver.spec.enable_fencing false)
      ∷ cluster_name_container_arg (deref s.driver.spec.cluster_name "")
      ∷ choose (force_kernel_client s) force_ceph_kernel_client_container_arg ""
      ∷ choose (deref s.driver.spec.deploy_csi_addons false) csi_addons_endpoint_container_arg ""
      ∷ choose rotated log_to_std_err_container_arg ""
      ∷ choose rotated also_log_to_std_err_container_arg ""
      ∷ choose rotated (log_file_container_arg (plugin_name s.driver_type)) ""
      ∷ []

  unfoldable pub plugin_mounts : State W F → List (Given VolumeMount F.volume_mount)
  plugin_mounts s =
      plugin_first_mounts
      ++ appended (is_some s.driver.spec.encryption) (built_in kms_config_volume_mount ∷ [])
      ++ appended (is_rbd_driver s.driver_type) (built_in oidc_token_volume_mount ∷ [])
      ++ appended (is_some (log_rotation s)) (built_in logs_dir_volume_mount ∷ [])

module _ {W : Type 0} {F : Foreign} (env : Env W F) where
  -- The plugin container
  unfoldable pub plugin_container : State W F → Container F
  unfolding plugin_args plugin_mounts with_user_mounts
  plugin_container s = record {
    name = plugin_name s.driver_type;
    image = image_of s.images "plugin";
    image_pull_policy = pull_policy s;
    security_context = log_rotate_security_context s;
    command = [];
    args =
        arguments (plugin_name s.driver_type) (plugin_spec s).container_extra_args (plugin_args s);
    ports = [];
    env = pod_ip_env_var ∷ node_id_env_var ∷ pod_namespace_env_var ∷ [];
    volume_mounts = with_user_mounts env (plugin_mounts s) (plugin_spec s).pod_common.volumes;
    resources = (plugin_spec s).resources.plugin;
  }
