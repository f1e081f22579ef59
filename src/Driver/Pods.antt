-- ===== src/Driver/Pods.antt =====
-- internal/controller/driver_controller.go and defaults.go: what the pods of a driver share.
use ceph_csi_operator.Prelude.Assoc.{copy, Assoc, insert, lookup}
use ceph_csi_operator.Prelude.Text.{◌<>◌, ℤ, pos}
use ceph_csi_operator.Api.Pods.{
  DaemonSetUpdateStrategy, SecurityContext, DeploymentStrategy, recreate, rolling_update, Container,
}
use ceph_csi_operator.Driver.Names.{
  nfs_driver_type, ceph_fs_driver_type, rbd_driver_type, nvmeof_driver_type,
}
use ceph_csi_operator.Api.Driver.{
  LeaderElectionSpec, Foreign, PodCommonSpec, ControllerPluginSpec, LogRotationSpec, NodePluginSpec,
  LogSpec, Given, VolumeSpec, built_in, given,
}
use ceph_csi_operator.Driver.State.{Env}
use ceph_csi_operator.Utils.Core.{delete_zero_values}
use ceph_csi_operator.Utils.Merge.{map_merge_by_key}
use ceph_csi_operator.Utils.Csi.Args.{
  get_extra_args_for_container, type_container_arg, endpoint_container_arg,
  metrics_port_container_arg, metrics_path_container_arg, pool_time_container_arg,
  timeout_container_arg,
}
use ceph_csi_operator.Utils.Csi.Mounts.{
  VolumeMount, logs_dir_volume_mount, log_rotate_dir_volume_mount,
}
use ceph_csi_operator.Utils.Csi.Volumes.{
  Volume, logs_dir_volume, log_rotate_dir_volume, kms_config_volume,
}
pub mod Mounts
pub mod Args
pub mod Containers
pub mod Labels
pub mod Ports
pub mod Resolved
pub mod Controller
pub mod Node
use ceph_csi_operator.Prelude.{
  Bool, String, true, false, Option, none, some, List, [], ◌∷◌, ◌==◌, ◌||◌, ◌&&◌, not,
  if◌then◌else◌, deref, str_or, ◌++◌,
}

abbrev pub default_g_rpc_timeout : ℤ
default_g_rpc_timeout = pos 150

abbrev pub default_kubelet_dir_path : String
default_kubelet_dir_path = "/var/lib/kubelet"

abbrev pub default_log_host_path : String
default_log_host_path = "/var/lib/cephcsi"

abbrev pub default_leader_election : LeaderElectionSpec
default_leader_election = record {
  lease_duration = pos 137;
  renew_deadline = pos 107;
  retry_period = pos 26;
}

abbrev pub default_daemon_set_update_strategy : DaemonSetUpdateStrategy
default_daemon_set_update_strategy = rolling_update 1

abbrev pub default_deployment_strategy : DeploymentStrategy
default_deployment_strategy = recreate

abbrev pub log_rotate_cmd : String
log_rotate_cmd = "while true; do logrotate --verbose /logrotate-config/csi; sleep 15m; done"

-- `corev1.PullIfNotPresent`
abbrev pub pull_if_not_present : String
pull_if_not_present = "IfNotPresent"

abbrev pub is_rbd_driver : String → Bool
is_rbd_driver driver_type = driver_type == rbd_driver_type

abbrev pub is_ceph_fs_driver : String → Bool
is_ceph_fs_driver driver_type = driver_type == ceph_fs_driver_type

abbrev pub is_nfs_driver : String → Bool
is_nfs_driver driver_type = driver_type == nfs_driver_type

abbrev pub is_nvmeof_driver : String → Bool
is_nvmeof_driver driver_type = driver_type == nvmeof_driver_type

abbrev pub is_rbd_or_nvmeof_driver : String → Bool
is_rbd_or_nvmeof_driver driver_type = is_rbd_driver driver_type || is_nvmeof_driver driver_type

-- `SnapshotPolicyType` and `CephFsClientType`: the constants that the pods look at
abbrev pub none_snapshot_policy : String
none_snapshot_policy = "none"

abbrev pub volume_group_snapshot_policy : String
volume_group_snapshot_policy = "volumeGroupSnapshot"

abbrev pub volume_snapshot_snapshot_policy : String
volume_snapshot_snapshot_policy = "volumeSnapshot"

abbrev pub kernel_ceph_fs_client : String
kernel_ceph_fs_client = "kernel"

-- A container or an item that is appended under a condition
abbrev pub appended {ℓ} : {A : Type ℓ} → Bool → List A → List A
appended cond items = if cond then items else []

-- The name of the plugin's container
abbrev pub plugin_name : String → String
plugin_name driver_type = "csi-" <> driver_type <> "plugin"

-- The security context of the containers that use the sockets of a privileged one
abbrev pub privileged_context : SecurityContext
privileged_context = record {
  privileged = some true;
  capabilities = some (record { add = []; drop = "All" ∷ [] });
  allow_privilege_escalation = none;
}

-- `r.images[name]`
abbrev pub image_of : Assoc String → String → String
image_of images name = deref (lookup name images) ""

-- The labels of a pod: the user's, and the name of the application
unfoldable pub app_labels : Option (Assoc String) → String → Assoc String
unfolding copy insert
app_labels labels app_name = insert "app" app_name (copy [] (deref labels []))

-- `DeleteZeroValues` of a container's arguments, those of the user at the end
unfoldable pub arguments : String → Option (Assoc (List String)) → List String → List String
unfolding delete_zero_values get_extra_args_for_container
arguments name extra_args args =
    delete_zero_values (args ++ get_extra_args_for_container name (deref extra_args []))

-- The arguments of the liveness container
abbrev pub liveness_args : ℤ → List String
liveness_args metrics_port =
    type_container_arg "liveness"
    ∷ endpoint_container_arg
    ∷ metrics_port_container_arg metrics_port
    ∷ metrics_path_container_arg
    ∷ pool_time_container_arg
    ∷ timeout_container_arg (pos 3)
    ∷ []

-- `ptr.Deref` of a strategy
abbrev pub strategy_of : {A B : Type 0} → Option B → A → Given A B
strategy_of none default = built_in default
strategy_of (some strategy) default = given strategy

-- The volume of the encryption's config map
abbrev pub kms_volumes : {V : Type 0} → Option String → List (Given Volume V)
kms_volumes none = []
kms_volumes (some config_map) = built_in (kms_config_volume config_map) ∷ []

module _ {F : Foreign} where
  abbrev pub empty_pod_common : PodCommonSpec F
  empty_pod_common = record {
    service_account_name = none;
    priorityl_class_name = none;
    labels = none;
    annotations = none;
    affinity = none;
    tolerations = none;
    volumes = none;
    image_pull_policy = "";
  }

  -- `cmp.Or(r.driver.Spec.ControllerPlugin, &csiv1.ControllerPluginSpec{})`
  abbrev pub controller_plugin_of : Option (ControllerPluginSpec F) → ControllerPluginSpec F
  controller_plugin_of (some spec) = spec
  controller_plugin_of none = record {
    host_network = none;
    pod_common = empty_pod_common;
    deployment_strategy = none;
    replicas = none;
    resources = record {
      attacher = none;
      snapshotter = none;
      resizer = none;
      provisioner = none;
      omap_generator = none;
      liveness = none;
      addons = none;
      log_rotator = none;
      plugin = none;
    };
    privileged = none;
    container_extra_args = none;
  }

  -- `cmp.Or(r.driver.Spec.NodePlugin, &csiv1.NodePluginSpec{})`
  abbrev pub node_plugin_of : Option (NodePluginSpec F) → NodePluginSpec F
  node_plugin_of (some spec) = spec
  node_plugin_of none = record {
    pod_common = empty_pod_common;
    update_strategy = none;
    resources = record {
      registrar = none;
      liveness = none;
      addons = none;
      log_rotator = none;
      plugin = none;
    };
    kubelet_dir_path = "";
    enable_se_linux_host_mount = none;
    topology = none;
    container_extra_args = none;
  }

  -- `ptr.Deref(r.driver.Spec.Log, csiv1.LogSpec{}).Verbosity`
  abbrev pub verbosity_of : Option (LogSpec F) → ℤ
  verbosity_of none = pos 0
  verbosity_of (some log) = log.verbosity

  -- The kubelet's directory of a node plugin
  abbrev pub kubelet_dir_of : NodePluginSpec F → String
  kubelet_dir_of spec = str_or spec.kubelet_dir_path default_kubelet_dir_path

  -- `cmp.Or(r.driver.Spec.Log, &csiv1.LogSpec{}).Rotation`
  abbrev pub log_rotation_of : Option (LogSpec F) → Option (LogRotationSpec F)
  log_rotation_of none = none
  log_rotation_of (some log) = log.rotation

  -- The log rotator's container
  abbrev pub rotator_container :
      Assoc String → String → Option SecurityContext → Option F.resource_requirements → Container F
  rotator_container images pull_policy context resources = record {
    name = "log-rotator";
    image = image_of images "plugin";
    image_pull_policy = pull_policy;
    security_context = context;
    command = "/bin/bash" ∷ "-c" ∷ log_rotate_cmd ∷ [];
    args = [];
    ports = [];
    env = [];
    volume_mounts = built_in logs_dir_volume_mount ∷ built_in log_rotate_dir_volume_mount ∷ [];
    resources = resources;
  }

  -- The volumes of the logs
  abbrev pub log_volumes :
      Option (LogRotationSpec F) → String → String → List (Given Volume F.volume)
  log_volumes none plugin driver_name = []
  log_volumes (some rotation) plugin driver_name =
      built_in (logs_dir_volume (str_or rotation.log_host_path default_log_host_path) plugin)
      ∷ built_in (log_rotate_dir_volume driver_name)
      ∷ []

module _ {W : Type 0} {F : Foreign} (env : Env W F) where
  abbrev pub volume_key : Given Volume F.volume → String
  volume_key (built_in v) = v.name
  volume_key (given v) = env.volume_name v

  abbrev pub mount_key : Given VolumeMount F.volume_mount → String
  mount_key (built_in m) = m.name
  mount_key (given m) = env.mount_name m

  abbrev pub user_volume : VolumeSpec F → Given Volume F.volume × Bool
  user_volume v = (given v.volume, not (env.volume_name v.volume == ""))

  abbrev pub user_mount : VolumeSpec F → Given VolumeMount F.volume_mount × Bool
  user_mount v = (given v.mount, not (env.mount_name v.mount == ""))

  -- The user's volumes at the end: they take the place of built-in ones of the same name.
  unfoldable pub with_user_volumes :
      List (Given Volume F.volume) → Option (List (VolumeSpec F)) → List (Given Volume F.volume)
  unfolding map_merge_by_key
  with_user_volumes volumes user_specs =
      map_merge_by_key user_volume volume_key volumes (deref user_specs [])

  unfoldable pub with_user_mounts :
      List (Given VolumeMount F.volume_mount)
      → Option (List (VolumeSpec F))
      → List (Given VolumeMount F.volume_mount)
  unfolding map_merge_by_key
  with_user_mounts mounts user_specs =
      map_merge_by_key user_mount mount_key mounts (deref user_specs [])

  -- The name of the service account, without the user's
  abbrev pub service_account : Option String → String → String → String
  service_account name driver_type suffix =
      str_or (deref name "") (env.service_account_prefix <> driver_type <> suffix)
