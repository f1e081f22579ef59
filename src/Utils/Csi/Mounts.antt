-- ===== src/Utils/Csi/Mounts.antt =====
-- internal/utils/csi.go: the volume mounts, environment variables and ports of the containers.
use ceph_csi_operator.Utils.Csi.Volumes.{
  registration_volume_name, csi_mount_info_volume_name, kms_config_volume_name,
  logs_dir_volume_name, log_rotate_dir_volume_name, plugin_dir_volume_name,
  pods_mount_dir_volume_name, socket_dir_volume, csi_config_volume, oidc_token_volume,
  etc_selinux_volume, host_run_mount_volume, lib_modules_volume, host_sys_volume,
  keys_tmp_dir_volume, plugin_mount_dir_volume_name, host_dev_volume, socket_dir,
}
use ceph_csi_operator.Prelude.Text.{◌<>◌}
use ceph_csi_operator.Prelude.{ℕ, String, true, Bool, false, none, Option, some}

-- `corev1.VolumeMount`
pub record VolumeMount : Type 0 where
  pub name : String
  pub mount_path : String
  pub read_only : Bool
  pub mount_propagation : Option String

-- `corev1.EnvVar` that reads a field of the pod
pub record EnvVar : Type 0 where
  pub name : String
  pub field_path : String

-- `corev1.ContainerPort`
pub record ContainerPort : Type 0 where
  pub container_port : ℕ

abbrev pub socket_dir_volume_mount : VolumeMount
socket_dir_volume_mount = record {
  name = socket_dir_volume.name;
  mount_path = socket_dir;
  read_only = false;
  mount_propagation = none;
}

abbrev pub host_dev_volume_mount : VolumeMount
host_dev_volume_mount = record {
  name = host_dev_volume.name;
  mount_path = "/dev";
  read_only = false;
  mount_propagation = none;
}

abbrev pub host_sys_volume_mount : VolumeMount
host_sys_volume_mount = record {
  name = host_sys_volume.name;
  mount_path = "/sys";
  read_only = false;
  mount_propagation = none;
}

abbrev pub host_run_mount_volume_mount : VolumeMount
host_run_mount_volume_mount = record {
  name = host_run_mount_volume.name;
  mount_path = "/run/mount";
  read_only = false;
  mount_propagation = none;
}

abbrev pub lib_modules_volume_mount : VolumeMount
lib_modules_volume_mount = record {
  name = lib_modules_volume.name;
  mount_path = "/lib/modules";
  read_only = true;
  mount_propagation = none;
}

abbrev pub keys_tmp_dir_volume_mount : VolumeMount
keys_tmp_dir_volume_mount = record {
  name = keys_tmp_dir_volume.name;
  mount_path = "/tmp/csi/keys";
  read_only = false;
  mount_propagation = none;
}

abbrev pub oidc_token_volume_mount : VolumeMount
oidc_token_volume_mount = record {
  name = oidc_token_volume.name;
  mount_path = "/run/secrets/tokens";
  read_only = true;
  mount_propagation = none;
}

abbrev pub csi_config_volume_mount : VolumeMount
csi_config_volume_mount = record {
  name = csi_config_volume.name;
  mount_path = "/etc/ceph-csi-config";
  read_only = false;
  mount_propagation = none;
}

abbrev pub csi_mount_info_volume_mount : VolumeMount
csi_mount_info_volume_mount = record {
  name = csi_mount_info_volume_name;
  mount_path = "/csi/mountinfo";
  read_only = false;
  mount_propagation = none;
}

abbrev pub kms_config_volume_mount : VolumeMount
kms_config_volume_mount = record {
  name = kms_config_volume_name;
  mount_path = "/etc/ceph-csi-encryption-kms-config/";
  read_only = true;
  mount_propagation = none;
}

abbrev pub plugin_dir_volume_mount : VolumeMount
plugin_dir_volume_mount = record {
  name = plugin_dir_volume_name;
  mount_path = "/csi";
  read_only = false;
  mount_propagation = none;
}

abbrev pub registration_dir_volume_mount : VolumeMount
registration_dir_volume_mount = record {
  name = registration_volume_name;
  mount_path = "/registration";
  read_only = false;
  mount_propagation = none;
}

abbrev pub etc_selinux_volume_mount : VolumeMount
etc_selinux_volume_mount = record {
  name = etc_selinux_volume.name;
  mount_path = "/etc/selinux";
  read_only = true;
  mount_propagation = none;
}

abbrev pub logs_dir_volume_mount : VolumeMount
logs_dir_volume_mount = record {
  name = logs_dir_volume_name;
  mount_path = "/csi-logs";
  read_only = false;
  mount_propagation = none;
}

abbrev pub log_rotate_dir_volume_mount : VolumeMount
log_rotate_dir_volume_mount = record {
  name = log_rotate_dir_volume_name;
  mount_path = "/logrotate-config";
  read_only = false;
  mount_propagation = none;
}

abbrev pub pods_mount_dir_volume_mount : String → VolumeMount
pods_mount_dir_volume_mount kublet_dir_path = record {
  name = pods_mount_dir_volume_name;
  mount_path = kublet_dir_path <> "/pods";
  read_only = false;
  mount_propagation = some "Bidirectional";
}

abbrev pub plugin_mount_dir_volume_mount : String → VolumeMount
plugin_mount_dir_volume_mount kublet_dir_path = record {
  name = plugin_mount_dir_volume_name;
  mount_path = kublet_dir_path <> "/plugins";
  read_only = false;
  mount_propagation = some "Bidirectional";
}

abbrev pub pod_ip_env_var : EnvVar
pod_ip_env_var = record { name = "POD_IP"; field_path = "status.podIP" }

abbrev pub pod_name_env_var : EnvVar
pod_name_env_var = record { name = "POD_NAME"; field_path = "metadata.name" }

abbrev pub pod_namespace_env_var : EnvVar
pod_namespace_env_var = record { name = "POD_NAMESPACE"; field_path = "metadata.namespace" }

abbrev pub pod_uid_env_var : EnvVar
pod_uid_env_var = record { name = "POD_UID"; field_path = "metadata.uid" }

abbrev pub node_id_env_var : EnvVar
node_id_env_var = record { name = "NODE_ID"; field_path = "spec.nodeName" }

abbrev pub driver_namespace_env_var : EnvVar
driver_namespace_env_var = record { name = "DRIVER_NAMESPACE"; field_path = "metadata.namespace" }

abbrev pub controller_plugin_csi_addons_container_rbd_port : ContainerPort
controller_plugin_csi_addons_container_rbd_port = record { container_port = 9070 }

abbrev pub controller_plugin_csi_addons_container_ceph_fs_port : ContainerPort
controller_plugin_csi_addons_container_ceph_fs_port = record { container_port = 9080 }

abbrev pub node_plugin_csi_addons_container_port : ContainerPort
node_plugin_csi_addons_container_port = record { container_port = 9071 }

abbrev pub snapshot_metadata_grpc_port : ContainerPort
snapshot_metadata_grpc_port = record { container_port = 50051 }
