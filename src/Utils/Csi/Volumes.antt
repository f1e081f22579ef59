-- ===== src/Utils/Csi/Volumes.antt =====
-- internal/utils/csi.go: the volumes of the pods.
use ceph_csi_operator.Prelude.Text.{◌<>◌}
use ceph_csi_operator.Prelude.{none, String, [], ◌∷◌, Option, some, List, ℕ}

-- `corev1.VolumeSource`, with the kinds that the code uses; the items of a config map are keys
-- with their paths, and a projected volume is a service account token.
pub data VolumeSource : Type 0 where
  empty_dir : String → VolumeSource
  host_path : String → Option String → VolumeSource
  config_map : String → List (String × String) → VolumeSource
  service_account_token : String → ℕ → String → VolumeSource

-- `corev1.Volume`
pub record Volume : Type 0 where
  pub name : String
  pub source : VolumeSource

abbrev pub socket_dir : String
socket_dir = "/csi"

abbrev pub csi_endpoint : String
csi_endpoint = "unix://" <> socket_dir <> "/csi.sock"

abbrev pub csi_addons_endpoint : String
csi_addons_endpoint = "unix://" <> socket_dir <> "/csi-addons.sock"

abbrev pub kms_config_volume_name : String
kms_config_volume_name = "ceph-csi-kms-config"

abbrev pub csi_mount_info_volume_name : String
csi_mount_info_volume_name = "ceph-csi-mountinfo"

abbrev pub registration_volume_name : String
registration_volume_name = "registration-dir"

abbrev pub plugin_dir_volume_name : String
plugin_dir_volume_name = "plugin-dir"

abbrev pub pods_mount_dir_volume_name : String
pods_mount_dir_volume_name = "pods-mount-dir"

abbrev pub plugin_mount_dir_volume_name : String
plugin_mount_dir_volume_name = "plugin-mount-dir"

abbrev pub logs_dir_volume_name : String
logs_dir_volume_name = "logs-dir"

abbrev pub log_rotate_dir_volume_name : String
log_rotate_dir_volume_name = "log-rotate-dir"

abbrev pub log_rotate_config_map_name : String → String
log_rotate_config_map_name driver_name = driver_name <> "-logrotate-config"

abbrev pub socket_dir_volume : Volume
socket_dir_volume = record { name = "socket-dir"; source = empty_dir "Memory" }

abbrev pub host_dev_volume : Volume
host_dev_volume = record { name = "host-dev"; source = host_path "/dev" none }

abbrev pub host_sys_volume : Volume
host_sys_volume = record { name = "host-sys"; source = host_path "/sys" none }

abbrev pub host_run_mount_volume : Volume
host_run_mount_volume = record { name = "host-run-mount"; source = host_path "/run/mount" none }

abbrev pub lib_modules_volume : Volume
lib_modules_volume = record { name = "lib-modules"; source = host_path "/lib/modules" none }

abbrev pub keys_tmp_dir_volume : Volume
keys_tmp_dir_volume = record { name = "keys-tmp-dir"; source = empty_dir "Memory" }

abbrev pub oidc_token_volume : Volume
oidc_token_volume = record {
  name = "oidc-token";
  source = service_account_token "oidc-token" 3600 "ceph-csi-kms";
}

abbrev pub csi_config_volume : Volume
csi_config_volume = record { name = "ceph-csi-config"; source = config_map "ceph-csi-config" [] }

abbrev pub etc_selinux_volume : Volume
etc_selinux_volume = record { name = "etc-selinux"; source = host_path "/etc/selinux" none }

abbrev pub csi_mount_info_volume : String → String → Volume
csi_mount_info_volume kubelet_dir_path driver_name = record {
  name = csi_mount_info_volume_name;
  source =
      host_path (kubelet_dir_path <> "/plugins/" <> driver_name <> "/mountinfo")
        (some "DirectoryOrCreate");
}

abbrev pub kms_config_volume : String → Volume
kms_config_volume config_ref = record {
  name = kms_config_volume_name;
  source = config_map config_ref (("config.json", "config.json") ∷ []);
}

abbrev pub plugin_mount_dir_volume : String → Volume
plugin_mount_dir_volume kubelet_dir_path = record {
  name = plugin_mount_dir_volume_name;
  source = host_path (kubelet_dir_path <> "/plugins") (some "Directory");
}

abbrev pub plugin_dir_volume : String → String → Volume
plugin_dir_volume kubelet_dir_path driver_name_prefix = record {
  name = plugin_dir_volume_name;
  source =
      host_path (kubelet_dir_path <> "/plugins/" <> driver_name_prefix) (some "DirectoryOrCreate");
}

abbrev pub registration_dir_volume : String → Volume
registration_dir_volume kubelet_dir_path = record {
  name = registration_volume_name;
  source = host_path (kubelet_dir_path <> "/plugins_registry") (some "Directory");
}

abbrev pub pods_mount_dir_volume : String → Volume
pods_mount_dir_volume kubelet_dir_path = record {
  name = pods_mount_dir_volume_name;
  source = host_path (kubelet_dir_path <> "/pods") (some "Directory");
}

abbrev pub logs_dir_volume : String → String → Volume
logs_dir_volume log_host_path plugin_name = record {
  name = logs_dir_volume_name;
  source = host_path (log_host_path <> "/" <> plugin_name) (some "DirectoryOrCreate");
}

abbrev pub log_rotate_dir_volume : String → Volume
log_rotate_dir_volume driver_name = record {
  name = log_rotate_dir_volume_name;
  source = config_map (log_rotate_config_map_name driver_name) [];
}
