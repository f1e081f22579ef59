-- ===== src/Utils/Csi/Args.antt =====
-- internal/utils/csi.go: the arguments of the containers.
use ceph_csi_operator.Prelude.{
  Bool, String, if◌then◌else◌, List, ltb, not, any_of, deref, length, [], ◌==◌, ◌∷◌,
}
use ceph_csi_operator.Utils.Core.{clamp, map_to_string, choose}
use ceph_csi_operator.Prelude.Assoc.{lookup, Assoc}
use ceph_csi_operator.Utils.Csi.Mounts.{
  ContainerPort, snapshot_metadata_grpc_port, pod_name_env_var, node_id_env_var,
  pod_namespace_env_var, driver_namespace_env_var, pod_uid_env_var,
}
use ceph_csi_operator.Utils.Csi.Volumes.{csi_endpoint, csi_addons_endpoint}
use ceph_csi_operator.Prelude.Text.{join, show_nat, show_int, ◌<>◌, ℤ, show_bool, lt_int, pos}

unfoldable pub container_port_arg : ContainerPort → String
unfolding show_nat
container_port_arg port = "--controller-port=" <> show_nat port.container_port

abbrev pub csi_address_container_arg : String
csi_address_container_arg = "--csi-address=" <> csi_endpoint

abbrev pub endpoint_container_arg : String
endpoint_container_arg = "--endpoint=" <> csi_endpoint

abbrev pub csi_addons_endpoint_container_arg : String
csi_addons_endpoint_container_arg = "--csi-addons-endpoint=" <> csi_addons_endpoint

abbrev pub csi_addons_address_container_arg : String
csi_addons_address_container_arg = "--csi-addons-address=" <> csi_addons_endpoint

abbrev pub csi_addons_node_id_container_arg : String
csi_addons_node_id_container_arg = "--node-id=$(" <> node_id_env_var.name <> ")"

abbrev pub leader_election_container_arg : String
leader_election_container_arg = "--leader-election=true"

abbrev pub node_id_container_arg : String
node_id_container_arg = "--nodeid=$(" <> node_id_env_var.name <> ")"

abbrev pub pidlimit_container_arg : String
pidlimit_container_arg = "--pidlimit=-1"

abbrev pub controller_server_container_arg : String
controller_server_container_arg = "--controllerserver=true"

abbrev pub node_server_container_arg : String
node_server_container_arg = "--nodeserver=true"

abbrev pub retry_interval_start_container_arg : String
retry_interval_start_container_arg = "--retry-interval-start=500ms"

abbrev pub default_fs_type_container_arg : String
default_fs_type_container_arg = "--default-fstype=ext4"

abbrev pub handle_volume_inuse_error_container_arg : String
handle_volume_inuse_error_container_arg = "--handle-volume-inuse-error=false"

abbrev pub pod_uid_container_arg : String
pod_uid_container_arg = "--pod-uid=$(" <> pod_uid_env_var.name <> ")"

abbrev pub pod_container_arg : String
pod_container_arg = "--pod=$(" <> pod_name_env_var.name <> ")"

abbrev pub namespace_container_arg : String
namespace_container_arg = "--namespace=$(" <> pod_namespace_env_var.name <> ")"

abbrev pub driver_namespace_container_arg : String
driver_namespace_container_arg = "--drivernamespace=$(" <> driver_namespace_env_var.name <> ")"

abbrev pub metrics_path_container_arg : String
metrics_path_container_arg = "--metricspath=/metrics"

abbrev pub pool_time_container_arg : String
pool_time_container_arg = "--polltime=60s"

abbrev pub extra_create_metadata_container_arg : String
extra_create_metadata_container_arg = "--extra-create-metadata=true"

abbrev pub prevent_volume_mode_conversion_container_arg : String
prevent_volume_mode_conversion_container_arg = "--prevent-volume-mode-conversion=true"

abbrev pub recover_volume_expansion_failure_container_arg : String
recover_volume_expansion_failure_container_arg =
    "--feature-gates=RecoverVolumeExpansionFailure=true"

abbrev pub enable_volume_group_snapshots_container_arg : String
enable_volume_group_snapshots_container_arg = "--feature-gates=CSIVolumeGroupSnapshot=true"

abbrev pub force_ceph_kernel_client_container_arg : String
force_ceph_kernel_client_container_arg = "--forcecephkernelclient=true"

abbrev pub log_to_std_err_container_arg : String
log_to_std_err_container_arg = "--logtostderr=false"

abbrev pub also_log_to_std_err_container_arg : String
also_log_to_std_err_container_arg = "--alsologtostderr=true"

abbrev pub csi_addons_volume_condition_arg : String
csi_addons_volume_condition_arg = "--enable-volume-condition=true"

abbrev pub snapshot_metadata_grpc_service_port_arg : String
snapshot_metadata_grpc_service_port_arg =
    "--port=" <> show_nat snapshot_metadata_grpc_port.container_port

abbrev pub snapshot_metadata_tls_cert_arg : String
snapshot_metadata_tls_cert_arg = "--tls-cert=/tmp/certificates/tls.crt"

abbrev pub snapshot_metadata_tls_key_arg : String
snapshot_metadata_tls_key_arg = "--tls-key=/tmp/certificates/tls.key"

unfoldable pub snapshot_metadata_audience_arg : String → String
snapshot_metadata_audience_arg driver_name = "--audience=" <> driver_name

unfoldable pub log_verbosity_container_arg : ℤ → String
unfolding clamp show_int
log_verbosity_container_arg level = "--v=" <> show_int (clamp lt_int level (pos 0) (pos 5))

unfoldable pub log_file_container_arg : String → String
log_file_container_arg container_name = "--log_file=csi-logs/" <> container_name <> ".log"

unfoldable pub type_container_arg : String → String
type_container_arg t =
    if any_of (λ known. known == t)
      ("rbd" ∷ "cephfs" ∷ "nfs" ∷ "nvmeof" ∷ "controller" ∷ "liveness" ∷ [])
    then "--type=" <> t
    else ""

unfoldable pub set_fencing_container_arg : Bool → String
set_fencing_container_arg on = "--enable-fencing=" <> show_bool on

unfoldable pub timeout_container_arg : ℤ → String
unfolding show_int
timeout_container_arg timeout = "--timeout=" <> show_int timeout <> "s"

unfoldable pub leader_election_namespace_container_arg : String → String
leader_election_namespace_container_arg ns =
    choose (not (ns == "")) ("--leader-election-namespace=" <> ns) ""

unfoldable pub leader_election_lease_duration_container_arg : ℤ → String
unfolding show_int
leader_election_lease_duration_container_arg duration =
    "--leader-election-lease-duration=" <> show_int duration <> "s"

unfoldable pub leader_election_renew_deadline_container_arg : ℤ → String
unfolding show_int
leader_election_renew_deadline_container_arg deadline =
    "--leader-election-renew-deadline=" <> show_int deadline <> "s"

unfoldable pub leader_election_retry_period_container_arg : ℤ → String
unfolding show_int
leader_election_retry_period_container_arg period =
    "--leader-election-retry-period=" <> show_int period <> "s"

unfoldable pub driver_name_container_arg : String → String
driver_name_container_arg name = choose (not (name == "")) ("--drivername=" <> name) ""

unfoldable pub cluster_name_container_arg : String → String
cluster_name_container_arg name = choose (not (name == "")) ("--clustername=" <> name) ""

unfoldable pub metrics_port_container_arg : ℤ → String
unfolding show_int
metrics_port_container_arg port = "--metricsport=" <> show_int port

unfoldable pub kubelet_registration_path_container_arg : String → String → String
kubelet_registration_path_container_arg kubelet_dir_path driver_name =
    "--kubelet-registration-path=" <> kubelet_dir_path <> "/plugins/" <> driver_name <> "/csi.sock"

unfoldable pub staging_path_container_arg : String → String
staging_path_container_arg kubelet_dir_path =
    "--stagingpath=" <> kubelet_dir_path <> "/plugins/kubernetes.io/csi/"

unfoldable pub kernel_mount_options_container_arg : Assoc String → String
unfolding map_to_string
kernel_mount_options_container_arg options =
    choose (ltb 0 (length options)) ("--kernelmountoptions=" <> map_to_string options "=" ",") ""

unfoldable pub fuse_mount_options_container_arg : Assoc String → String
unfolding map_to_string
fuse_mount_options_container_arg options =
    choose (ltb 0 (length options)) ("--fusemountoptions=" <> map_to_string options "=" ",") ""

unfoldable pub domain_labels_container_arg : List String → String
unfolding join
domain_labels_container_arg options =
    choose (ltb 0 (length options)) ("--domainlabels=" <> join "," options) ""

unfoldable pub topology_container_arg : Bool → String
topology_container_arg topology = "--feature-gates=Topology=" <> show_bool topology

-- A nil slice and an empty one are the empty list.
unfoldable pub get_extra_args_for_container : String → Assoc (List String) → List String
unfolding lookup
get_extra_args_for_container container_name [] = []
get_extra_args_for_container container_name extra_args = deref (lookup container_name extra_args) []
