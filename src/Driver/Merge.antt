-- ===== src/Driver/Merge.antt =====
-- internal/controller/driver_controller.go: `mergeDriverSpecs`, a field after the other. The
-- source is copied before, so nothing is shared.
pub mod Laws
use ceph_csi_operator.Prelude.{zero}
use ceph_csi_operator.Api.Driver.{
  Foreign, ControllerPluginResourcesSpec, PodCommonSpec, NodePluginResourcesSpec,
  ControllerPluginSpec, DriverSpec, NodePluginSpec,
}
use ceph_csi_operator.Prelude.Text.{ℤ, pos}
use ceph_csi_operator.Prelude.{Option, some, if◌then◌else◌, Bool, none, ptr_or, str_or, true, false}

abbrev pub is_zero : ℤ → Bool
is_zero (pos zero) = true
is_zero _ = false

-- `if dest == 0 { dest = src }`
abbrev pub int_or : ℤ → ℤ → ℤ
int_or dest src = if is_zero dest then src else dest

-- The merge of two pointers to structs, which are merged where neither is nil.
abbrev pub merge_ptr : {A : Type 0} → (A → A → A) → Option A → Option A → Option A
merge_ptr merge dest none = dest
merge_ptr merge none (some s) = some s
merge_ptr merge (some d) (some s) = some (merge d s)

module _ {F : Foreign} where
  -- The embedded fields, in both plugin specs alike
  unfoldable pub merge_pod_common : PodCommonSpec F → PodCommonSpec F → PodCommonSpec F
  merge_pod_common dest src = record {
    service_account_name = ptr_or dest.service_account_name src.service_account_name;
    priorityl_class_name = ptr_or dest.priorityl_class_name src.priorityl_class_name;
    labels = ptr_or dest.labels src.labels;
    annotations = ptr_or dest.annotations src.annotations;
    affinity = ptr_or dest.affinity src.affinity;
    tolerations = ptr_or dest.tolerations src.tolerations;
    volumes = ptr_or dest.volumes src.volumes;
    image_pull_policy = str_or dest.image_pull_policy src.image_pull_policy;
  }

  unfoldable pub merge_node_plugin_resources :
      NodePluginResourcesSpec F → NodePluginResourcesSpec F → NodePluginResourcesSpec F
  merge_node_plugin_resources dest src = record {
    registrar = ptr_or dest.registrar src.registrar;
    liveness = ptr_or dest.liveness src.liveness;
    addons = ptr_or dest.addons src.addons;
    log_rotator = ptr_or dest.log_rotator src.log_rotator;
    plugin = ptr_or dest.plugin src.plugin;
  }

  unfoldable pub merge_controller_plugin_resources :
      ControllerPluginResourcesSpec F
      → ControllerPluginResourcesSpec F
      → ControllerPluginResourcesSpec F
  merge_controller_plugin_resources dest src = record {
    attacher = ptr_or dest.attacher src.attacher;
    snapshotter = ptr_or dest.snapshotter src.snapshotter;
    resizer = ptr_or dest.resizer src.resizer;
    provisioner = ptr_or dest.provisioner src.provisioner;
    omap_generator = ptr_or dest.omap_generator src.omap_generator;
    liveness = ptr_or dest.liveness src.liveness;
    addons = ptr_or dest.addons src.addons;
    log_rotator = ptr_or dest.log_rotator src.log_rotator;
    plugin = ptr_or dest.plugin src.plugin;
  }

  -- Where both specs have a node plugin; its topology is not merged.
  unfoldable pub merge_node_plugin : NodePluginSpec F → NodePluginSpec F → NodePluginSpec F
  merge_node_plugin dest src = record {
    pod_common = merge_pod_common dest.pod_common src.pod_common;
    update_strategy = ptr_or dest.update_strategy src.update_strategy;
    resources = merge_node_plugin_resources dest.resources src.resources;
    kubelet_dir_path = str_or dest.kubelet_dir_path src.kubelet_dir_path;
    enable_se_linux_host_mount =
        ptr_or dest.enable_se_linux_host_mount src.enable_se_linux_host_mount;
    topology = dest.topology;
    container_extra_args = ptr_or dest.container_extra_args src.container_extra_args;
  }

  -- Where both specs have a controller plugin; its host network and its strategy are not merged.
  unfoldable pub merge_controller_plugin :
      ControllerPluginSpec F → ControllerPluginSpec F → ControllerPluginSpec F
  merge_controller_plugin dest src = record {
    host_network = dest.host_network;
    pod_common = merge_pod_common dest.pod_common src.pod_common;
    deployment_strategy = dest.deployment_strategy;
    replicas = ptr_or dest.replicas src.replicas;
    resources = merge_controller_plugin_resources dest.resources src.resources;
    privileged = ptr_or dest.privileged src.privileged;
    container_extra_args = ptr_or dest.container_extra_args src.container_extra_args;
  }

  -- `mergeDriverSpecs`; the image set and the metadata switch are not merged.
  unfoldable pub merge_driver_specs : DriverSpec F → DriverSpec F → DriverSpec F
  merge_driver_specs dest src = record {
    log = ptr_or dest.log src.log;
    image_set = dest.image_set;
    cluster_name = ptr_or dest.cluster_name src.cluster_name;
    enable_metadata = dest.enable_metadata;
    enable_fencing = ptr_or dest.enable_fencing src.enable_fencing;
    g_rpc_timeout = int_or dest.g_rpc_timeout src.g_rpc_timeout;
    snapshot_policy = str_or dest.snapshot_policy src.snapshot_policy;
    generate_omap_info = ptr_or dest.generate_omap_info src.generate_omap_info;
    fs_group_policy = str_or dest.fs_group_policy src.fs_group_policy;
    encryption = ptr_or dest.encryption src.encryption;
    node_plugin = merge_ptr merge_node_plugin dest.node_plugin src.node_plugin;
    controller_plugin =
        merge_ptr merge_controller_plugin dest.controller_plugin src.controller_plugin;
    attach_required = ptr_or dest.attach_required src.attach_required;
    liveness = ptr_or dest.liveness src.liveness;
    leader_election = ptr_or dest.leader_election src.leader_election;
    deploy_csi_addons = ptr_or dest.deploy_csi_addons src.deploy_csi_addons;
    ceph_fs_client_type = str_or dest.ceph_fs_client_type src.ceph_fs_client_type;
    kernel_mount_options = ptr_or dest.kernel_mount_options src.kernel_mount_options;
    fuse_mount_options = ptr_or dest.fuse_mount_options src.fuse_mount_options;
  }
