-- ===== src/Driver/Merge/Laws.antt =====
-- internal/controller/driver_controller.go: what `mergeDriverSpecs` makes of each field.
use ceph_csi_operator.Prelude.{zero, suc}
use ceph_csi_operator.Prelude.Text.{ℤ, pos, negsuc}
use ceph_csi_operator.Api.Driver.{
  Foreign, DriverSpec, PodCommonSpec, NodePluginSpec, ControllerPluginSpec, NodePluginResourcesSpec,
  ControllerPluginResourcesSpec,
}
use ceph_csi_operator.Driver.Merge.{
  merge_ptr, int_or, merge_controller_plugin, merge_pod_common, merge_node_plugin,
  merge_driver_specs, merge_node_plugin_resources, merge_controller_plugin_resources,
}
use ceph_csi_operator.Prelude.{
  Option, String, ◌≡◌, ◌≢◌, ◌⊎◌, ◌==◌, ptr_or, str_or, some, none, inl, inr, refl, arith,
  Bool-cases, eq_iff, ne_of_eq-false,
}

-- A field of the result has the value of the first spec that sets it: it is set by the destination and
-- kept, or unset there and filled.
abbrev IsFirst : {A : Type 0} → A → A → A → A → Type 0
IsFirst unset dest src m = ((dest ≢ unset) × (m ≡ dest)) ⊎ ((dest ≡ unset) × (m ≡ src))

-- A pointer to a struct: where both specs have one, the result has one, merged as `R` says.
abbrev IsMergedPtr : {A : Type 0} → (A → A → A → Type 0) → Option A → Option A → Option A → Type 0
IsMergedPtr R none src m = m ≡ src
IsMergedPtr R (some d) none m = m ≡ some d
IsMergedPtr {A} R (some d) (some s) m = (x : A) × (m ≡ some x) × R d s x

module _ {F : Foreign} where
  abbrev IsMergedPodCommon : PodCommonSpec F → PodCommonSpec F → PodCommonSpec F → Type 0
  IsMergedPodCommon d s m =
      IsFirst none d.service_account_name s.service_account_name m.service_account_name
      × IsFirst none d.priorityl_class_name s.priorityl_class_name m.priorityl_class_name
      × IsFirst none d.labels s.labels m.labels
      × IsFirst none d.annotations s.annotations m.annotations
      × IsFirst none d.affinity s.affinity m.affinity
      × IsFirst none d.tolerations s.tolerations m.tolerations
      × IsFirst none d.volumes s.volumes m.volumes
      × IsFirst "" d.image_pull_policy s.image_pull_policy m.image_pull_policy

  abbrev IsMergedNodeResources :
      NodePluginResourcesSpec F → NodePluginResourcesSpec F → NodePluginResourcesSpec F → Type 0
  IsMergedNodeResources d s m =
      IsFirst none d.registrar s.registrar m.registrar
      × IsFirst none d.liveness s.liveness m.liveness
      × IsFirst none d.addons s.addons m.addons
      × IsFirst none d.log_rotator s.log_rotator m.log_rotator
      × IsFirst none d.plugin s.plugin m.plugin

  -- The topology is the destination's.
  abbrev IsMergedNodePlugin : NodePluginSpec F → NodePluginSpec F → NodePluginSpec F → Type 0
  IsMergedNodePlugin d s m =
      IsMergedPodCommon d.pod_common s.pod_common m.pod_common
      × IsFirst none d.update_strategy s.update_strategy m.update_strategy
      × IsMergedNodeResources d.resources s.resources m.resources
      × IsFirst "" d.kubelet_dir_path s.kubelet_dir_path m.kubelet_dir_path
      × IsFirst none d.enable_se_linux_host_mount s.enable_se_linux_host_mount
          m.enable_se_linux_host_mount
      × IsFirst none d.container_extra_args s.container_extra_args m.container_extra_args
      × (m.topology ≡ d.topology)

  abbrev IsMergedControllerResources :
      ControllerPluginResourcesSpec F
      → ControllerPluginResourcesSpec F
      → ControllerPluginResourcesSpec F
      → Type 0
  IsMergedControllerResources d s m =
      IsFirst none d.attacher s.attacher m.attacher
      × IsFirst none d.snapshotter s.snapshotter m.snapshotter
      × IsFirst none d.resizer s.resizer m.resizer
      × IsFirst none d.provisioner s.provisioner m.provisioner
      × IsFirst none d.omap_generator s.omap_generator m.omap_generator
      × IsFirst none d.liveness s.liveness m.liveness
      × IsFirst none d.addons s.addons m.addons
      × IsFirst none d.log_rotator s.log_rotator m.log_rotator
      × IsFirst none d.plugin s.plugin m.plugin

  -- The host network and the strategy are the destination's.
  abbrev IsMergedControllerPlugin :
      ControllerPluginSpec F → ControllerPluginSpec F → ControllerPluginSpec F → Type 0
  IsMergedControllerPlugin d s m =
      IsMergedPodCommon d.pod_common s.pod_common m.pod_common
      × IsFirst none d.replicas s.replicas m.replicas
      × IsMergedControllerResources d.resources s.resources m.resources
      × IsFirst none d.privileged s.privileged m.privileged
      × IsFirst none d.container_extra_args s.container_extra_args m.container_extra_args
      × (m.host_network ≡ d.host_network)
      × (m.deployment_strategy ≡ d.deployment_strategy)

  -- The image set and the metadata switch are the destination's.
  abbrev pub IsMerged : DriverSpec F → DriverSpec F → DriverSpec F → Type 0
  IsMerged d s m =
      IsFirst none d.log s.log m.log
      × IsFirst none d.cluster_name s.cluster_name m.cluster_name
      × IsFirst none d.enable_fencing s.enable_fencing m.enable_fencing
      × IsFirst (pos 0) d.g_rpc_timeout s.g_rpc_timeout m.g_rpc_timeout
      × IsFirst "" d.snapshot_policy s.snapshot_policy m.snapshot_policy
      × IsFirst none d.generate_omap_info s.generate_omap_info m.generate_omap_info
      × IsFirst "" d.fs_group_policy s.fs_group_policy m.fs_group_policy
      × IsFirst none d.encryption s.encryption m.encryption
      × IsMergedPtr IsMergedNodePlugin d.node_plugin s.node_plugin m.node_plugin
      × IsMergedPtr IsMergedControllerPlugin d.controller_plugin s.controller_plugin
          m.controller_plugin
      × IsFirst none d.attach_required s.attach_required m.attach_required
      × IsFirst none d.liveness s.liveness m.liveness
      × IsFirst none d.leader_election s.leader_election m.leader_election
      × IsFirst none d.deploy_csi_addons s.deploy_csi_addons m.deploy_csi_addons
      × IsFirst "" d.ceph_fs_client_type s.ceph_fs_client_type m.ceph_fs_client_type
      × IsFirst none d.kernel_mount_options s.kernel_mount_options m.kernel_mount_options
      × IsFirst none d.fuse_mount_options s.fuse_mount_options m.fuse_mount_options
      × (m.image_set ≡ d.image_set)
      × (m.enable_metadata ≡ d.enable_metadata)

ptr : {A : Type 0} (d s : Option A) → IsFirst none d s (ptr_or d s)
ptr (some x) s = inl ((λ e. ground (arith, e)), refl)
ptr none s = inr (refl, refl)

str : (d s : String) → IsFirst "" d s (str_or d s)
str d s = elim (Bool-cases (d == "")) [
  | inl e ↦ inr ((eq_iff d "").0 e, rw e refl)
  | inr e ↦ inl (ne_of_eq-false d "" e, rw e refl)
]

int : (d s : ℤ) → IsFirst (pos 0) d s (int_or d s)
int (pos zero) s = inr (refl, refl)
int (pos (suc n)) s = inl ((λ e. ground (arith, e)), refl)
int (negsuc n) s = inl ((λ e. ground (arith, e)), refl)

merge_ptr-IsMergedPtr :
    {A : Type 0} (R : A → A → A → Type 0) (merge : A → A → A)
    → ((x y : A) → R x y (merge x y))
    → (d s : Option A) → IsMergedPtr R d s (merge_ptr merge d s)
merge_ptr-IsMergedPtr R merge h none none = refl
merge_ptr-IsMergedPtr R merge h none (some y) = refl
merge_ptr-IsMergedPtr R merge h (some x) none = refl
merge_ptr-IsMergedPtr R merge h (some x) (some y) = (merge x y, refl, h x y)

ruleset first = (ptr, str, int)

module _ {F : Foreign} where
  pod_common-IsMerged : (d s : PodCommonSpec F) → IsMergedPodCommon d s (merge_pod_common d s)
  unfolding merge_pod_common
  pod_common-IsMerged d s = search first

  node_plugin-IsMerged : (d s : NodePluginSpec F) → IsMergedNodePlugin d s (merge_node_plugin d s)
  unfolding merge_node_plugin merge_node_plugin_resources
  node_plugin-IsMerged d s = search (first, pod_common-IsMerged)

  controller_plugin-IsMerged :
      (d s : ControllerPluginSpec F) → IsMergedControllerPlugin d s (merge_controller_plugin d s)
  unfolding merge_controller_plugin merge_controller_plugin_resources
  controller_plugin-IsMerged d s = search (first, pod_common-IsMerged)

  -- Every field that the first spec sets is kept, and every field that it leaves unset is taken from the
  -- second, within the plugins too; but the image set and the metadata switch, and within a plugin that
  -- both specs have the topology, the host network and the deployment strategy, are those of the first.
  pub merge_driver_specs-IsMerged : (d s : DriverSpec F) → IsMerged d s (merge_driver_specs d s)
  unfolding merge_driver_specs
  merge_driver_specs-IsMerged d s = search (
    first,
    merge_ptr-IsMergedPtr IsMergedNodePlugin merge_node_plugin node_plugin-IsMerged,
    merge_ptr-IsMergedPtr IsMergedControllerPlugin merge_controller_plugin
        controller_plugin-IsMerged,
  )
