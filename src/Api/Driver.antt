-- ===== src/Api/Driver.antt =====
-- api/v1: Driver and OperatorConfig. A nil pointer, map or slice is `none`.
use ceph_csi_operator.Prelude.Text.{ℤ}
use ceph_csi_operator.Api.Meta.{ObjectMeta}
use ceph_csi_operator.Prelude.Assoc.{Assoc}
use ceph_csi_operator.Prelude.{Option, Bool, String, List}

-- The types of Kubernetes that the driver controller only copies.
pub record Foreign : Type 1 where
  pub quantity : Type 0
  pub node_affinity : Type 0
  pub pod_affinity : Type 0
  pub pod_anti_affinity : Type 0
  pub toleration : Type 0
  pub volume : Type 0
  pub volume_mount : Type 0
  pub resource_requirements : Type 0
  pub daemon_set_update_strategy : Type 0
  pub deployment_strategy : Type 0

-- A value of the code's own making, or one that a user gave, whose type is not looked into.
pub data Given (A B : Type 0) : Type 0 where
  built_in : A → Given A B
  given : B → Given A B

-- `PodAffinityTerm`: the labels of the selector, and the topology key
pub record PodAffinityTerm : Type 0 where
  pub label_selector : Assoc String
  pub topology_key : String

-- `corev1.Affinity`; the code's own anti-affinity is the list of terms that scheduling requires.
pub record Affinity (F : Foreign) : Type 0 where
  pub node_affinity : Option F.node_affinity
  pub pod_affinity : Option F.pod_affinity
  pub pod_anti_affinity : Option (Given (List PodAffinityTerm) F.pod_anti_affinity)

pub record LogRotationSpec (F : Foreign) : Type 0 where
  pub max_files : ℤ
  pub max_log_size : F.quantity
  pub periodicity : String
  pub log_host_path : String

pub record LogSpec (F : Foreign) : Type 0 where
  pub verbosity : ℤ
  pub rotation : Option (LogRotationSpec F)

pub record VolumeSpec (F : Foreign) : Type 0 where
  pub volume : F.volume
  pub mount : F.volume_mount

pub record PodCommonSpec (F : Foreign) : Type 0 where
  pub service_account_name : Option String
  pub priorityl_class_name : Option String
  pub labels : Option (Assoc String)
  pub annotations : Option (Assoc String)
  pub affinity : Option (Affinity F)
  pub tolerations : Option (List F.toleration)
  pub volumes : Option (List (VolumeSpec F))
  pub image_pull_policy : String

pub record NodePluginResourcesSpec (F : Foreign) : Type 0 where
  pub registrar : Option F.resource_requirements
  pub liveness : Option F.resource_requirements
  pub addons : Option F.resource_requirements
  pub log_rotator : Option F.resource_requirements
  pub plugin : Option F.resource_requirements

pub record NodePluginSpec (F : Foreign) : Type 0 where
  pub pod_common : PodCommonSpec F
  pub update_strategy : Option F.daemon_set_update_strategy
  pub resources : NodePluginResourcesSpec F
  pub kubelet_dir_path : String
  pub enable_se_linux_host_mount : Option Bool
  -- `TopologySpec`, its `DomainLabels`
  pub topology : Option (List String)
  pub container_extra_args : Option (Assoc (List String))

pub record ControllerPluginResourcesSpec (F : Foreign) : Type 0 where
  pub attacher : Option F.resource_requirements
  pub snapshotter : Option F.resource_requirements
  pub resizer : Option F.resource_requirements
  pub provisioner : Option F.resource_requirements
  pub omap_generator : Option F.resource_requirements
  pub liveness : Option F.resource_requirements
  pub addons : Option F.resource_requirements
  pub log_rotator : Option F.resource_requirements
  pub plugin : Option F.resource_requirements

pub record ControllerPluginSpec (F : Foreign) : Type 0 where
  pub host_network : Option Bool
  pub pod_common : PodCommonSpec F
  pub deployment_strategy : Option F.deployment_strategy
  pub replicas : Option ℤ
  pub resources : ControllerPluginResourcesSpec F
  pub privileged : Option Bool
  pub container_extra_args : Option (Assoc (List String))

pub record LeaderElectionSpec : Type 0 where
  pub lease_duration : ℤ
  pub renew_deadline : ℤ
  pub retry_period : ℤ

pub record DriverSpec (F : Foreign) : Type 0 where
  pub log : Option (LogSpec F)
  -- a `LocalObjectReference`, its name
  pub image_set : Option String
  pub cluster_name : Option String
  pub enable_metadata : Option Bool
  pub enable_fencing : Option Bool
  pub g_rpc_timeout : ℤ
  pub snapshot_policy : String
  pub generate_omap_info : Option Bool
  pub fs_group_policy : String
  -- `EncryptionSpec`, the name of its config map
  pub encryption : Option String
  pub node_plugin : Option (NodePluginSpec F)
  pub controller_plugin : Option (ControllerPluginSpec F)
  pub attach_required : Option Bool
  -- `LivenessSpec`, its `MetricsPort`
  pub liveness : Option ℤ
  pub leader_election : Option LeaderElectionSpec
  pub deploy_csi_addons : Option Bool
  pub ceph_fs_client_type : String
  pub kernel_mount_options : Option (Assoc String)
  pub fuse_mount_options : Option (Assoc String)

pub record Driver (F : Foreign) : Type 0 where
  pub metadata : ObjectMeta
  pub spec : DriverSpec F

-- `OperatorConfig`, with the field that the driver controller reads
pub record OperatorConfig (F : Foreign) : Type 0 where
  pub metadata : ObjectMeta
  pub driver_spec_defaults : Option (DriverSpec F)
