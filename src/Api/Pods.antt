-- ===== src/Api/Pods.antt =====
-- The pods that the driver controller describes: `corev1.Container`, `corev1.PodSpec`,
-- `appsv1.Deployment` and `appsv1.DaemonSet`, with the fields that it sets.
use ceph_csi_operator.Prelude.{String, Option, Bool, ℕ, List}
use ceph_csi_operator.Prelude.Assoc.{Assoc}
use ceph_csi_operator.Prelude.Text.{ℤ}
use ceph_csi_operator.Api.Meta.{ObjectMeta}
use ceph_csi_operator.Api.Driver.{Foreign, Given, Affinity}
use ceph_csi_operator.Utils.Csi.Volumes.{Volume}
use ceph_csi_operator.Utils.Csi.Mounts.{VolumeMount, EnvVar, ContainerPort}

pub record Capabilities : Type 0 where
  pub add : List String
  pub drop : List String

pub record SecurityContext : Type 0 where
  pub privileged : Option Bool
  pub capabilities : Option Capabilities
  pub allow_privilege_escalation : Option Bool

-- The resources are `none` where they are the zero value.
pub record Container (F : Foreign) : Type 0 where
  pub name : String
  pub image : String
  pub image_pull_policy : String
  pub security_context : Option SecurityContext
  pub command : List String
  pub args : List String
  pub ports : List ContainerPort
  pub env : List EnvVar
  pub volume_mounts : List (Given VolumeMount F.volume_mount)
  pub resources : Option F.resource_requirements

pub record PodSpec (F : Foreign) : Type 0 where
  pub service_account_name : String
  pub priority_class_name : String
  pub host_network : Bool
  pub host_pid : Bool
  pub dns_policy : String
  pub affinity : Option (Affinity F)
  pub tolerations : Option (List F.toleration)
  pub containers : List (Container F)
  pub volumes : List (Given Volume F.volume)

pub record PodTemplateSpec (F : Foreign) : Type 0 where
  pub labels : Assoc String
  pub annotations : Option (Assoc String)
  pub spec : PodSpec F

-- The code's own strategies: `Recreate`, and rolling updates with a bound on the pods that may be
-- unavailable
pub data DeploymentStrategy : Type 0 where
  recreate : DeploymentStrategy

pub data DaemonSetUpdateStrategy : Type 0 where
  rolling_update : ℕ → DaemonSetUpdateStrategy

-- The selector is its `MatchLabels`.
pub record DeploymentSpec (F : Foreign) : Type 0 where
  pub replicas : ℤ
  pub selector : Assoc String
  pub strategy : Given DeploymentStrategy F.deployment_strategy
  pub template : PodTemplateSpec F

-- The spec is `none` where it is the zero value, and nothing was read from the cluster.
pub record Deployment (F : Foreign) : Type 0 where
  pub metadata : ObjectMeta
  pub spec : Option (DeploymentSpec F)

pub record DaemonSetSpec (F : Foreign) : Type 0 where
  pub selector : Assoc String
  pub update_strategy : Given DaemonSetUpdateStrategy F.daemon_set_update_strategy
  pub template : PodTemplateSpec F

pub record DaemonSet (F : Foreign) : Type 0 where
  pub metadata : ObjectMeta
  pub spec : Option (DaemonSetSpec F)
