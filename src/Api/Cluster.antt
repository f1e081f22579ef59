-- ===== src/Api/Cluster.antt =====
-- The Kubernetes objects that the driver controller writes, with the fields that it sets or reads.
use ceph_csi_operator.Prelude.{String, Option, Bool, ℕ, List}
use ceph_csi_operator.Prelude.Assoc.{Assoc}
use ceph_csi_operator.Prelude.Text.{ℤ}
use ceph_csi_operator.Api.Meta.{ObjectMeta}

pub record CsiDriverSpec : Type 0 where
  pub pod_info_on_mount : Option Bool
  pub attach_required : Option Bool
  pub fs_group_policy : Option String
  pub se_linux_mount : Option Bool

-- `storagev1.CSIDriver`
pub record CsiDriver : Type 0 where
  pub metadata : ObjectMeta
  pub labels : Option (Assoc String)
  pub spec : CsiDriverSpec

pub record ServicePort : Type 0 where
  pub name : String
  pub port : ℕ
  pub protocol : String
  pub target_port : ℤ

-- `corev1.Service`
pub record Service : Type 0 where
  pub metadata : ObjectMeta
  pub ports : List ServicePort

-- `NetworkPolicyIngressRule`: the labels of the pods, in any namespace, that may connect (none for
-- all), and the TCP ports
pub record IngressRule : Type 0 where
  pub from_pods : Option (Assoc String)
  pub tcp_ports : List ℕ

-- `networkingv1.NetworkPolicy`; egress is open where the flag says so.
pub record NetworkPolicySpec : Type 0 where
  pub pod_labels : Assoc String
  pub ingress : List IngressRule
  pub open_egress : Bool
  pub policy_types : List String

pub record NetworkPolicy : Type 0 where
  pub metadata : ObjectMeta
  pub spec : NetworkPolicySpec
