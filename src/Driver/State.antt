-- ===== src/Driver/State.antt =====
-- The receiver of a reconcile iteration of a Driver, `driverReconcile`, with the cluster in it, and
-- what the iteration calls. Log lines are left out.
use ceph_csi_operator.Prelude.Result.{Result, Method}
use ceph_csi_operator.Api.Meta.{ObjectMeta, ConfigMap, ObjectKey}
use ceph_csi_operator.Prelude.{String, deref, [], List, Bool}
use ceph_csi_operator.Api.Client.{Store, Ctrlutil, Codec, OperationResult}
use ceph_csi_operator.Api.Pods.{DaemonSet, Deployment}
use ceph_csi_operator.Prelude.Assoc.{Assoc}
use ceph_csi_operator.Api.Cluster.{CsiDriver, Service, NetworkPolicy}
use ceph_csi_operator.Api.Driver.{Foreign, Driver, OperatorConfig}

-- What the iteration calls, with the operator's namespace and configuration name, which are read
-- from the environment when the operator starts.
pub record Env (W : Type 0) (F : Foreign) : Type 0 where
  pub csi_drivers : Store W CsiDriver
  pub operator_configs : Store W (OperatorConfig F)
  pub drivers : Store W (Driver F)
  pub config_maps : Store W ConfigMap
  pub services : Store W Service
  pub network_policies : Store W NetworkPolicy
  pub daemon_sets : Store W (DaemonSet F)
  -- `CreateOrUpdate` of a deployment, whose callback calls the cluster too
  pub create_or_update_deployment :
      Deployment F
      → Method (Deployment F × W) (Unit {0})
      → W
      → Result OperationResult × Deployment F × W
  -- the names of the nodes
  pub list_nodes : W → Result (List String) × W
  pub util : Ctrlutil
  pub key_codec : Codec ObjectKey
  pub is_zero_quantity : F.quantity → Bool
  pub show_quantity : F.quantity → String
  pub volume_name : F.volume → String
  pub mount_name : F.volume_mount → String
  pub operator_namespace : String
  pub operator_config_name : String
  pub service_account_prefix : String

-- `driverReconcile`
pub record State (W : Type 0) (F : Foreign) : Type 0 where
  pub driver : Driver F
  pub driver_type : String
  pub images : Assoc String
  pub world : W

-- The annotations of an object, a nil map being empty
abbrev pub annotations_of : ObjectMeta → Assoc String
annotations_of m = deref m.annotations []

-- `ownerRefAnnotationKey`
abbrev pub owner_ref_annotation_key : String
owner_ref_annotation_key = "csi.ceph.io/ownerref"
