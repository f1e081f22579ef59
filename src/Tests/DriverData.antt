-- ===== src/Tests/DriverData.antt =====
-- A cluster for the Driver controller, and its objects.
use ceph_csi_operator.Driver.State.{Env, State}
use ceph_csi_operator.Api.Driver.{Driver, DriverSpec, Foreign}
use ceph_csi_operator.Api.Cluster.{CsiDriver}
use ceph_csi_operator.Api.Meta.{ConfigMap, named, object_key}
use ceph_csi_operator.Prelude.{
  Option, ℕ, String, some, true, Bool, ◌∷◌, [], none, false, eqb, List, suc,
}
use ceph_csi_operator.Prelude.Result.{ok, Result, err, panic}
use ceph_csi_operator.Tests.Data.{no_config_map, meta_of, store_of, test_util}
use ceph_csi_operator.Prelude.Text.{pos, show_nat}
use ceph_csi_operator.Api.Client.{OperationResult}
use ceph_csi_operator.Driver.Load.{image_defaults}

abbrev pub test_types : Foreign
test_types = record {
  quantity = ℕ;
  node_affinity = Unit {0};
  pod_affinity = Unit {0};
  pod_anti_affinity = Unit {0};
  toleration = Unit {0};
  volume = String;
  volume_mount = String;
  resource_requirements = ℕ;
  daemon_set_update_strategy = Unit {0};
  deployment_strategy = Unit {0};
}

abbrev pub spec_of : Option String → Option Bool → DriverSpec test_types
spec_of image_set fencing = record {
  log = none;
  image_set = image_set;
  cluster_name = none;
  enable_metadata = none;
  enable_fencing = fencing;
  g_rpc_timeout = pos 0;
  snapshot_policy = "";
  generate_omap_info = none;
  fs_group_policy = "";
  encryption = none;
  node_plugin = none;
  controller_plugin = none;
  attach_required = none;
  liveness = none;
  leader_election = none;
  deploy_csi_addons = none;
  ceph_fs_client_type = "";
  kernel_mount_options = none;
  fuse_mount_options = none;
}

abbrev pub own_spec : DriverSpec test_types
own_spec = spec_of (some "own") none

abbrev pub defaults : DriverSpec test_types
defaults = spec_of (some "operator") (some true)

abbrev pub test_driver : Driver test_types
test_driver = record { metadata = meta_of "a.rbd.csi.ceph.com" "4"; spec = own_spec }

abbrev pub key_text : String
key_text = "key"

abbrev pub test_image_set : ConfigMap
test_image_set = record no_config_map { content = some (("plugin", "cephcsi:test") ∷ []) }

abbrev pub test_csi_driver : CsiDriver
test_csi_driver = record {
  metadata = record (named "a.rbd.csi.ceph.com" "") { uid = "5" };
  labels = none;
  spec = record {
    pod_info_on_mount = none;
    attach_required = none;
    fs_group_policy = none;
    se_linux_mount = none;
  };
}

abbrev pub test_nodes : List String
test_nodes = "node-1" ∷ []

-- A write that succeeds if its callback does
abbrev pub if_ok : Result (Unit {0}) → Result OperationResult
if_ok (ok u) = ok OperationResult.updated
if_ok (err e) = err e
if_ok panic = panic

abbrev pub test_env : CsiDriver → Env ℕ test_types
test_env csi_driver = record {
  csi_drivers = store_of csi_driver [];
  operator_configs =
      store_of
        (record { metadata = named "config" "operator"; driver_spec_defaults = some defaults }) [];
  drivers = store_of test_driver (test_driver ∷ []);
  config_maps = store_of test_image_set [];
  services = store_of (record { metadata = named "" ""; ports = [] }) [];
  network_policies =
      store_of
        (record {
          metadata = named "" "";
          spec = record { pod_labels = []; ingress = []; open_egress = false; policy_types = [] };
        })
        [];
  daemon_sets = store_of (record { metadata = named "" ""; spec = none }) [];
  create_or_update_deployment = λ d f w. let (r, dw) = f (d, w) in (if_ok r, dw.0, suc dw.1);
  list_nodes = λ w. (ok test_nodes, w);
  util = test_util;
  key_codec = record {
    marshal = λ key. ok key_text;
    unmarshal = λ text. ok (object_key test_driver.metadata);
  };
  is_zero_quantity = λ q. eqb q 0;
  show_quantity = show_nat;
  volume_name = λ v. v;
  mount_name = λ m. m;
  operator_namespace = "operator";
  operator_config_name = "config";
  service_account_prefix = "";
}

abbrev pub plain_env : Env ℕ test_types
plain_env = test_env (record test_csi_driver { metadata = named "a.rbd.csi.ceph.com" "" })

abbrev pub test_state : State ℕ test_types
test_state = record { driver = test_driver; driver_type = ""; images = image_defaults; world = 0 }
