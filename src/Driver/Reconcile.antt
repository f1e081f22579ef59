-- ===== src/Driver/Reconcile.antt =====
-- internal/controller/driver_controller.go: `Reconcile` and `reconcile`, the concurrent run of the steps. A
-- schedule says which goroutine goes on next; a step is one move of its goroutine.
pub mod Laws
use ceph_csi_operator.Utils.Concurrent.{
  Task, join_errors, Pool, running, run, returned, run_concurrently,
}
use ceph_csi_operator.Prelude.Text.{join, pos}
use ceph_csi_operator.Prelude.Result.{Result, panic, Error, message, err, ok, other}
use ceph_csi_operator.Api.Driver.{Foreign, DriverSpec}
use ceph_csi_operator.Driver.State.{Env, State}
use ceph_csi_operator.Driver.Load.{load_and_validate_desired_state}
use ceph_csi_operator.Api.Meta.{ObjectKey, named}
use ceph_csi_operator.Driver.LogRotate.{reconcile_csi_config_map, reconcile_log_rotate_config_map}
use ceph_csi_operator.Driver.CsiDriver.{reconcile_k8s_csi_driver}
use ceph_csi_operator.Driver.Pods.Controller.Deploy.{reconcile_controller_plugin_deployment}
use ceph_csi_operator.Driver.Network.{
  reconcile_controller_plugin_network_policy, reconcile_liveness_service,
  reconcile_node_plugin_csi_addons_network_policy,
}
use ceph_csi_operator.Driver.Pods.Node.{reconcile_node_plugin_daemon_set}
use ceph_csi_operator.Driver.Pods.Node.Addons.{reconcile_node_plugin_daemon_set_for_csi_addons}
use ceph_csi_operator.Prelude.{
  Bool, String, true, false, Option, none, some, List, [], ◌∷◌, ◌||◌, if◌then◌else◌, ℕ, map,
}

abbrev pub Action : Type 0 → Type 0
Action W = W → Result (Unit {0}) × W

-- The value that a function sends: its error, or nil. One that panics sends none, and the program ends.
abbrev pub value_of : Result (Unit {0}) → Option Error
value_of (err e) = some e
value_of _ = none

abbrev pub is_panic : Result (Unit {0}) → Bool
is_panic panic = true
is_panic _ = false

-- A goroutine for a step; beside the cluster stands whether a goroutine has panicked.
unfoldable pub task_of : {W : Type 0} → Action W → Task (W × Bool)
task_of f =
    running (λ shared. returned (value_of (f shared.0).0))
      (λ shared. ((f shared.0).1, shared.1 || is_panic (f shared.0).0))

-- The error of `errors.Join`
unfoldable pub joined : Option (List Error) → Result (Unit {0})
unfolding join message
joined none = ok tt
joined (some errors) = err (other (join "\n" (map message errors)))

-- What the run has come to, once every goroutine is done
unfoldable pub outcome : {W : Type 0} → Pool (W × Bool) → Option (Result (Unit {0}) × W)
unfolding joined join_errors
outcome p = elim p.tasks [
  | [] ↦ some (if p.world.1 then panic else joined (join_errors p.received), p.world.0)
  | ◌∷◌ task tasks ↦ none
]

-- `csiv1.DriverSpec{}`
abbrev pub zero_driver_spec : {F : Foreign} → DriverSpec F
zero_driver_spec = record {
  log = none;
  image_set = none;
  cluster_name = none;
  enable_metadata = none;
  enable_fencing = none;
  g_rpc_timeout = pos 0;
  snapshot_policy = "";
  generate_omap_info = none;
  fs_group_policy = "";
  encryption = none;
  node_plugin = none;
  controller_plugin = none;
  attach_required = none;
  liveness = none;
  leader_election = none;
  deploy_csi_addons = none;
  ceph_fs_client_type = "";
  kernel_mount_options = none;
  fuse_mount_options = none;
}

module _ {W : Type 0} {F : Foreign} (env : Env W F) where
  -- `reconcilers`, over the receiver
  unfoldable pub reconcilers : State W F → List (Action W)
  reconcilers s =
      reconcile_csi_config_map env s
      ∷ reconcile_log_rotate_config_map env s
      ∷ reconcile_k8s_csi_driver env s
      ∷ reconcile_controller_plugin_deployment env s
      ∷ reconcile_controller_plugin_network_policy env s
      ∷ reconcile_node_plugin_daemon_set env s
      ∷ reconcile_liveness_service env s
      ∷ reconcile_node_plugin_daemon_set_for_csi_addons env s
      ∷ reconcile_node_plugin_csi_addons_network_policy env s
      ∷ []

  -- The concurrent run, from the cluster of the receiver
  unfoldable pub run_reconcilers : List ℕ → State W F → Pool (W × Bool)
  unfolding reconcilers task_of run
  run_reconcilers schedule s =
      run schedule (run_concurrently (map task_of (reconcilers s)) (s.world, false))

  after_load : List ℕ → Result (Unit {0}) → State W F → Option (Result (Unit {0}) × W)
  unfolding run_reconcilers outcome
  after_load schedule (ok u) s = outcome (run_reconcilers schedule s)
  after_load schedule (err e) s = some (err e, s.world)
  after_load schedule panic s = some (panic, s.world)

  -- `reconcile`; `none` while a goroutine has not come to its end by the schedule
  unfoldable pub reconcile : List ℕ → State W F → Option (Result (Unit {0}) × W)
  unfolding after_load load_and_validate_desired_state
  reconcile schedule s =
      let (r, s') = load_and_validate_desired_state env s in after_load schedule r s'

  -- The zero value of the receiver, for the name in a request
  abbrev pub receiver : ObjectKey → W → State W F
  receiver req w = record {
    driver = record { metadata = named req.name req.namespace; spec = zero_driver_spec };
    driver_type = "";
    images = [];
    world = w;
  }

  -- `Reconcile`, whose result is empty beside the error
  unfoldable pub reconcile_request : List ℕ → ObjectKey → W → Option (Result (Unit {0}) × W)
  unfolding reconcile
  reconcile_request schedule req w = reconcile schedule (receiver req w)
