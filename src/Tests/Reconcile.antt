-- ===== src/Tests/Reconcile.antt =====
-- The concurrent run of a driver's steps, at concrete inputs.
use ceph_csi_operator.Driver.State.{Env, State, annotations_of}
use ceph_csi_operator.Driver.Reconcile.{reconcile, value_of, reconcilers}
use ceph_csi_operator.Api.Driver.{Driver}
use ceph_csi_operator.Driver.Reconcile.Laws.{
  is_ok, reconcile_fails, AlwaysFails, reconcile_succeeds, AlwaysSucceeds,
}
use ceph_csi_operator.Driver.Load.{load_and_validate_desired_state}
use ceph_csi_operator.Tests.DriverData.{test_types, test_state, plain_env, test_driver}
use ceph_csi_operator.Prelude.Assoc.{lookup}
use ceph_csi_operator.Prelude.Result.{err, other, ok}
use ceph_csi_operator.Driver.Names.{match_name}
use ceph_csi_operator.Tests.Data.{store_of}
use ceph_csi_operator.Driver.Pods.Node.Addons.{
  driver_csi_addons_feature_volume_condition, reconcile_node_plugin_daemon_set_for_csi_addons,
}
use ceph_csi_operator.Driver.LogRotate.{reconcile_csi_config_map, reconcile_log_rotate_config_map}
use ceph_csi_operator.Driver.CsiDriver.{reconcile_k8s_csi_driver}
use ceph_csi_operator.Driver.Pods.Node.AddonsLaws.{
  reconcile_node_plugin_daemon_set_for_csi_addons-refused,
}
use ceph_csi_operator.Driver.Pods.Controller.Deploy.{reconcile_controller_plugin_deployment}
use ceph_csi_operator.Driver.Network.{
  reconcile_controller_plugin_network_policy, reconcile_liveness_service,
  reconcile_node_plugin_csi_addons_network_policy, get_controller_plugin_replicas,
}
use ceph_csi_operator.Driver.Pods.Node.{reconcile_node_plugin_daemon_set}
use ceph_csi_operator.Utils.Concurrent.{step}
use ceph_csi_operator.Prelude.{ℕ, false, some, List, [], ◌∷◌, ◌≡◌, refl, All, inl, inr, ap, is_some}

-- A driver whose annotation for the volume condition is not a Boolean
abbrev odd_driver : Driver test_types
odd_driver = record test_driver {
  metadata = record test_driver.metadata {
    annotations = some (("addons.csi.ceph.io/volume-condition", "maybe") ∷ []);
  };
}

abbrev odd_env : Env ℕ test_types
odd_env = record plain_env { drivers = store_of odd_driver [] }

abbrev loaded_of : Env ℕ test_types → State ℕ test_types
loaded_of env = (load_and_validate_desired_state env test_state).1

-- Each of the nine goroutines makes its step, and sends its value.
abbrev in_order : List ℕ
in_order = 0 ∷ 0 ∷ 0 ∷ 0 ∷ 0 ∷ 0 ∷ 0 ∷ 0 ∷ 0 ∷ 0 ∷ 0 ∷ 0 ∷ 0 ∷ 0 ∷ 0 ∷ 0 ∷ 0 ∷ 0 ∷ []

odd-loaded : load_and_validate_desired_state odd_env test_state ≡ (ok tt, loaded_of odd_env)
unfolding load_and_validate_desired_state match_name
odd-loaded = refl

odd-run : reconcile odd_env in_order test_state ≡ some (err (other "invalid syntax"), 8)
unfolding reconcile match_name reconcile_csi_config_map reconcile_log_rotate_config_map
    reconcile_k8s_csi_driver reconcile_controller_plugin_deployment
    reconcile_controller_plugin_network_policy reconcile_node_plugin_daemon_set
    reconcile_liveness_service reconcile_node_plugin_daemon_set_for_csi_addons
    reconcile_node_plugin_csi_addons_network_policy step get_controller_plugin_replicas
odd-run = refl

odd-annotation :
    lookup driver_csi_addons_feature_volume_condition
      (annotations_of (loaded_of odd_env).driver.metadata)
    ≡ some "maybe"
unfolding load_and_validate_desired_state lookup match_name
odd-annotation = refl

odd-fails :
    AlwaysFails (reconcile_node_plugin_daemon_set_for_csi_addons odd_env (loaded_of odd_env))
odd-fails w =
    ap (λ x. is_some (value_of x.0))
      (reconcile_node_plugin_daemon_set_for_csi_addons-refused odd_env (loaded_of odd_env) "maybe" w
        odd-annotation refl refl)

reconcile_fails_example : is_ok (err (other "invalid syntax")) ≡ false
unfolding reconcilers
reconcile_fails_example =
    reconcile_fails odd_env in_order test_state (loaded_of odd_env) (err (other "invalid syntax")) 8
      odd-loaded (inr (inr (inr (inr (inr (inr (inr (inl odd-fails)))))))) odd-run

plain-loaded : load_and_validate_desired_state plain_env test_state ≡ (ok tt, loaded_of plain_env)
unfolding load_and_validate_desired_state match_name
plain-loaded = refl

plain-run : reconcile plain_env in_order test_state ≡ some (ok tt, 9)
unfolding reconcile match_name reconcile_csi_config_map reconcile_log_rotate_config_map
    reconcile_k8s_csi_driver reconcile_controller_plugin_deployment
    reconcile_controller_plugin_network_policy reconcile_node_plugin_daemon_set
    reconcile_liveness_service reconcile_node_plugin_daemon_set_for_csi_addons
    reconcile_node_plugin_csi_addons_network_policy step get_controller_plugin_replicas
plain-run = refl

plain-steps : All AlwaysSucceeds (reconcilers plain_env (loaded_of plain_env))
unfolding reconcilers load_and_validate_desired_state match_name reconcile_csi_config_map
    reconcile_log_rotate_config_map reconcile_k8s_csi_driver reconcile_controller_plugin_deployment
    reconcile_controller_plugin_network_policy reconcile_node_plugin_daemon_set
    reconcile_liveness_service reconcile_node_plugin_daemon_set_for_csi_addons
    reconcile_node_plugin_csi_addons_network_policy step get_controller_plugin_replicas
plain-steps = (
  λ w. refl,
  (
    λ w. refl,
    (λ w. refl, (λ w. refl, (λ w. refl, (λ w. refl, (λ w. refl, (λ w. refl, (λ w. refl, tt))))))),
  ),
)

reconcile_succeeds_example : ok (tt {0}) ≡ ok tt
reconcile_succeeds_example =
    reconcile_succeeds plain_env in_order test_state (loaded_of plain_env) (ok tt) 9 plain-loaded
      plain-steps plain-run
