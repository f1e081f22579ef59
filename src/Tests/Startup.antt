-- ===== src/Tests/Startup.antt =====
-- The start of the operator at concrete inputs.
use ceph_csi_operator.Startup.{
  Environment, Flags, Calls, default_namespaces, main, setup_controllers, when, run_manager, serve,
  split_commas, getenv,
}
use ceph_csi_operator.Startup.Namespaces.{default_namespaces-lookup, main-Served, Served}
use ceph_csi_operator.Utils.Core.{get_operator_namespace}
use ceph_csi_operator.Prelude.Assoc.{lookup}
use ceph_csi_operator.Prelude.Keyed.{mem_key}
use ceph_csi_operator.Prelude.Result.{ok}
use ceph_csi_operator.Prelude.{
  ℕ, true, false, none, some, [], ◌∷◌, ◌≡◌, ◌==◌, ◌||◌, not, ◌&&◌, is_some, refl, if◌then◌else◌,
}

abbrev test_environment : Environment
test_environment name =
    if name == "OPERATOR_NAMESPACE"
    then some "ceph"
    else if name == "WATCH_NAMESPACE"
    then some "blue,red"
    else none

default_namespaces-lookup_example :
    is_some (lookup "red" (default_namespaces test_environment "ceph")) ≡ (
      (not (getenv test_environment "WATCH_NAMESPACE" == "")
        && mem_key "red" (split_commas (getenv test_environment "WATCH_NAMESPACE")))
      || "ceph" == "red")
default_namespaces-lookup_example = default_namespaces-lookup test_environment "ceph" "red"

split_blue_red : split_commas "blue,red" ≡ "blue" ∷ "red" ∷ []
unfolding split_commas
split_blue_red = refl

abbrev test_flags : Flags
test_flags = record {
  metrics_addr = "0";
  probe_addr = ":8081";
  enable_leader_election = false;
  secure_metrics = true;
  metrics_cert_path = "";
  metrics_cert_name = "tls.crt";
  metrics_cert_key = "tls.key";
  enable_http2 = false;
}

-- Calls that all succeed
abbrev test_calls : Calls ℕ
test_calls = record {
  new_cert_watcher = λ path name key w. (ok tt, w);
  new_manager = λ options w. (ok tt, w);
  setup_with_manager = λ controller w. (ok tt, w);
  add_cert_watcher = λ w. (ok tt, w);
  add_healthz_check = λ check w. (ok tt, w);
  add_readyz_check = λ check w. (ok tt, w);
  start = λ w. (ok tt, w);
}

main-ok : main test_calls test_flags test_environment 0 ≡ (ok tt, 0)
unfolding main when run_manager setup_controllers serve get_operator_namespace
main-ok = refl

main-Served_example : Served test_calls test_flags test_environment 0
main-Served_example = main-Served test_calls test_flags test_environment 0 0 main-ok
