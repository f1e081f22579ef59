-- ===== src/Startup.antt =====
-- cmd/main.go and internal/controller/defaults.go: what the environment sets when the operator starts,
-- and the steps of `main`. A step that fails ends the program with the exit code 1, an `err` here.
pub mod Namespaces
use Prim.Native.Char.{Char, code}
use ceph_csi_operator.Prelude.{
  String, Bool, true, false, Option, none, some, List, [], ◌∷◌, ◌++◌, ◌==◌, eqb, if◌then◌else◌,
  deref, not,
}
use ceph_csi_operator.Prelude.Result.{Result, Method, err, ◌>>◌, panic, ok, other}
use ceph_csi_operator.Utils.Core.{get_operator_namespace}
use ceph_csi_operator.Prelude.Assoc.{Assoc, insert}
use Prim.Native.String.{[] as nil, ◌∷◌ as ◌∷ₛ◌}

-- The environment, by `os.LookupEnv`
abbrev pub Environment : Type 0
Environment = String → Option String

-- `os.Getenv`
abbrev pub getenv : Environment → String → String
getenv environment name = deref (environment name) ""

-- `operatorNamespace`
unfoldable pub operator_namespace_of : Environment → Result String
unfolding get_operator_namespace
operator_namespace_of environment = elim (get_operator_namespace (getenv environment)) [
  | ok ns ↦ ok ns
  | err e ↦ panic
  | panic ↦ panic
]

-- `operatorConfigName`
unfoldable pub operator_config_name_of : Option String → Result String
operator_config_name_of (some name) = if name == "" then panic else ok name
operator_config_name_of none = ok "ceph-csi-operator-config"

-- `serviceAccountPrefix`
abbrev pub service_account_prefix_of : Environment → String
service_account_prefix_of environment = getenv environment "CSI_SERVICE_ACCOUNT_PREFIX"

-- `getWatchNamespace`
unfoldable pub get_watch_namespace : Environment → Result String
get_watch_namespace environment =
    let ns = getenv environment "WATCH_NAMESPACE" in
    if ns == "" then err (other "WATCH_NAMESPACE must be set") else ok ns

-- A character before the first item
abbrev pub onto_first : Char → List String → List String
onto_first c [] = (c ∷ₛ nil) ∷ []
onto_first c (s ∷ items) = (c ∷ₛ s) ∷ items

-- `strings.Split(s, ",")`
unfoldable pub split_commas : String → List String
split_commas nil = "" ∷ []
split_commas (c ∷ₛ text) =
    let rest = split_commas text in if eqb (code c) 44 then "" ∷ rest else onto_first c rest

-- `defaultNamespaces[namespace] = cache.Config{}` for each namespace
unfoldable pub put_namespaces : List String → Assoc (Unit {0}) → Assoc (Unit {0})
unfolding insert
put_namespaces [] namespaces = namespaces
put_namespaces (ns ∷ more) namespaces = put_namespaces more (insert ns tt namespaces)

-- The namespaces to watch beside the operator's; none where the variable is not set
unfoldable pub watched : Result String → List String
unfolding split_commas
watched (ok namespaces) = split_commas namespaces
watched (err e) = []
watched panic = []

-- `defaultNamespaces`, over the operator's namespace
unfoldable pub default_namespaces : Environment → String → Assoc (Unit {0})
unfolding put_namespaces watched get_watch_namespace
default_namespaces environment operator_namespace =
    put_namespaces (watched (get_watch_namespace environment)) ((operator_namespace, tt) ∷ [])

-- The flags
pub record Flags : Type 0 where
  pub metrics_addr : String
  pub probe_addr : String
  pub enable_leader_election : Bool
  pub secure_metrics : Bool
  pub metrics_cert_path : String
  pub metrics_cert_name : String
  pub metrics_cert_key : String
  pub enable_http2 : Bool

-- The changes of the TLS configuration
pub data TlsOpt : Type 0 where
  disable_http2 get_certificate : TlsOpt

-- `metricsserver.Options`; `with_filter` says that the filter of authentication is set.
pub record MetricsOptions : Type 0 where
  pub bind_address : String
  pub secure_serving : Bool
  pub tls_opts : List TlsOpt
  pub with_filter : Bool

-- `ctrl.Options`
pub record ManagerOptions : Type 0 where
  pub metrics : MetricsOptions
  pub health_probe_bind_address : String
  pub leader_election : Bool
  pub leader_election_id : String
  pub default_namespaces : Assoc (Unit {0})

-- The calls of controller-runtime, each on the state of the program; the controllers by their names
pub record Calls (W : Type 0) : Type 0 where
  -- over the directory and the names of the certificate and its key
  pub new_cert_watcher : String → String → String → Method W (Unit {0})
  pub new_manager : ManagerOptions → Method W (Unit {0})
  pub setup_with_manager : String → Method W (Unit {0})
  pub add_cert_watcher : Method W (Unit {0})
  pub add_healthz_check : String → Method W (Unit {0})
  pub add_readyz_check : String → Method W (Unit {0})
  pub start : Method W (Unit {0})

abbrev pub has_certificate : Flags → Bool
has_certificate flags = not (flags.metrics_cert_path == "")

abbrev pub metrics_options : Flags → MetricsOptions
metrics_options flags = record {
  bind_address = flags.metrics_addr;
  secure_serving = flags.secure_metrics;
  tls_opts =
      (if not flags.enable_http2 then disable_http2 ∷ [] else [])
      ++ (if has_certificate flags then get_certificate ∷ [] else []);
  with_filter = flags.secure_metrics;
}

module _ {W : Type 0} (calls : Calls W) where
  unfoldable pub when : Bool → Method W (Unit {0}) → Method W (Unit {0})
  when cond m w = if cond then m w else (ok tt, w)

  -- The four controllers
  unfoldable pub setup_controllers : Method W (Unit {0})
  setup_controllers = do
    calls.setup_with_manager "Driver"
    calls.setup_with_manager "ClientProfile"
    calls.setup_with_manager "ClientProfileMapping"
    calls.setup_with_manager "ClientProfileReplication"

  -- The checks, and the run until the program is told to stop
  unfoldable pub serve : Flags → Method W (Unit {0})
  unfolding when
  serve flags = do
    when (has_certificate flags) calls.add_cert_watcher
    calls.add_healthz_check "healthz"
    calls.add_readyz_check "readyz"
    calls.start

  abbrev pub manager_options : Flags → Environment → String → ManagerOptions
  manager_options flags environment operator_namespace = record {
    metrics = metrics_options flags;
    health_probe_bind_address = flags.probe_addr;
    leader_election = flags.enable_leader_election;
    leader_election_id = "0a62cc8a.ceph.io";
    default_namespaces = default_namespaces environment operator_namespace;
  }

  unfoldable pub run_manager : Flags → Environment → Result String → Method W (Unit {0})
  unfolding setup_controllers serve
  run_manager flags environment (ok operator_namespace) =
      calls.new_manager (manager_options flags environment operator_namespace)
      >> (setup_controllers >> serve flags)
  run_manager flags environment (err e) = λ w. (err e, w)
  run_manager flags environment panic = λ w. (panic, w)

  -- `main`, behind the parsing of the flags
  unfoldable pub main : Flags → Environment → Method W (Unit {0})
  unfolding run_manager get_operator_namespace
  main flags environment =
      when (has_certificate flags) (
        calls.new_cert_watcher flags.metrics_cert_path flags.metrics_cert_name
          flags.metrics_cert_key)
      >> run_manager flags environment (get_operator_namespace (getenv environment))
