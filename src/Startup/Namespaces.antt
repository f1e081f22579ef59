-- ===== src/Startup/Namespaces.antt =====
-- cmd/main.go: which namespaces the cache holds, and when the program comes to its end without an error.
use ceph_csi_operator.Startup.{
  put_namespaces, operator_namespace_of, default_namespaces, Environment, getenv, watched,
  get_watch_namespace, Calls, run_manager, setup_controllers, Flags, manager_options, main, when,
  has_certificate, serve, split_commas,
}
use ceph_csi_operator.Utils.Core.{get_operator_namespace}
use ceph_csi_operator.Prelude.Assoc.{Assoc, lookup, insert, lookup-insert}
use ceph_csi_operator.Prelude.Keyed.{mem_key}
use ceph_csi_operator.Prelude.Result.{panic, ok, Result, >>-eq-ok, err, ◌>>◌}
use mathlib.Core.Path.{subst}
use ceph_csi_operator.Prelude.{
  not, ◌&&◌, inl, inr, Bool-cases, if◌then◌else◌, ap, sym, String, true, List, [], ◌∷◌, ◌==◌, ◌||◌,
  ◌≡◌, refl, is_some, arith,
}

put_namespaces-lookup :
    (k : String) (added : List String) (namespaces : Assoc (Unit {0}))
    → is_some (lookup k (put_namespaces added namespaces))
      ≡ (mem_key k added || is_some (lookup k namespaces))
unfolding put_namespaces
put_namespaces-lookup k [] namespaces = refl
put_namespaces-lookup k (ns ∷ added) namespaces = ground (
  arith,
  put_namespaces-lookup k added (insert ns tt namespaces),
  lookup-insert ns k tt namespaces,
)

watched-mem_key :
    (environment : Environment) (k : String)
    → mem_key k (watched (get_watch_namespace environment)) ≡ (
        not (getenv environment "WATCH_NAMESPACE" == "")
        && mem_key k (split_commas (getenv environment "WATCH_NAMESPACE")))
unfolding watched get_watch_namespace
watched-mem_key environment k = elim (Bool-cases (getenv environment "WATCH_NAMESPACE" == "")) [
  | inl e ↦ rw e refl
  | inr e ↦ rw e refl
]

-- The cache holds the operator's namespace and each item of `WATCH_NAMESPACE`, and no other namespace;
-- only the operator's where the variable is empty or not set.
pub default_namespaces-lookup :
    (environment : Environment) (operator_namespace k : String)
    → is_some (lookup k (default_namespaces environment operator_namespace)) ≡ (
        (not (getenv environment "WATCH_NAMESPACE" == "")
          && mem_key k (split_commas (getenv environment "WATCH_NAMESPACE")))
        || operator_namespace == k)
unfolding default_namespaces lookup
default_namespaces-lookup environment operator_namespace k = ground (
  arith,
  put_namespaces-lookup k (watched (get_watch_namespace environment))
      ((operator_namespace, tt) ∷ []),
  watched-mem_key environment k,
)

-- Where the variable is missing or empty, the initialization of the controllers panics, before `main`.
pub operator_namespace_of-missing :
    (environment : Environment)
    → (getenv environment "OPERATOR_NAMESPACE" == "") ≡ true
    → operator_namespace_of environment ≡ panic
unfolding operator_namespace_of get_operator_namespace
operator_namespace_of-missing environment h = ground (arith, h)

module _ {W : Type 0} (calls : Calls W) (flags : Flags) (environment : Environment) where
  -- The calls behind the controllers, each on the state that the call before left: the certificate's
  -- watcher where there is one, the checks, and the run of the manager
  abbrev Behind : W → W → Type 0
  Behind v w' =
      let watcher = if has_certificate flags then calls.add_cert_watcher v else (ok tt, v) in
      let healthz = calls.add_healthz_check "healthz" watcher.1 in
      let readyz = calls.add_readyz_check "readyz" healthz.1 in
      (watcher.0 ≡ ok tt)
      × (healthz.0 ≡ ok tt)
      × (readyz.0 ≡ ok tt)
      × (calls.start readyz.1 ≡ (ok tt, w'))

  -- The calls behind the making of the manager: the four controllers, and the rest
  abbrev Serves : W → W → Type 0
  Serves v w' =
      let driver = calls.setup_with_manager "Driver" v in
      let profile = calls.setup_with_manager "ClientProfile" driver.1 in
      let mapping = calls.setup_with_manager "ClientProfileMapping" profile.1 in
      let replication = calls.setup_with_manager "ClientProfileReplication" mapping.1 in
      (driver.0 ≡ ok tt)
      × (profile.0 ≡ ok tt)
      × (mapping.0 ≡ ok tt)
      × (replication.0 ≡ ok tt)
      × Behind replication.1 w'

  -- The calls of a run that came to its end without an error
  abbrev pub Served : W → Type 0
  Served w' =
      (ns : String) × (v : W) × (get_operator_namespace (getenv environment) ≡ ok ns)
      × (let made = calls.new_manager (manager_options calls flags environment ns) v in
          (made.0 ≡ ok tt) × Serves made.1 w')

  set_up-ok :
      (v v' : W)
      → setup_controllers calls v ≡ (ok tt, v')
      → (let driver = calls.setup_with_manager "Driver" v in
          let profile = calls.setup_with_manager "ClientProfile" driver.1 in
          let mapping = calls.setup_with_manager "ClientProfileMapping" profile.1 in
          (driver.0 ≡ ok tt)
          × (profile.0 ≡ ok tt)
          × (mapping.0 ≡ ok tt)
          × (calls.setup_with_manager "ClientProfileReplication" mapping.1 ≡ (ok tt, v')))
  unfolding setup_controllers
  set_up-ok v v' h =
      let driver = calls.setup_with_manager "Driver" in
      let profile = calls.setup_with_manager "ClientProfile" in
      let mapping = calls.setup_with_manager "ClientProfileMapping" in
      let replication = calls.setup_with_manager "ClientProfileReplication" in
      let (a, h1) = >>-eq-ok driver (profile >> (mapping >> replication)) v v' tt h in
      let (b, h2) = >>-eq-ok profile (mapping >> replication) (driver v).1 v' tt h1 in
      let (c, h3) = >>-eq-ok mapping replication (profile (driver v).1).1 v' tt h2 in (a, b, c, h3)

  served-ok : (v w' : W) → serve calls flags v ≡ (ok tt, w') → Behind v w'
  unfolding serve when
  served-ok v w' h =
      let watcher = when calls (has_certificate flags) calls.add_cert_watcher in
      let healthz = calls.add_healthz_check "healthz" in
      let readyz = calls.add_readyz_check "readyz" in
      let (a, h1) = >>-eq-ok watcher (healthz >> (readyz >> calls.start)) v w' tt h in
      let (b, h2) = >>-eq-ok healthz (readyz >> calls.start) (watcher v).1 w' tt h1 in
      let (c, h3) = >>-eq-ok readyz calls.start (healthz (watcher v).1).1 w' tt h2 in (a, b, c, h3)

  serves : (v w' : W) → (setup_controllers calls >> serve calls flags) v ≡ (ok tt, w') → Serves v w'
  serves v w' h =
      let (set_up, h1) = >>-eq-ok (setup_controllers calls) (serve calls flags) v w' tt h in
      let v' = (setup_controllers calls v).1 in
      let (a, b, c, d) = set_up-ok v v' (λ i. (set_up i, v')) in
      (a, b, c, ap (λ x. x.0) d, subst (λ x. Behind x.1 w') (sym d) (served-ok v' w' h1))

  run_manager-Served :
      (ns : Result String) (w w' : W)
      → get_operator_namespace (getenv environment) ≡ ns
      → run_manager calls flags environment ns w ≡ (ok tt, w')
      → Served w'
  unfolding run_manager
  run_manager-Served (ok ns) w w' e h =
      let new_manager = calls.new_manager (manager_options calls flags environment ns) in
      let (made, h1) =
        >>-eq-ok new_manager (setup_controllers calls >> serve calls flags) w w' tt h in
      (ns, w, e, (made, serves (new_manager w).1 w' h1))
  run_manager-Served (err x) w w' e h = ground (arith, h)
  run_manager-Served panic w w' e h = ground (arith, h)

  -- A run of `main` that ends without an error found the operator's namespace in the environment, made the
  -- manager with it, set up the controllers of drivers, profiles, mappings and replications, each once and
  -- in this order, added the checks, and only then started the manager, which ran to its end.
  pub main-Served : (w w' : W) → main calls flags environment w ≡ (ok tt, w') → Served w'
  unfolding main
  main-Served w w' h =
      let watcher = when calls (has_certificate flags) (
        calls.new_cert_watcher flags.metrics_cert_path flags.metrics_cert_name
          flags.metrics_cert_key) in
      let ns = get_operator_namespace (getenv environment) in
      let (made, h1) = >>-eq-ok watcher (run_manager calls flags environment ns) w w' tt h in
      run_manager-Served ns (watcher w).1 w' refl h1
