-- ===== src/Driver/Network.antt =====
-- internal/controller/driver_controller.go: the network policies, the liveness service, and the number
-- of replicas.
pub mod Laws
use ceph_csi_operator.Utils.Csi.Mounts.{
  node_plugin_csi_addons_container_port, snapshot_metadata_grpc_port,
}
use ceph_csi_operator.Api.Driver.{Foreign, Driver, VolumeSpec, ControllerPluginSpec}
use ceph_csi_operator.Prelude.{
  String, Option, List, ◌∷◌, if◌then◌else◌, [], ◌==◌, some, Bool, deref, false, ltb, true, none,
  any_of, ◌++◌, length, not, ◌&&◌,
}
use ceph_csi_operator.Driver.State.{Env, State}
use ceph_csi_operator.Driver.Names.{
  generate_service_name, generate_name, controller_plugin_csi_addons_container_port,
  nfs_driver_type, rbd_driver_type,
}
use ceph_csi_operator.Api.Cluster.{NetworkPolicy, IngressRule, Service}
use ceph_csi_operator.Prelude.Result.{Result, ok, Method, err, panic, only_error, ignore_not_found}
use ceph_csi_operator.Api.Meta.{named, ObjectMeta}
use ceph_csi_operator.Prelude.Text.{ℤ, pos}
use ceph_csi_operator.Prelude.Assoc.{Assoc}

-- Peers that are the controller of csi-addons, in any namespace
abbrev pub csi_addons_pods : Assoc String
csi_addons_pods =
    ("app.kubernetes.io/name", "csi-addons") ∷ ("control-plane", "controller-manager") ∷ []

module _ {W : Type 0} {F : Foreign} (env : Env W F) where
  -- The end of a callback that sets the controller of an object
  abbrev pub controlled :
      {T : Type 0} → Result ObjectMeta → (ObjectMeta → T) → T → Result (Unit {0}) × T
  controlled (ok m) put t = (ok tt, put m)
  controlled (err e) put t = (err e, t)
  controlled panic put t = (panic, t)

  -- The callback that both policies have, over their ingress
  unfoldable pub mutate_policy : Driver F → List IngressRule → Method NetworkPolicy (Unit {0})
  mutate_policy driver ingress np =
      controlled (env.util.set_controller_reference driver.metadata np.metadata)
        (λ m. record {
          metadata = m;
          spec = record {
            pod_labels = ("app", np.metadata.name) ∷ [];
            ingress = ingress;
            open_egress = true;
            policy_types = "Ingress" ∷ "Egress" ∷ [];
          };
        })
        np

  abbrev pub new_policy : String → String → NetworkPolicy
  new_policy name namespace = record {
    metadata = named name namespace;
    spec = record { pod_labels = []; ingress = []; open_egress = false; policy_types = [] };
  }

  delete_policy : String → String → W → Result (Unit {0}) × W
  delete_policy name namespace w =
      let (r, w') = env.network_policies.delete (record { name = name; namespace = namespace }) w in
      (ignore_not_found r, w')

  write_policy : Driver F → String → List IngressRule → W → Result (Unit {0}) × W
  unfolding mutate_policy
  write_policy driver name ingress w =
      let (r, np, w') =
        env.network_policies.create_or_update (new_policy name driver.metadata.namespace)
          (mutate_policy driver ingress) w in
      (only_error r, w')

  -- `cmp.Or(r.driver.Spec.ControllerPlugin, &csiv1.ControllerPluginSpec{})`, its two fields
  abbrev pub host_network_of : Option (ControllerPluginSpec F) → Bool
  host_network_of none = false
  host_network_of (some spec) = deref spec.host_network false

  abbrev pub plugin_volumes : Option (ControllerPluginSpec F) → List (VolumeSpec F)
  plugin_volumes none = []
  plugin_volumes (some spec) = deref spec.pod_common.volumes []

  -- `tlsConfigured`
  unfoldable pub tls_configured : List (VolumeSpec F) → Bool
  tls_configured volumes = any_of (λ vol. env.volume_name vol.volume == "tls-key") volumes

  -- The rules for the controller plugin
  unfoldable pub controller_ingress : State W F → List IngressRule
  unfolding controller_plugin_csi_addons_container_port tls_configured
  controller_ingress s =
      (if deref s.driver.spec.deploy_csi_addons false
        then record {
          from_pods = some csi_addons_pods;
          tcp_ports =
              (controller_plugin_csi_addons_container_port s.driver_type).container_port ∷ [];
        }
          ∷ []
        else [])
      ++ (if s.driver_type == rbd_driver_type
            && tls_configured (plugin_volumes s.driver.spec.controller_plugin)
          then record {
            from_pods = none;
            tcp_ports = snapshot_metadata_grpc_port.container_port ∷ [];
          }
            ∷ []
          else [])

  -- `reconcileControllerPluginNetworkPolicy`
  unfoldable pub reconcile_controller_plugin_network_policy : State W F → W → Result (Unit {0}) × W
  unfolding delete_policy write_policy controller_ingress generate_name
  reconcile_controller_plugin_network_policy s =
      let name = generate_name s.driver.metadata.name "ctrlplugin" in
      if host_network_of s.driver.spec.controller_plugin
      then delete_policy name s.driver.metadata.namespace
      else write_policy s.driver name (controller_ingress s)

  -- `reconcileNodePluginCsiAddonsNetworkPolicy`
  unfoldable pub reconcile_node_plugin_csi_addons_network_policy :
      State W F → W → Result (Unit {0}) × W
  unfolding delete_policy write_policy generate_name
  reconcile_node_plugin_csi_addons_network_policy s w =
      let name = generate_name s.driver.metadata.name "nodeplugin-csi-addons" in
      if s.driver_type == nfs_driver_type
      then (ok tt, w)
      else if not (deref s.driver.spec.deploy_csi_addons false)
      then delete_policy name s.driver.metadata.namespace w
      else write_policy s.driver name
          (record {
            from_pods = some csi_addons_pods;
            tcp_ports = node_plugin_csi_addons_container_port.container_port ∷ [];
          }
            ∷ [])
          w

  unfoldable pub mutate_service : Driver F → ℤ → Method Service (Unit {0})
  mutate_service driver metrics_port service =
      controlled (env.util.set_controller_reference driver.metadata service.metadata)
        (λ m. record {
          metadata = m;
          ports =
              record {
                name = "csi-http-metrics";
                port = 8080;
                protocol = "TCP";
                target_port = metrics_port;
              }
              ∷ [];
        })
        service

  liveness_step : State W F → String → Option ℤ → W → Result (Unit {0}) × W
  unfolding mutate_service
  liveness_step s name none w =
      let (r, w') =
        env.services.delete (record { name = name; namespace = s.driver.metadata.namespace }) w in
      (ignore_not_found r, w')
  liveness_step s name (some metrics_port) w =
      let (r, service, w') =
        env.services.create_or_update
          (record { metadata = named name s.driver.metadata.namespace; ports = [] })
          (mutate_service s.driver metrics_port) w in
      (only_error r, w')

  -- `reconcileLivenessService`
  unfoldable pub reconcile_liveness_service : State W F → W → Result (Unit {0}) × W
  unfolding liveness_step generate_service_name
  reconcile_liveness_service s =
      liveness_step s (generate_service_name s.driver.metadata.name "liveness")
        s.driver.spec.liveness

  -- The number of replicas by the listing of the nodes; an error keeps the default of two.
  unfoldable pub replicas_for : Result (List String) → Result ℤ
  replicas_for (ok nodes) =
      ok (if ltb 0 (length nodes) && ltb (length nodes) 2 then pos 1 else pos 2)
  replicas_for (err e) = ok (pos 2)
  replicas_for panic = panic

  -- `getControllerPluginReplicas`
  unfoldable pub get_controller_plugin_replicas : Option ℤ → W → Result ℤ × W
  unfolding replicas_for
  get_controller_plugin_replicas (some replicas) w = (ok replicas, w)
  get_controller_plugin_replicas none w = let (r, w') = env.list_nodes w in (replicas_for r, w')
