-- ===== src/Driver/Pods/Ports.antt =====
-- internal/controller/driver_controller.go: the ports of the controller plugin's containers, against those
-- that its network policy opens.
use ceph_csi_operator.Api.Driver.{Foreign, ControllerPluginSpec, VolumeSpec}
use ceph_csi_operator.Api.Cluster.{IngressRule}
use ceph_csi_operator.Api.Pods.{Container}
use mathlib.Core.List.{append-nil, append_assoc}
use ceph_csi_operator.Driver.Pods.{appended, controller_plugin_of}
use ceph_csi_operator.Driver.State.{Env, State}
use ceph_csi_operator.Driver.Network.{
  tls_configured, csi_addons_pods, controller_ingress, plugin_volumes,
}
use ceph_csi_operator.Driver.Pods.Controller.Sidecars.{
  snapshot_metadata_container, liveness_container, addons_container, provisioner_container,
  snapshotter_container, ex_snapshotter_container, resizer_container, omap_generator_container,
  attacher_container, log_rotator_container,
}
use ceph_csi_operator.Driver.Names.{
  rbd_driver_type, controller_plugin_csi_addons_container_port, nfs_driver_type,
}
use ceph_csi_operator.Driver.Pods.Controller.Deploy.{
  tls_volume, controller_containers, tls_of, with_addons, first_containers, with_snapshotter,
  with_ex_snapshotter, with_omap_generator,
}
use ceph_csi_operator.Driver.Pods.Controller.{plugin_container, log_rotation}
use ceph_csi_operator.Utils.Csi.Mounts.{snapshot_metadata_grpc_port}
use ceph_csi_operator.Prelude.Text.{ℤ}
use ceph_csi_operator.Prelude.Keyed.{find_by}
use ceph_csi_operator.Prelude.{
  Bool, true, false, Option, none, some, List, [], ◌∷◌, ◌++◌, is_some, ◌≡◌, refl, map, ◌==◌, ℕ, ap,
  sym, ◌∙◌, Bool-cases, inl, inr, arith, deref, if◌then◌else◌, ◌&&◌,
}

unfoldable pub open_ports : List IngressRule → List ℕ
open_ports [] = []
open_ports (rule ∷ rules) = rule.tcp_ports ++ open_ports rules

module _ {F : Foreign} where
  unfoldable pub ports_of : List (Container F) → List ℕ
  ports_of [] = []
  ports_of (c ∷ containers) = map (λ p. p.container_port) c.ports ++ ports_of containers

  ports_of-append : (xs ys : List (Container F)) → ports_of (xs ++ ys) ≡ ports_of xs ++ ports_of ys
  unfolding ports_of
  ports_of-append [] ys = refl
  ports_of-append (c ∷ xs) ys =
      ap (λ rest. map (λ p. p.container_port) c.ports ++ rest) (ports_of-append xs ys)
      ∙ sym (append_assoc (map (λ p. p.container_port) c.ports) (ports_of xs) (ports_of ys))

  -- Containers without ports
  ports_of-skip :
      (xs ys : List (Container F)) → ports_of ys ≡ [] → ports_of (xs ++ ys) ≡ ports_of xs
  ports_of-skip xs ys h = ports_of-append xs ys ∙ rw h (append-nil (ports_of xs))

  appended-skip :
      (cond : Bool) (c : Container F) → c.ports ≡ [] → ports_of (appended cond (c ∷ [])) ≡ []
  unfolding ports_of
  appended-skip true c h = rw h refl
  appended-skip false c h = refl

open_ports-append :
    (xs ys : List IngressRule) → open_ports (xs ++ ys) ≡ open_ports xs ++ open_ports ys
unfolding open_ports
open_ports-append [] ys = refl
open_ports-append (rule ∷ xs) ys =
    ap (λ rest. rule.tcp_ports ++ rest) (open_ports-append xs ys)
    ∙ sym (append_assoc rule.tcp_ports (open_ports xs) (open_ports ys))

module _ {W : Type 0} {F : Foreign} (env : Env W F) (s : State W F) where
  liveness-skip : (port : Option ℤ) → ports_of (liveness_container s port) ≡ []
  unfolding liveness_container ports_of
  liveness-skip none = refl
  liveness-skip (some port) = refl

  first-skip : ports_of (first_containers env s) ≡ []
  unfolding ports_of plugin_container provisioner_container resizer_container attacher_container
  first-skip = refl

  -- Only csi-addons and the snapshot metadata have ports.
  controller-ports_of :
      ports_of (controller_containers env s)
      ≡ ports_of (appended (with_addons env s) (addons_container s ∷ []))
        ++ ports_of (snapshot_metadata_container s (tls_of env s))
  unfolding controller_containers snapshotter_container ex_snapshotter_container
      omap_generator_container log_rotator_container
  controller-ports_of =
      let c1 =
        first_containers env s
        ++ appended (with_snapshotter env s) (snapshotter_container s ∷ []) in
      let c2 = c1 ++ appended (with_ex_snapshotter env s) (ex_snapshotter_container s ∷ []) in
      let addons = appended (with_addons env s) (addons_container s ∷ []) in
      let c3 = c2 ++ addons in
      let c4 = c3 ++ appended (with_omap_generator env s) (omap_generator_container s ∷ []) in
      let c5 = c4 ++ liveness_container s s.driver.spec.liveness in
      let c6 = c5 ++ appended (is_some (log_rotation s)) (log_rotator_container s ∷ []) in
      let none_before : ports_of c2 ≡ [] =
        ports_of-skip c1 _
          (appended-skip (with_ex_snapshotter env s) (ex_snapshotter_container s) refl)
        ∙ ports_of-skip (first_containers env s) _
            (appended-skip (with_snapshotter env s) (snapshotter_container s) refl)
        ∙ first-skip in
      let all : ports_of c6 ≡ ports_of addons =
        ports_of-skip c5 _ (appended-skip (is_some (log_rotation s)) (log_rotator_container s) refl)
        ∙ ports_of-skip c4 _ (liveness-skip s.driver.spec.liveness)
        ∙ ports_of-skip c3 _
            (appended-skip (with_omap_generator env s) (omap_generator_container s) refl)
        ∙ ports_of-append c2 addons
        ∙ ap (λ before. before ++ ports_of addons) none_before in
      ports_of-append c6 (snapshot_metadata_container s (tls_of env s))
      ∙ ap (λ ports. ports ++ ports_of (snapshot_metadata_container s (tls_of env s))) all

  is_some-find_by :
      (volumes : List (VolumeSpec F))
      → is_some (find_by (λ vol. env.volume_name vol.volume) "tls-key" volumes)
        ≡ tls_configured env volumes
  unfolding tls_configured
  is_some-find_by [] = refl
  is_some-find_by (v ∷ volumes) = ground (arith, is_some-find_by volumes)

  same_volumes :
      (spec : Option (ControllerPluginSpec F))
      → deref (controller_plugin_of spec).pod_common.volumes [] ≡ plugin_volumes env spec
  same_volumes none = refl
  same_volumes (some spec) = refl

  abbrev addons_rules : List IngressRule
  addons_rules =
      if deref s.driver.spec.deploy_csi_addons false
      then record {
        from_pods = some csi_addons_pods;
        tcp_ports = (controller_plugin_csi_addons_container_port s.driver_type).container_port ∷ [];
      }
        ∷ []
      else []

  abbrev metadata_rules : List IngressRule
  metadata_rules =
      if s.driver_type == rbd_driver_type
        && tls_configured env (plugin_volumes env s.driver.spec.controller_plugin)
      then record { from_pods = none; tcp_ports = snapshot_metadata_grpc_port.container_port ∷ [] }
        ∷ []
      else []

  addons-ports :
      (s.driver_type == nfs_driver_type) ≡ false
      → ports_of (appended (with_addons env s) (addons_container s ∷ [])) ≡ open_ports addons_rules
  unfolding ports_of open_ports addons_container
  addons-ports h = elim (Bool-cases (deref s.driver.spec.deploy_csi_addons false)) [
    | inl e ↦ rw (h, e) refl
    | inr e ↦ rw (h, e) refl
  ]

  metadata-ports :
      (tls : Option (VolumeSpec F))
      → (s.driver_type == rbd_driver_type
          && tls_configured env (plugin_volumes env s.driver.spec.controller_plugin))
        ≡ is_some tls
      → ports_of (snapshot_metadata_container s tls) ≡ open_ports metadata_rules
  unfolding ports_of open_ports snapshot_metadata_container
  metadata-ports none h = rw h refl
  metadata-ports (some tls) h = rw h refl

  tls_of-configured :
      (s.driver_type == rbd_driver_type
        && tls_configured env (plugin_volumes env s.driver.spec.controller_plugin))
      ≡ is_some (tls_of env s)
  unfolding tls_volume
  tls_of-configured = elim (Bool-cases (s.driver_type == rbd_driver_type)) [
    | inl e ↦ rw (e, is_some-find_by, same_volumes s.driver.spec.controller_plugin) refl
    | inr e ↦ rw e refl
  ]

  -- For a driver that is not of the NFS type, the network policy of the controller plugin opens exactly
  -- the ports that the containers of its pod have.
  pub controller_ingress-ports :
      (s.driver_type == nfs_driver_type) ≡ false
      → ports_of (controller_containers env s) ≡ open_ports (controller_ingress env s)
  unfolding controller_ingress
  controller_ingress-ports h =
      controller-ports_of
      ∙ ap (λ ports. ports ++ ports_of (snapshot_metadata_container s (tls_of env s)))
          (addons-ports h)
      ∙ ap (λ ports. open_ports addons_rules ++ ports)
          (metadata-ports (tls_of env s) tls_of-configured)
      ∙ sym (open_ports-append addons_rules metadata_rules)
