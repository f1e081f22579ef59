-- ===== src/Driver/Pods/Controller/Deploy.antt =====
-- internal/controller/driver_controller.go: `reconcileControllerPluginDeployment` and
-- `getControllerPluginPodAffinity`, round the containers.
use ceph_csi_operator.Api.Driver.{Foreign, Affinity, built_in, VolumeSpec, Given}
use ceph_csi_operator.Driver.State.{Env, State}
use ceph_csi_operator.Prelude.Assoc.{Assoc}
use ceph_csi_operator.Driver.Names.{generate_name, ceph_fs_driver_type}
use ceph_csi_operator.Driver.Pods.Controller.{
  sn_policy, plugin_container, plugin_spec, log_rotation,
}
use ceph_csi_operator.Driver.Pods.{
  is_rbd_driver, image_of, is_nfs_driver, is_ceph_fs_driver, none_snapshot_policy, appended,
  strategy_of, service_account, default_deployment_strategy, with_user_volumes, kms_volumes,
  log_volumes,
}
use ceph_csi_operator.Api.Pods.{PodSpec, Container, DeploymentSpec, Deployment}
use ceph_csi_operator.Prelude.Keyed.{find_by}
use ceph_csi_operator.Prelude.Text.{ℤ}
use ceph_csi_operator.Prelude.Result.{Result, Method, ok, only_error, err, panic}
use ceph_csi_operator.Api.Meta.{ObjectMeta, named}
use ceph_csi_operator.Utils.Csi.Volumes.{
  Volume, host_dev_volume, host_sys_volume, lib_modules_volume, socket_dir_volume,
  keys_tmp_dir_volume, oidc_token_volume, csi_config_volume,
}
use ceph_csi_operator.Driver.Pods.Controller.Sidecars.{
  provisioner_container, snapshotter_container, resizer_container, ex_snapshotter_container,
  attacher_container, addons_container, omap_generator_container, liveness_container,
  log_rotator_container, snapshot_metadata_container,
}
use ceph_csi_operator.Driver.Network.{get_controller_plugin_replicas}
use ceph_csi_operator.Driver.Pods.{app_labels}
use ceph_csi_operator.Prelude.{
  Bool, String, false, Option, none, some, List, [], ◌∷◌, ◌++◌, ◌==◌, ◌&&◌, ◌||◌, not,
  if◌then◌else◌, deref, is_some,
}

-- `corev1.LabelHostname`
abbrev pub label_hostname : String
label_hostname = "kubernetes.io/hostname"

module _ {F : Foreign} where
  -- The affinity without an anti-affinity, with the code's own put in
  abbrev pub with_anti_affinity : Assoc String → Option (Affinity F) → Affinity F
  with_anti_affinity selector affinity = record {
    node_affinity = elim affinity [ some a ↦ a.node_affinity | none ↦ none ];
    pod_affinity = elim affinity [ some a ↦ a.pod_affinity | none ↦ none ];
    pod_anti_affinity =
        some (built_in (record { label_selector = selector; topology_key = label_hostname } ∷ []));
  }

  abbrev pub has_anti_affinity : Option (Affinity F) → Bool
  has_anti_affinity none = false
  has_anti_affinity (some a) = is_some a.pod_anti_affinity

  -- `getControllerPluginPodAffinity`, over the affinity of the spec
  unfoldable pub get_controller_plugin_pod_affinity :
      Option (Affinity F) → Assoc String → Option (Affinity F)
  get_controller_plugin_pod_affinity affinity selector =
      if has_anti_affinity affinity then affinity else some (with_anti_affinity selector affinity)

module _ {W : Type 0} {F : Foreign} (env : Env W F) where
  -- The containers that the pod has in each case
  abbrev pub first_containers : State W F → List (Container F)
  first_containers s =
      plugin_container env s
      ∷ provisioner_container s
      ∷ resizer_container s
      ∷ attacher_container s
      ∷ []

  -- Whether there is a snapshotter, and one that is extended
  abbrev pub with_snapshotter : State W F → Bool
  with_snapshotter s = not (sn_policy s == none_snapshot_policy)

  abbrev pub with_ex_snapshotter : State W F → Bool
  with_ex_snapshotter s =
      not (image_of s.images "ex-snapshotter" == "")
      && with_snapshotter s
      && s.driver_type == ceph_fs_driver_type

  abbrev pub with_addons : State W F → Bool
  with_addons s = not (is_nfs_driver s.driver_type) && deref s.driver.spec.deploy_csi_addons false

  abbrev pub with_omap_generator : State W F → Bool
  with_omap_generator s =
      (is_rbd_driver s.driver_type || is_ceph_fs_driver s.driver_type)
      && deref s.driver.spec.generate_omap_info false

  -- The first of the user's volumes with the name `tls-key`, which `IndexFunc` finds
  unfoldable pub tls_volume : Option (List (VolumeSpec F)) → Option (VolumeSpec F)
  tls_volume volumes = find_by (λ vol. env.volume_name vol.volume) "tls-key" (deref volumes [])

  abbrev pub tls_of : State W F → Option (VolumeSpec F)
  tls_of s =
      if is_rbd_driver s.driver_type then tls_volume (plugin_spec s).pod_common.volumes else none

  unfoldable pub controller_containers : State W F → List (Container F)
  controller_containers s =
      first_containers s
      ++ appended (with_snapshotter s) (snapshotter_container s ∷ [])
      ++ appended (with_ex_snapshotter s) (ex_snapshotter_container s ∷ [])
      ++ appended (with_addons s) (addons_container s ∷ [])
      ++ appended (with_omap_generator s) (omap_generator_container s ∷ [])
      ++ liveness_container s s.driver.spec.liveness
      ++ appended (is_some (log_rotation s)) (log_rotator_container s ∷ [])
      ++ snapshot_metadata_container s (tls_of s)

  -- The volumes that the code gives, over the name of the deployment
  unfoldable pub built_in_volumes : State W F → String → List (Given Volume F.volume)
  built_in_volumes s deploy_name =
      built_in host_dev_volume
        ∷ built_in host_sys_volume
        ∷ built_in lib_modules_volume
        ∷ built_in socket_dir_volume
        ∷ built_in keys_tmp_dir_volume
        ∷ built_in oidc_token_volume
        ∷ built_in csi_config_volume
        ∷ []
      ++ kms_volumes s.driver.spec.encryption
      ++ log_volumes (log_rotation s) deploy_name s.driver.metadata.name

  unfoldable pub pod_spec : State W F → String → PodSpec F
  pod_spec s app_name =
      let spec = plugin_spec s in
      let host_network = deref spec.host_network false in
      record {
        service_account_name =
            service_account env spec.pod_common.service_account_name s.driver_type "-ctrlplugin-sa";
        priority_class_name = deref spec.pod_common.priorityl_class_name "";
        host_network = host_network;
        host_pid = false;
        dns_policy = if host_network then "ClusterFirstWithHostNet" else "ClusterFirst";
        affinity =
            get_controller_plugin_pod_affinity spec.pod_common.affinity (("app", app_name) ∷ []);
        tolerations = spec.pod_common.tolerations;
        containers = controller_containers s;
        volumes = with_user_volumes env (built_in_volumes s app_name) spec.pod_common.volumes;
      }

  -- The spec of the deployment, over its name and the number of replicas
  unfoldable pub deployment_spec : State W F → String → ℤ → DeploymentSpec F
  deployment_spec s app_name replicas = record {
    replicas = replicas;
    selector = ("app", app_name) ∷ [];
    strategy = strategy_of (plugin_spec s).deployment_strategy default_deployment_strategy;
    template = record {
      labels = app_labels (plugin_spec s).pod_common.labels app_name;
      annotations = (plugin_spec s).pod_common.annotations;
      spec = pod_spec s app_name;
    };
  }

  -- The callback behind the number of replicas
  put_deployment : State W F → Result ℤ × W → Deployment F → Result (Unit {0}) × (Deployment F × W)
  put_deployment s (ok replicas, w) deploy =
      (ok tt, (record deploy { spec = some (deployment_spec s deploy.metadata.name replicas) }, w))
  put_deployment s (err e, w) deploy = (err e, (deploy, w))
  put_deployment s (panic, w) deploy = (panic, (deploy, w))

  -- The callback behind the owner reference
  own_deployment : State W F → Result ObjectMeta → Method (Deployment F × W) (Unit {0})
  own_deployment s (ok m) (deploy, w) =
      put_deployment s (get_controller_plugin_replicas env (plugin_spec s).replicas w)
        (record deploy { metadata = m })
  own_deployment s (err e) (deploy, w) = (err e, (deploy, w))
  own_deployment s panic (deploy, w) = (panic, (deploy, w))

  unfoldable pub mutate_deployment : State W F → Method (Deployment F × W) (Unit {0})
  unfolding own_deployment put_deployment
  mutate_deployment s (deploy, w) =
      own_deployment s (env.util.set_controller_reference s.driver.metadata deploy.metadata)
        (deploy, w)

  -- `reconcileControllerPluginDeployment`
  unfoldable pub reconcile_controller_plugin_deployment : State W F → W → Result (Unit {0}) × W
  unfolding mutate_deployment generate_name
  reconcile_controller_plugin_deployment s w =
      let deploy : Deployment F = record {
        metadata =
            named (generate_name s.driver.metadata.name "ctrlplugin") s.driver.metadata.namespace;
        spec = none;
      } in
      let (r, deploy', w') = env.create_or_update_deployment deploy (mutate_deployment s) w in
      (only_error r, w')
