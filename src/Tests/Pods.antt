-- ===== src/Tests/Pods.antt =====
-- The pods of a driver, and the concurrent run of its steps, at concrete inputs.
use ceph_csi_operator.Driver.Pods.Controller.Sidecars.{
  attacher_container, provisioner_container, resizer_container, snapshotter_container,
  addons_container, omap_generator_container, liveness_container, log_rotator_container,
  snapshot_metadata_container,
}
use ceph_csi_operator.Driver.Pods.Node.{node_plugin_container, node_containers, daemon_set_spec}
use ceph_csi_operator.Prelude.Keyed.{distinct}
use ceph_csi_operator.Api.Driver.{DriverSpec, PodCommonSpec, VolumeSpec, built_in}
use ceph_csi_operator.Driver.Pods.Controller.Deploy.{
  get_controller_plugin_pod_affinity, controller_containers, deployment_spec, pod_spec, tls_volume,
}
use ceph_csi_operator.Driver.Pods.Ports.{ports_of, open_ports, controller_ingress-ports}
use ceph_csi_operator.Driver.State.{State}
use ceph_csi_operator.Driver.Pods.Labels.{
  IsSelected, get_controller_plugin_pod_affinity-kept, templates-IsSelected,
}
use ceph_csi_operator.Driver.Pods.Args.{IsNonempty, containers-IsNonempty}
use ceph_csi_operator.Driver.Pods.Mounts.{MountsIn}
use ceph_csi_operator.Driver.Pods.Controller.{plugin_container}
use ceph_csi_operator.Tests.DriverData.{test_types, plain_env, test_driver}
use ceph_csi_operator.Driver.Pods.Containers.{name_of, containers-distinct}
use ceph_csi_operator.Driver.Pods.{
  arguments, mount_key, empty_pod_common, controller_plugin_of, node_plugin_of,
}
use ceph_csi_operator.Prelude.Text.{pos}
use ceph_csi_operator.Driver.Reconcile.{zero_driver_spec}
use ceph_csi_operator.Driver.Network.{controller_ingress}
use ceph_csi_operator.Driver.Pods.Node.Addons.{addons_containers, addons_daemon_set_spec}
use ceph_csi_operator.Driver.Load.{image_defaults}
use ceph_csi_operator.Driver.Pods.Resolved.{pods-MountsIn}
use ceph_csi_operator.Utils.Csi.Args.{
  leader_election_namespace_container_arg, leader_election_lease_duration_container_arg,
  leader_election_renew_deadline_container_arg, leader_election_retry_period_container_arg,
  log_verbosity_container_arg, timeout_container_arg,
}
use ceph_csi_operator.Prelude.{ℕ, true, none, some, List, [], ◌∷◌, ◌≡◌, refl, map, All, inl}

-- A volume of the user, with a mount of the same name
abbrev tls_volumes : List (VolumeSpec test_types)
tls_volumes =
    record { volume = "tls-key"; mount = "tls-key" }
    ∷ record { volume = "host-dev"; mount = "host-dev" }
    ∷ []

abbrev pod_common : PodCommonSpec test_types
pod_common = record empty_pod_common {
  volumes = some tls_volumes;
  labels = some (("app", "mine") ∷ ("team", "storage") ∷ []);
}

-- A driver with csi-addons, a TLS key, encryption, rotated logs and the metrics of liveness
abbrev full_spec : DriverSpec test_types
full_spec = record zero_driver_spec {
  log = some (record {
    verbosity = pos 5;
    rotation = some (record {
      max_files = pos 3;
      max_log_size = 10;
      periodicity = "daily";
      log_host_path = "";
    });
  });
  encryption = some "kms";
  controller_plugin =
      some (record (controller_plugin_of none) { pod_common = pod_common; privileged = some true });
  node_plugin = some (record (node_plugin_of none) { pod_common = pod_common });
  liveness = some (pos 8080);
  deploy_csi_addons = some true;
  generate_omap_info = some true;
}

abbrev full_state : State ℕ test_types
full_state = record {
  driver = record { metadata = test_driver.metadata; spec = full_spec };
  driver_type = "rbd";
  images = image_defaults;
  world = 0;
}

-- The containers of the two pods that have most
controller_names :
    map name_of (controller_containers plain_env full_state)
    ≡ "csi-rbdplugin" ∷ "csi-provisioner" ∷ "csi-resizer" ∷ "csi-attacher" ∷ "csi-snapshotter"
      ∷ "csi-addons" ∷ "csi-omap-generator" ∷ "liveness-prometheus" ∷ "log-rotator"
      ∷ "csi-snapshot-metadata" ∷ []
unfolding controller_containers plugin_container provisioner_container resizer_container
    attacher_container snapshotter_container addons_container omap_generator_container
    liveness_container log_rotator_container snapshot_metadata_container tls_volume
controller_names = refl

node_mounts :
    map (mount_key plain_env) (node_plugin_container plain_env full_state).volume_mounts
    ≡ "host-dev" ∷ "host-sys" ∷ "host-run-mount" ∷ "lib-modules" ∷ "keys-tmp-dir" ∷ "plugin-dir"
      ∷ "ceph-csi-config" ∷ "plugin-mount-dir" ∷ "pods-mount-dir" ∷ "ceph-csi-kms-config"
      ∷ "oidc-token" ∷ "logs-dir" ∷ "tls-key" ∷ []
unfolding node_plugin_container
node_mounts = refl

attacher_args :
    (attacher_container full_state).args
    ≡ "--leader-election-namespace=storage" ∷ "--leader-election-lease-duration=137s"
      ∷ "--leader-election-renew-deadline=107s" ∷ "--leader-election-retry-period=26s"
      ∷ "--leader-election=true" ∷ "--v=5" ∷ "--csi-address=unix:///csi/csi.sock" ∷ "--timeout=150s"
      ∷ "--default-fstype=ext4" ∷ []
unfolding attacher_container arguments leader_election_namespace_container_arg
    leader_election_lease_duration_container_arg leader_election_renew_deadline_container_arg
    leader_election_retry_period_container_arg log_verbosity_container_arg timeout_container_arg
attacher_args = refl

pods-MountsIn_example :
    MountsIn plain_env
      (pod_spec plain_env full_state "c").volumes
      (pod_spec plain_env full_state "c").containers
    × MountsIn plain_env
        (daemon_set_spec plain_env full_state "n").template.spec.volumes
        (daemon_set_spec plain_env full_state "n").template.spec.containers
    × MountsIn plain_env
        (addons_daemon_set_spec plain_env full_state true "a").template.spec.volumes
        (addons_daemon_set_spec plain_env full_state true "a").template.spec.containers
pods-MountsIn_example =
    pods-MountsIn plain_env full_state "c" "n" "a" true (refl, (refl, tt)) (refl, (refl, tt))

containers-distinct_example :
    (distinct (map name_of (controller_containers plain_env full_state)) ≡ true)
    × (distinct (map name_of (node_containers plain_env full_state)) ≡ true)
    × (distinct (map name_of (addons_containers full_state true)) ≡ true)
containers-distinct_example = containers-distinct plain_env full_state true (inl refl)

containers-IsNonempty_example :
    All (IsNonempty plain_env full_state) (controller_containers plain_env full_state)
    × All (IsNonempty plain_env full_state) (node_containers plain_env full_state)
    × All (IsNonempty plain_env full_state) (addons_containers full_state true)
containers-IsNonempty_example = containers-IsNonempty plain_env full_state true

templates-IsSelected_example :
    IsSelected
      (deployment_spec plain_env full_state "c" (pos 2)).selector
      (deployment_spec plain_env full_state "c" (pos 2)).template.labels
    × IsSelected
        (daemon_set_spec plain_env full_state "c").selector
        (daemon_set_spec plain_env full_state "c").template.labels
    × IsSelected
        (addons_daemon_set_spec plain_env full_state true "c").selector
        (addons_daemon_set_spec plain_env full_state true "c").template.labels
templates-IsSelected_example = templates-IsSelected plain_env full_state "c" (pos 2) true

get_controller_plugin_pod_affinity-kept_example :
    get_controller_plugin_pod_affinity {F = test_types} none (("app", "c") ∷ [])
    ≡ some (record {
      node_affinity = none;
      pod_affinity = none;
      pod_anti_affinity = some (
          built_in (
            record { label_selector = ("app", "c") ∷ []; topology_key = "kubernetes.io/hostname" }
            ∷ []));
    })
get_controller_plugin_pod_affinity-kept_example =
    get_controller_plugin_pod_affinity-kept {F = test_types} none (("app", "c") ∷ [])

controller_ingress-ports_example :
    ports_of (controller_containers plain_env full_state)
    ≡ open_ports (controller_ingress plain_env full_state)
controller_ingress-ports_example = controller_ingress-ports plain_env full_state refl
