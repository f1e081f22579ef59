-- ===== src/Driver/Pods/Controller/Sidecars.antt =====
-- internal/controller/driver_controller.go: the containers beside the plugin in the pod of the
-- controller plugin.
use ceph_csi_operator.Api.Driver.{Foreign, VolumeSpec, built_in, given}
use ceph_csi_operator.Driver.State.{State}
use ceph_csi_operator.Driver.Pods.Controller.{
  leader_election_settings_arg, pull_policy, log_rotate_security_context, plugin_spec, sn_policy,
  grpc_timeout, log_rotation, with_topology,
}
use ceph_csi_operator.Api.Pods.{Container, SecurityContext}
use ceph_csi_operator.Driver.Pods.{
  arguments, privileged_context, is_rbd_or_nvmeof_driver, is_nfs_driver, verbosity_of,
  volume_group_snapshot_policy, liveness_args, appended, rotator_container, image_of,
}
use ceph_csi_operator.Utils.Csi.Args.{
  leader_election_container_arg, handle_volume_inuse_error_container_arg,
  retry_interval_start_container_arg, default_fs_type_container_arg,
  extra_create_metadata_container_arg, recover_volume_expansion_failure_container_arg,
  log_verbosity_container_arg, enable_volume_group_snapshots_container_arg,
  prevent_volume_mode_conversion_container_arg, timeout_container_arg, topology_container_arg,
  csi_addons_node_id_container_arg, type_container_arg, csi_address_container_arg,
  pod_container_arg, driver_namespace_container_arg, driver_name_container_arg,
  pod_uid_container_arg, snapshot_metadata_grpc_service_port_arg, snapshot_metadata_tls_cert_arg,
  cluster_name_container_arg, csi_addons_address_container_arg, snapshot_metadata_tls_key_arg,
  container_port_arg, namespace_container_arg, snapshot_metadata_audience_arg,
  log_file_container_arg,
}
use ceph_csi_operator.Prelude.Text.{ℤ}
use ceph_csi_operator.Driver.Names.{controller_plugin_csi_addons_container_port}
use ceph_csi_operator.Utils.Core.{choose}
use ceph_csi_operator.Utils.Csi.Mounts.{
  socket_dir_volume_mount, pod_ip_env_var, driver_namespace_env_var, csi_config_volume_mount,
  snapshot_metadata_grpc_port, keys_tmp_dir_volume_mount, node_id_env_var, pod_uid_env_var,
  pod_name_env_var, pod_namespace_env_var, logs_dir_volume_mount,
}
use ceph_csi_operator.Prelude.{
  String, Option, none, some, List, [], ◌∷◌, ◌++◌, ◌==◌, not, deref, is_some,
}

module _ {W : Type 0} {F : Foreign} (s : State W F) where
  -- What the provisioner, the resizer, the attacher and the snapshotters have in common: their first
  -- arguments, and the socket that they mount
  abbrev pub sidecar_args : List String
  sidecar_args =
      leader_election_settings_arg s
      ++ leader_election_container_arg
        ∷ log_verbosity_container_arg (verbosity_of s.driver.spec.log)
        ∷ csi_address_container_arg
        ∷ timeout_container_arg (grpc_timeout s)
        ∷ []

  abbrev pub sidecar :
      String
      → String
      → Option SecurityContext
      → List String
      → Option F.resource_requirements
      → Container F
  sidecar name image_name context own_args resources = record {
    name = name;
    image = image_of s.images image_name;
    image_pull_policy = pull_policy s;
    security_context = context;
    command = [];
    args = arguments name (plugin_spec s).container_extra_args (sidecar_args ++ own_args);
    ports = [];
    env = [];
    volume_mounts = built_in socket_dir_volume_mount ∷ [];
    resources = resources;
  }

  unfoldable pub provisioner_container : Container F
  unfolding leader_election_settings_arg
  provisioner_container =
      sidecar "csi-provisioner" "provisioner" none
        (retry_interval_start_container_arg
          ∷ default_fs_type_container_arg
          ∷ prevent_volume_mode_conversion_container_arg
          ∷ choose (is_rbd_or_nvmeof_driver s.driver_type) default_fs_type_container_arg ""
          ∷ topology_container_arg (with_topology s)
          ∷ choose (not (is_nfs_driver s.driver_type)) extra_create_metadata_container_arg ""
          ∷ [])
        (plugin_spec s).resources.provisioner

  unfoldable pub resizer_container : Container F
  unfolding leader_election_settings_arg
  resizer_container =
      sidecar "csi-resizer" "resizer" none
        (handle_volume_inuse_error_container_arg ∷ recover_volume_expansion_failure_container_arg
          ∷ [])
        (plugin_spec s).resources.resizer

  unfoldable pub attacher_container : Container F
  unfolding leader_election_settings_arg
  attacher_container =
      sidecar "csi-attacher" "attacher" none
        (choose (is_rbd_or_nvmeof_driver s.driver_type) default_fs_type_container_arg "" ∷ [])
        (plugin_spec s).resources.attacher

  unfoldable pub snapshotter_container : Container F
  unfolding leader_election_settings_arg
  snapshotter_container =
      sidecar "csi-snapshotter" "snapshotter" none
        (choose (not (is_nfs_driver s.driver_type)) extra_create_metadata_container_arg ""
          ∷ choose (sn_policy s == volume_group_snapshot_policy)
              enable_volume_group_snapshots_container_arg ""
          ∷ [])
        (plugin_spec s).resources.snapshotter

  unfoldable pub ex_snapshotter_container : Container F
  unfolding leader_election_settings_arg
  ex_snapshotter_container =
      sidecar "ex-csi-snapshotter" "ex-snapshotter" (some privileged_context)
        (extra_create_metadata_container_arg ∷ enable_volume_group_snapshots_container_arg ∷ [])
        (plugin_spec s).resources.snapshotter

  unfoldable pub addons_container : Container F
  unfolding leader_election_settings_arg controller_plugin_csi_addons_container_port
  addons_container =
      let port = controller_plugin_csi_addons_container_port s.driver_type in
      record {
        name = "csi-addons";
        image = image_of s.images "addons";
        image_pull_policy = pull_policy s;
        security_context = log_rotate_security_context s;
        command = [];
        args = arguments "csi-addons" (plugin_spec s).container_extra_args (
            leader_election_settings_arg s
            ++ log_verbosity_container_arg (verbosity_of s.driver.spec.log)
              ∷ csi_addons_node_id_container_arg
              ∷ pod_container_arg
              ∷ pod_uid_container_arg
              ∷ csi_addons_address_container_arg
              ∷ container_port_arg port
              ∷ namespace_container_arg
              ∷ choose (is_some (log_rotation s)) (log_file_container_arg "csi-addons") ""
              ∷ []);
        ports = port ∷ [];
        env = node_id_env_var ∷ pod_uid_env_var ∷ pod_name_env_var ∷ pod_namespace_env_var ∷ [];
        volume_mounts =
            built_in socket_dir_volume_mount
            ∷ appended (is_some (log_rotation s)) (built_in logs_dir_volume_mount ∷ []);
        resources = (plugin_spec s).resources.addons;
      }

  unfoldable pub omap_generator_container : Container F
  omap_generator_container = record {
    name = "csi-omap-generator";
    image = image_of s.images "plugin";
    image_pull_policy = pull_policy s;
    security_context = none;
    command = [];
    args = arguments "csi-omap-generator" (plugin_spec s).container_extra_args (
        log_verbosity_container_arg (verbosity_of s.driver.spec.log)
        ∷ type_container_arg "controller"
        ∷ driver_namespace_container_arg
        ∷ driver_name_container_arg s.driver.metadata.name
        ∷ cluster_name_container_arg (deref s.driver.spec.cluster_name "")
        ∷ []);
    ports = [];
    env = driver_namespace_env_var ∷ [];
    volume_mounts = built_in csi_config_volume_mount ∷ built_in keys_tmp_dir_volume_mount ∷ [];
    resources = (plugin_spec s).resources.omap_generator;
  }

  -- The container for liveness, over its port
  unfoldable pub liveness_container : Option ℤ → List (Container F)
  liveness_container none = []
  liveness_container (some metrics_port) =
      record {
        name = "liveness-prometheus";
        image = image_of s.images "plugin";
        image_pull_policy = pull_policy s;
        security_context = none;
        command = [];
        args =
            arguments "liveness-prometheus" (plugin_spec s).container_extra_args
              (liveness_args metrics_port);
        ports = [];
        env = pod_ip_env_var ∷ [];
        volume_mounts = built_in socket_dir_volume_mount ∷ [];
        resources = (plugin_spec s).resources.liveness;
      }
      ∷ []

  unfoldable pub log_rotator_container : Container F
  log_rotator_container =
      rotator_container s.images (pull_policy s) (log_rotate_security_context s)
        (plugin_spec s).resources.log_rotator

  -- The container for the metadata of snapshots, over the mount of the TLS key
  unfoldable pub snapshot_metadata_container : Option (VolumeSpec F) → List (Container F)
  snapshot_metadata_container none = []
  snapshot_metadata_container (some tls) =
      record {
        name = "csi-snapshot-metadata";
        image = image_of s.images "snapshot-metadata";
        image_pull_policy = pull_policy s;
        security_context = none;
        command = [];
        args = arguments "csi-snapshot-metadata" (plugin_spec s).container_extra_args (
            log_verbosity_container_arg (verbosity_of s.driver.spec.log)
            ∷ timeout_container_arg (grpc_timeout s)
            ∷ snapshot_metadata_grpc_service_port_arg
            ∷ csi_address_container_arg
            ∷ snapshot_metadata_tls_cert_arg
            ∷ snapshot_metadata_tls_key_arg
            ∷ snapshot_metadata_audience_arg s.driver.metadata.name
            ∷ []);
        ports = snapshot_metadata_grpc_port ∷ [];
        env = [];
        volume_mounts = given tls.mount ∷ built_in socket_dir_volume_mount ∷ [];
        resources = none;
      }
      ∷ []
