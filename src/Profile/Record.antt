-- ===== src/Profile/Record.antt =====
-- The record of a ClientProfile in Ceph CSI's configuration, and how it is composed from the
-- profile, its CephConnection and a ready ClientProfileReplication.
use ceph_csi_operator.Prelude.{
  ℕ, String, Bool, true, false, Option, none, some, List, [], ◌∷◌, ◌==◌, if◌then◌else◌, deref,
}
use ceph_csi_operator.Prelude.Assoc.{Assoc, insert}
use ceph_csi_operator.Api.Meta.{SecretReference}
use ceph_csi_operator.Api.Profile.{
  ClientProfile, CephConnection, ClientProfileReplication, CephFsConfigSpec, RbdConfigSpec,
  NvmeofConfigSpec, CephCsiSecretsSpec, ReadAffinitySpec, PoolMappingSpec, RbdReplicationSpec,
}
use ceph_csi_operator.Utils.Core.{map_to_string}

pub record CephFsInfo : Type 0 where
  pub subvolume_group : String
  pub kernel_mount_options : String
  pub fuse_mount_options : String
  pub rados_namespace : String
  pub controller_publish_secret_ref : SecretReference

pub record RbdInfo : Type 0 where
  pub rados_namespace : String
  pub mirror_count : ℕ
  pub controller_publish_secret_ref : SecretReference
  pub node_publish_secret_ref : SecretReference

pub record NvmeofInfo : Type 0 where
  pub rados_namespace : String
  pub controller_publish_secret_ref : SecretReference

pub record ReadAffinityInfo : Type 0 where
  pub enabled : Bool
  pub crush_location_labels : List String

pub record RemotePoolDetails : Type 0 where
  pub pool_id : String

pub record RemoteRbdDetails : Type 0 where
  pub remote_pool_mapping : Assoc RemotePoolDetails

pub record ReplicationDestinationInfo : Type 0 where
  pub remote_cluster_id : String
  pub rbd : Option RemoteRbdDetails

-- `csiClusterInfoRecord`; the struct under `nfs` has no field.
pub record CsiClusterInfoRecord : Type 0 where
  pub cluster_id : String
  pub monitors : List String
  pub ceph_fs : CephFsInfo
  pub rbd : RbdInfo
  pub nvmeof : NvmeofInfo
  pub read_affinity : ReadAffinityInfo
  pub replication_destination : Option ReplicationDestinationInfo

-- The zero values that the composition starts from.
abbrev pub no_secret : SecretReference
no_secret = record { name = ""; namespace = "" }

abbrev pub no_ceph_fs : CephFsInfo
no_ceph_fs = record {
  subvolume_group = "";
  kernel_mount_options = "";
  fuse_mount_options = "";
  rados_namespace = "";
  controller_publish_secret_ref = no_secret;
}

abbrev pub no_rbd : RbdInfo
no_rbd = record {
  rados_namespace = "";
  mirror_count = 0;
  controller_publish_secret_ref = no_secret;
  node_publish_secret_ref = no_secret;
}

abbrev pub no_nvmeof : NvmeofInfo
no_nvmeof = record { rados_namespace = ""; controller_publish_secret_ref = no_secret }

abbrev pub no_read_affinity : ReadAffinityInfo
no_read_affinity = record { enabled = false; crush_location_labels = [] }

-- The blocks `if mountOpt := …; mountOpt != nil`.
mount_options : Option (Assoc String) → String
mount_options none = ""
mount_options (some mount_opt) = map_to_string mount_opt "=" ","

controller_secret : Option CephCsiSecretsSpec → SecretReference
controller_secret none = no_secret
controller_secret (some secrets) = secrets.controller_publish_secret

node_secret : Option CephCsiSecretsSpec → SecretReference
node_secret none = no_secret
node_secret (some secrets) = secrets.node_publish_secret

-- The block of each backend in `composeCsiClusterInfoRecord`.
compose_ceph_fs : Option CephFsConfigSpec → CephFsInfo
unfolding mount_options controller_secret
compose_ceph_fs none = no_ceph_fs
compose_ceph_fs (some ceph_fs) = record {
  subvolume_group = ceph_fs.sub_volume_group;
  kernel_mount_options = mount_options ceph_fs.kernel_mount_options;
  fuse_mount_options = mount_options ceph_fs.fuse_mount_options;
  rados_namespace = deref ceph_fs.rados_namespace "";
  controller_publish_secret_ref = controller_secret ceph_fs.ceph_csi_secrets;
}

compose_rbd : CephConnection → Option RbdConfigSpec → RbdInfo
unfolding controller_secret node_secret
compose_rbd ceph_conn none = no_rbd
compose_rbd ceph_conn (some rbd) = record {
  rados_namespace = rbd.rados_namespace;
  mirror_count = ceph_conn.spec.rbd_mirror_daemon_count;
  controller_publish_secret_ref = controller_secret rbd.ceph_csi_secrets;
  node_publish_secret_ref = node_secret rbd.ceph_csi_secrets;
}

compose_nvmeof : Option NvmeofConfigSpec → NvmeofInfo
unfolding controller_secret
compose_nvmeof none = no_nvmeof
compose_nvmeof (some nvmeof) = record {
  rados_namespace = nvmeof.rados_namespace;
  controller_publish_secret_ref = controller_secret nvmeof.ceph_csi_secrets;
}

compose_read_affinity : Option ReadAffinitySpec → ReadAffinityInfo
compose_read_affinity none = no_read_affinity
compose_read_affinity (some read_affinity) = record {
  enabled = true;
  crush_location_labels = read_affinity.crush_location_labels;
}

-- The loop over the pool mappings; a later mapping of a pool replaces an earlier one.
remote_pools : List PoolMappingSpec → Assoc RemotePoolDetails → Assoc RemotePoolDetails
unfolding insert
remote_pools [] mapping = mapping
remote_pools (pool_mapping ∷ rest) mapping =
    remote_pools rest
      (insert pool_mapping.name (record { pool_id = pool_mapping.remote_id }) mapping)

compose_remote_rbd : Option RbdReplicationSpec → Option RemoteRbdDetails
unfolding remote_pools
compose_remote_rbd none = none
compose_remote_rbd (some rbd) = elim rbd.pool_mapping [
  | [] ↦ none
  | p ∷ ps ↦ some (record { remote_pool_mapping = remote_pools (p ∷ ps) [] })
]

-- The block on the replication destination; `none` stands for a nil replication.
compose_destination : Option ClientProfileReplication → Option ReplicationDestinationInfo
unfolding compose_remote_rbd
compose_destination none = none
compose_destination (some replication) =
    if replication.status.phase == "Ready"
    then some (record {
      remote_cluster_id = replication.spec.remote_client_profile;
      rbd = compose_remote_rbd replication.spec.rbd;
    })
    else none

-- `composeCsiClusterInfoRecord`
unfoldable pub compose_csi_cluster_info_record :
    ClientProfile → CephConnection → Option ClientProfileReplication → CsiClusterInfoRecord
unfolding compose_ceph_fs compose_rbd compose_nvmeof compose_read_affinity compose_destination
compose_csi_cluster_info_record client_profile ceph_conn replication = record {
  cluster_id = client_profile.metadata.name;
  monitors = ceph_conn.spec.monitors;
  ceph_fs = compose_ceph_fs client_profile.spec.ceph_fs;
  rbd = compose_rbd ceph_conn client_profile.spec.rbd;
  nvmeof = compose_nvmeof client_profile.spec.nvmeof;
  read_affinity = compose_read_affinity ceph_conn.spec.read_affinity;
  replication_destination = compose_destination replication;
}
