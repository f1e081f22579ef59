-- ===== src/Api/Profile.antt =====
-- api/v1: ClientProfile, CephConnection, ClientProfileReplication and ClientProfileMapping.
use ceph_csi_operator.Prelude.{ℕ, String, Option, List}
use ceph_csi_operator.Prelude.Assoc.{Assoc}
use ceph_csi_operator.Api.Meta.{ObjectMeta, SecretReference}

pub record CephCsiSecretsSpec : Type 0 where
  pub controller_publish_secret : SecretReference
  pub node_publish_secret : SecretReference

pub record CephFsConfigSpec : Type 0 where
  pub sub_volume_group : String
  pub kernel_mount_options : Option (Assoc String)
  pub fuse_mount_options : Option (Assoc String)
  pub rados_namespace : Option String
  pub ceph_csi_secrets : Option CephCsiSecretsSpec

pub record RbdConfigSpec : Type 0 where
  pub rados_namespace : String
  pub ceph_csi_secrets : Option CephCsiSecretsSpec

pub record NfsConfigSpec : Type 0 where

pub record NvmeofConfigSpec : Type 0 where
  pub rados_namespace : String
  pub ceph_csi_secrets : Option CephCsiSecretsSpec

-- `ceph_connection_ref` is the name in the `corev1.LocalObjectReference`.
pub record ClientProfileSpec : Type 0 where
  pub ceph_connection_ref : String
  pub ceph_fs : Option CephFsConfigSpec
  pub rbd : Option RbdConfigSpec
  pub nfs : Option NfsConfigSpec
  pub nvmeof : Option NvmeofConfigSpec

pub record ClientProfileStatus : Type 0 where
  pub phase : String
  pub message : String

pub record ClientProfile : Type 0 where
  pub metadata : ObjectMeta
  pub spec : ClientProfileSpec
  pub status : ClientProfileStatus

pub record ReadAffinitySpec : Type 0 where
  pub crush_location_labels : List String

pub record CephConnectionSpec : Type 0 where
  pub monitors : List String
  pub read_affinity : Option ReadAffinitySpec
  pub rbd_mirror_daemon_count : ℕ

pub record CephConnection : Type 0 where
  pub metadata : ObjectMeta
  pub spec : CephConnectionSpec

pub record PoolMappingSpec : Type 0 where
  pub name : String
  pub remote_id : String

pub record RbdReplicationSpec : Type 0 where
  pub pool_mapping : List PoolMappingSpec

pub record ClientProfileReplicationSpec : Type 0 where
  pub local_client_profile : String
  pub remote_client_profile : String
  pub rbd : Option RbdReplicationSpec

pub record ClientProfileReplicationStatus : Type 0 where
  pub phase : String
  pub message : String

pub record ClientProfileReplication : Type 0 where
  pub metadata : ObjectMeta
  pub spec : ClientProfileReplicationSpec
  pub status : ClientProfileReplicationStatus

abbrev pub BlockPoolIdPair : Type 0
BlockPoolIdPair = List String

pub record MappingsSpec : Type 0 where
  pub local_client_profile : String
  pub remote_client_profile : String
  pub block_pool_id_mapping : List BlockPoolIdPair

pub record ClientProfileMapping : Type 0 where
  pub metadata : ObjectMeta
  pub mappings : List MappingsSpec
