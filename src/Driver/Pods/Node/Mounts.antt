-- ===== src/Driver/Pods/Node/Mounts.antt =====
-- internal/controller/driver_controller.go: the mounts of the pods of both daemon sets name volumes of them.
use ceph_csi_operator.Api.Driver.{Foreign, Given, built_in}
use ceph_csi_operator.Driver.State.{Env, State}
use ceph_csi_operator.Driver.Pods.Node.{
  node_built_in_volumes, node_spec, daemon_set_spec, node_log_rotator_container,
  node_liveness_container, node_first_volumes, node_plugin_mounts, node_plugin_container,
  registrar_container, node_containers, node_first_mounts,
}
use ceph_csi_operator.Driver.Pods.Mounts.{
  keys_of, mem_key-left, mem_key-right, mem_key-appended, KeysIn, all_in-KeysIn, log_volumes-in,
  KeysIn-kept, kms_volumes-in, IsPaired, with_user_mounts-KeysIn, All-appended, MountsIn,
}
use ceph_csi_operator.Driver.Pods.{
  kubelet_dir_of, log_volumes, appended, kms_volumes, is_rbd_or_nvmeof_driver, is_ceph_fs_driver,
  with_user_volumes, volume_key, mount_key,
}
use ceph_csi_operator.Prelude.Keyed.{mem_key}
use ceph_csi_operator.Utils.Csi.Volumes.{
  Volume, oidc_token_volume, csi_mount_info_volume, etc_selinux_volume, kms_config_volume_name,
  csi_mount_info_volume_name, logs_dir_volume_name, log_rotate_dir_volume_name,
}
use ceph_csi_operator.Driver.Pods.Controller.{log_rotation}
use ceph_csi_operator.Utils.Csi.Mounts.{
  logs_dir_volume_mount, etc_selinux_volume_mount, oidc_token_volume_mount, kms_config_volume_mount,
  csi_mount_info_volume_mount, VolumeMount, log_rotate_dir_volume_mount, plugin_dir_volume_mount,
  registration_dir_volume_mount,
}
use ceph_csi_operator.Api.Pods.{Container}
use ceph_csi_operator.Prelude.Text.{ℤ}
use ceph_csi_operator.Prelude.{
  String, true, false, Option, none, some, List, [], ◌∷◌, ◌++◌, deref, is_some, All, refl, ◌≡◌,
  All-append,
}

module _ {W : Type 0} {F : Foreign} (env : Env W F) (s : State W F) (name : String) where
  abbrev kubelet_dir_path : String
  kubelet_dir_path = kubelet_dir_of (node_spec s)

  abbrev own_keys : List String
  own_keys = keys_of env (node_built_in_volumes s name)

  -- The volumes that depend on the spec, in their order
  abbrev mount_info_volumes : List (Given Volume F.volume)
  mount_info_volumes =
      appended (is_ceph_fs_driver s.driver_type)
        (built_in (csi_mount_info_volume kubelet_dir_path s.driver.metadata.name) ∷ [])

  abbrev selinux_volumes : List (Given Volume F.volume)
  selinux_volumes =
      appended (deref (node_spec s).enable_se_linux_host_mount false)
        (built_in etc_selinux_volume ∷ [])

  abbrev encryption_volumes : List (Given Volume F.volume)
  encryption_volumes = kms_volumes s.driver.spec.encryption

  abbrev oidc_volumes : List (Given Volume F.volume)
  oidc_volumes = appended (is_rbd_or_nvmeof_driver s.driver_type) (built_in oidc_token_volume ∷ [])

  abbrev rotation_volumes : List (Given Volume F.volume)
  rotation_volumes = log_volumes (log_rotation s) name s.driver.metadata.name

  abbrev first_volumes : List (Given Volume F.volume)
  first_volumes = node_first_volumes kubelet_dir_path s.driver.metadata.name

  -- The volumes before those of the encryption, and before those of the logs
  abbrev early_volumes : List (Given Volume F.volume)
  early_volumes = first_volumes ++ mount_info_volumes ++ selinux_volumes

  abbrev other_volumes : List (Given Volume F.volume)
  other_volumes = early_volumes ++ encryption_volumes ++ oidc_volumes

  abbrev IsName : String → List (Given Volume F.volume) → Type 0
  IsName k volumes = mem_key k (keys_of env volumes) ≡ true

  module _ (k : String) where
    in_left : (xs ys : List (Given Volume F.volume)) → IsName k xs → IsName k (xs ++ ys)
    in_left = mem_key-left (volume_key env) k

    in_right : (xs ys : List (Given Volume F.volume)) → IsName k ys → IsName k (xs ++ ys)
    in_right = mem_key-right (volume_key env) k

    other-in : IsName k other_volumes → mem_key k own_keys ≡ true
    unfolding node_built_in_volumes
    other-in = in_left other_volumes rotation_volumes

    early-in : IsName k early_volumes → mem_key k own_keys ≡ true
    early-in h = other-in (
        in_left (early_volumes ++ encryption_volumes) oidc_volumes
          (in_left early_volumes encryption_volumes h))

    rotation-in : IsName k rotation_volumes → mem_key k own_keys ≡ true
    unfolding node_built_in_volumes
    rotation-in = in_right other_volumes rotation_volumes

  IsOwn : Given VolumeMount F.volume_mount → Type 0
  IsOwn m = mem_key (mount_key env m) own_keys ≡ true

  selinux-in :
      deref (node_spec s).enable_se_linux_host_mount false ≡ true
      → IsOwn (built_in etc_selinux_volume_mount)
  unfolding IsOwn
  selinux-in e = early-in etc_selinux_volume.name (
      in_right etc_selinux_volume.name (first_volumes ++ mount_info_volumes) selinux_volumes (
        mem_key-appended (volume_key env) etc_selinux_volume.name
          (deref (node_spec s).enable_se_linux_host_mount false) (built_in etc_selinux_volume ∷ [])
          e refl))

  mount_info-in :
      is_ceph_fs_driver s.driver_type ≡ true → IsOwn (built_in csi_mount_info_volume_mount)
  unfolding IsOwn
  mount_info-in e =
      let volume = csi_mount_info_volume kubelet_dir_path s.driver.metadata.name in
      early-in csi_mount_info_volume_name (
        in_left csi_mount_info_volume_name (first_volumes ++ mount_info_volumes) selinux_volumes (
          in_right csi_mount_info_volume_name first_volumes mount_info_volumes (
            mem_key-appended (volume_key env) csi_mount_info_volume_name
              (is_ceph_fs_driver s.driver_type) (built_in volume ∷ []) e refl)))

  encryption-in : is_some s.driver.spec.encryption ≡ true → IsOwn (built_in kms_config_volume_mount)
  unfolding IsOwn
  encryption-in e = other-in kms_config_volume_name (
      in_left kms_config_volume_name (early_volumes ++ encryption_volumes) oidc_volumes (
        in_right kms_config_volume_name early_volumes encryption_volumes
          (kms_volumes-in env s.driver.spec.encryption e)))

  oidc-in : is_rbd_or_nvmeof_driver s.driver_type ≡ true → IsOwn (built_in oidc_token_volume_mount)
  unfolding IsOwn
  oidc-in e = other-in oidc_token_volume.name (
      in_right oidc_token_volume.name (early_volumes ++ encryption_volumes) oidc_volumes (
        mem_key-appended (volume_key env) oidc_token_volume.name
          (is_rbd_or_nvmeof_driver s.driver_type) (built_in oidc_token_volume ∷ []) e refl))

  logs-in :
      is_some (log_rotation s) ≡ true
      → IsOwn (built_in logs_dir_volume_mount) × IsOwn (built_in log_rotate_dir_volume_mount)
  unfolding IsOwn
  logs-in e =
      let (dir, rotate) = log_volumes-in env (log_rotation s) name s.driver.metadata.name e in
      (rotation-in logs_dir_volume_name dir, rotation-in log_rotate_dir_volume_name rotate)

  node_plugin_mounts-IsOwn : All IsOwn (node_plugin_mounts s)
  unfolding node_plugin_mounts node_built_in_volumes IsOwn
  node_plugin_mounts-IsOwn =
      let first = node_first_mounts {V = F.volume_mount} kubelet_dir_path in
      let m1 =
        first
        ++ appended (deref (node_spec s).enable_se_linux_host_mount false)
            (built_in etc_selinux_volume_mount ∷ []) in
      let m2 =
        m1 ++ appended (is_some s.driver.spec.encryption) (built_in kms_config_volume_mount ∷ []) in
      let m3 =
        m2
        ++ appended (is_ceph_fs_driver s.driver_type) (built_in csi_mount_info_volume_mount ∷ []) in
      let m4 =
        m3
        ++ appended (is_rbd_or_nvmeof_driver s.driver_type)
            (built_in oidc_token_volume_mount ∷ []) in
      let h0 = all_in-KeysIn (mount_key env) own_keys first refl in
      let h1 = All-appended IsOwn first _ (built_in etc_selinux_volume_mount) h0 selinux-in in
      let h2 = All-appended IsOwn m1 _ (built_in kms_config_volume_mount) h1 encryption-in in
      let h3 = All-appended IsOwn m2 _ (built_in csi_mount_info_volume_mount) h2 mount_info-in in
      let h4 = All-appended IsOwn m3 _ (built_in oidc_token_volume_mount) h3 oidc-in in
      All-appended IsOwn m4 _ (built_in logs_dir_volume_mount) h4 (λ e. (logs-in e).0)

  -- The volumes of the pod
  abbrev own_volumes : List (Given Volume F.volume)
  own_volumes =
      with_user_volumes env (node_built_in_volumes s name) (node_spec s).pod_common.volumes

  IsMounted : Container F → Type 0
  IsMounted c = KeysIn (mount_key env) (keys_of env own_volumes) c.volume_mounts

  kept :
      (mounts : List (Given VolumeMount F.volume_mount))
      → All IsOwn mounts
      → KeysIn (mount_key env) (keys_of env own_volumes) mounts
  unfolding IsOwn
  kept = KeysIn-kept env (node_built_in_volumes s name) (node_spec s).pod_common.volumes

  liveness-IsMounted : (port : Option ℤ) → All IsMounted (node_liveness_container s port)
  unfolding node_liveness_container IsMounted node_built_in_volumes IsOwn
  liveness-IsMounted none = tt
  liveness-IsMounted (some port) = (kept (built_in plugin_dir_volume_mount ∷ []) (refl, tt), tt)

  first-IsMounted :
      All (IsPaired env) (deref (node_spec s).pod_common.volumes [])
      → All IsMounted (node_plugin_container env s ∷ registrar_container s ∷ [])
  unfolding IsMounted IsOwn node_plugin_container registrar_container node_built_in_volumes
  first-IsMounted paired = (
    with_user_mounts-KeysIn env (node_built_in_volumes s name) (node_plugin_mounts s)
        (node_spec s).pod_common.volumes node_plugin_mounts-IsOwn paired,
    (
      kept (built_in plugin_dir_volume_mount ∷ built_in registration_dir_volume_mount ∷ [])
          (refl, (refl, tt)),
      tt,
    ),
  )

  log_rotator-IsMounted : is_some (log_rotation s) ≡ true → IsMounted (node_log_rotator_container s)
  unfolding IsMounted
  log_rotator-IsMounted e =
      let (dir, rotate) = logs-in e in
      kept (built_in logs_dir_volume_mount ∷ built_in log_rotate_dir_volume_mount ∷ [])
        (dir, (rotate, tt))

  -- Where each of the user's mounts names the volume it is given with, every mount of every container of
  -- the node plugin's pod names a volume of the pod.
  pub daemon_set_spec-MountsIn :
      All (IsPaired env) (deref (node_spec s).pod_common.volumes [])
      → MountsIn env
          (daemon_set_spec env s name).template.spec.volumes
          (daemon_set_spec env s name).template.spec.containers
  unfolding daemon_set_spec node_containers IsMounted
  daemon_set_spec-MountsIn paired =
      let first = node_plugin_container env s ∷ registrar_container s ∷ [] in
      let liveness = first ++ node_liveness_container s s.driver.spec.liveness in
      All-appended IsMounted liveness (is_some (log_rotation s)) (node_log_rotator_container s)
        (All-append IsMounted first _ (first-IsMounted paired)
          (liveness-IsMounted s.driver.spec.liveness))
        log_rotator-IsMounted
