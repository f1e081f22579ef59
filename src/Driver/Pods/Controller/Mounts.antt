-- ===== src/Driver/Pods/Controller/Mounts.antt =====
-- internal/controller/driver_controller.go: the mounts of the controller plugin's pod name volumes of it.
use ceph_csi_operator.Api.Driver.{Foreign, Given, built_in, VolumeSpec}
use ceph_csi_operator.Driver.State.{Env, State}
use ceph_csi_operator.Driver.Pods.Controller.Deploy.{
  built_in_volumes, pod_spec, tls_volume, tls_of, first_containers,
}
use ceph_csi_operator.Driver.Pods.Mounts.{
  keys_of, mem_key-left, KeysIn, kms_volumes-in, log_volumes-in, mem_key-right, All-appended,
  all_in-KeysIn, KeysIn-kept, IsPaired, MountsIn, with_user_mounts-KeysIn, find_by-paired,
}
use ceph_csi_operator.Prelude.Keyed.{mem_key}
use ceph_csi_operator.Driver.Pods.Controller.{
  log_rotation, plugin_mounts, plugin_first_mounts, plugin_container, plugin_spec,
}
use ceph_csi_operator.Utils.Csi.Volumes.{
  kms_config_volume_name, logs_dir_volume_name, log_rotate_dir_volume_name, Volume,
}
use ceph_csi_operator.Api.Pods.{Container}
use ceph_csi_operator.Utils.Csi.Mounts.{
  VolumeMount, kms_config_volume_mount, oidc_token_volume_mount, logs_dir_volume_mount,
  socket_dir_volume_mount, log_rotate_dir_volume_mount, csi_config_volume_mount,
  keys_tmp_dir_volume_mount,
}
use ceph_csi_operator.Driver.Pods.{
  volume_key, mount_key, kms_volumes, appended, log_volumes, is_rbd_driver, with_user_volumes,
  user_volume,
}
use ceph_csi_operator.Driver.Pods.Controller.Sidecars.{
  liveness_container, snapshotter_container, omap_generator_container, addons_container,
  log_rotator_container, snapshot_metadata_container, ex_snapshotter_container,
  provisioner_container, resizer_container, attacher_container,
}
use ceph_csi_operator.Prelude.Text.{ℤ}
use ceph_csi_operator.Utils.Merge.Keys.{mem_key-merge}
use ceph_csi_operator.Driver.Pods.Controller.Each.{controller_containers-All}
use ceph_csi_operator.Prelude.{
  String, true, Option, none, some, List, [], ◌∷◌, ◌++◌, deref, is_some, arith, All, refl, ◌≡◌,
}

module _ {W : Type 0} {F : Foreign} (env : Env W F) (s : State W F) (name : String) where
  abbrev own_keys : List String
  own_keys = keys_of env (built_in_volumes env s name)

  logs-in :
      is_some (log_rotation s) ≡ true
      → (mem_key logs_dir_volume_name own_keys ≡ true)
        × (mem_key log_rotate_dir_volume_name own_keys ≡ true)
  unfolding built_in_volumes
  logs-in h =
      let kms : List (Given Volume F.volume) = kms_volumes s.driver.spec.encryption in
      let logs = log_volumes (log_rotation s) name s.driver.metadata.name in
      let (dir, rotate) = log_volumes-in env (log_rotation s) name s.driver.metadata.name h in
      (
        mem_key-right (volume_key env) logs_dir_volume_name kms logs dir,
        mem_key-right (volume_key env) log_rotate_dir_volume_name kms logs rotate,
      )

  kms-in : is_some s.driver.spec.encryption ≡ true → mem_key kms_config_volume_name own_keys ≡ true
  unfolding built_in_volumes
  kms-in h =
      mem_key-left (volume_key env) kms_config_volume_name (kms_volumes s.driver.spec.encryption)
        (log_volumes (log_rotation s) name s.driver.metadata.name)
        (kms_volumes-in env s.driver.spec.encryption h)

  abbrev MountsOwn : List (Given VolumeMount F.volume_mount) → Type 0
  MountsOwn mounts = KeysIn (mount_key env) own_keys mounts

  IsOwn : Given VolumeMount F.volume_mount → Type 0
  IsOwn m = mem_key (mount_key env m) own_keys ≡ true

  plugin_mounts-IsOwn : All IsOwn (plugin_mounts s)
  unfolding plugin_mounts built_in_volumes IsOwn
  plugin_mounts-IsOwn =
      let encrypted = is_some s.driver.spec.encryption in
      let first = plugin_first_mounts {V = F.volume_mount} in
      let kms = first ++ appended encrypted (built_in kms_config_volume_mount ∷ []) in
      let oidc =
        kms ++ appended (is_rbd_driver s.driver_type) (built_in oidc_token_volume_mount ∷ []) in
      let with_kms =
        All-appended IsOwn first encrypted (built_in kms_config_volume_mount)
          (all_in-KeysIn (mount_key env) own_keys first refl) kms-in in
      let with_oidc =
        All-appended IsOwn kms (is_rbd_driver s.driver_type) (built_in oidc_token_volume_mount)
          with_kms (λ e. refl) in
      All-appended IsOwn oidc (is_some (log_rotation s)) (built_in logs_dir_volume_mount) with_oidc
        (λ e. (logs-in e).0)

  -- The volumes of the pod
  abbrev own_volumes : List (Given Volume F.volume)
  own_volumes =
      with_user_volumes env (built_in_volumes env s name) (plugin_spec s).pod_common.volumes

  IsMounted : Container F → Type 0
  IsMounted c = KeysIn (mount_key env) (keys_of env own_volumes) c.volume_mounts

  kept :
      (mounts : List (Given VolumeMount F.volume_mount))
      → MountsOwn mounts
      → KeysIn (mount_key env) (keys_of env own_volumes) mounts
  kept = KeysIn-kept env (built_in_volumes env s name) (plugin_spec s).pod_common.volumes

  -- A container that mounts the directory of the socket only
  socket-kept :
      KeysIn (mount_key env) (keys_of env own_volumes) (built_in socket_dir_volume_mount ∷ [])
  unfolding built_in_volumes
  socket-kept = kept (built_in socket_dir_volume_mount ∷ []) (refl, tt)

  first-IsMounted :
      All (IsPaired env) (deref (plugin_spec s).pod_common.volumes [])
      → All IsMounted (first_containers env s)
  unfolding IsMounted plugin_container provisioner_container resizer_container attacher_container
      IsOwn
  first-IsMounted paired = (
    with_user_mounts-KeysIn env (built_in_volumes env s name) (plugin_mounts s)
        (plugin_spec s).pod_common.volumes plugin_mounts-IsOwn paired,
    (socket-kept, (socket-kept, (socket-kept, tt))),
  )

  snapshotter-IsMounted : IsMounted (snapshotter_container s)
  unfolding IsMounted snapshotter_container
  snapshotter-IsMounted = socket-kept

  ex_snapshotter-IsMounted : IsMounted (ex_snapshotter_container s)
  unfolding IsMounted ex_snapshotter_container
  ex_snapshotter-IsMounted = socket-kept

  addons-IsMounted : IsMounted (addons_container s)
  unfolding IsMounted addons_container IsOwn built_in_volumes
  addons-IsMounted = kept (addons_container s).volume_mounts (
      All-appended IsOwn (built_in socket_dir_volume_mount ∷ []) (is_some (log_rotation s))
        (built_in logs_dir_volume_mount) (refl, tt) (λ e. (logs-in e).0))

  omap_generator-IsMounted : IsMounted (omap_generator_container s)
  unfolding IsMounted omap_generator_container built_in_volumes
  omap_generator-IsMounted =
      kept (built_in csi_config_volume_mount ∷ built_in keys_tmp_dir_volume_mount ∷ [])
        (refl, (refl, tt))

  liveness-IsMounted : (port : Option ℤ) → All IsMounted (liveness_container s port)
  unfolding liveness_container IsMounted
  liveness-IsMounted none = tt
  liveness-IsMounted (some port) = (socket-kept, tt)

  log_rotator-IsMounted : is_some (log_rotation s) ≡ true → IsMounted (log_rotator_container s)
  unfolding IsMounted log_rotator_container
  log_rotator-IsMounted e =
      kept (built_in logs_dir_volume_mount ∷ built_in log_rotate_dir_volume_mount ∷ [])
        ((logs-in e).0, ((logs-in e).1, tt))

  tls-IsMounted :
      All (IsPaired env) (deref (plugin_spec s).pod_common.volumes [])
      → (tls : Option (VolumeSpec F)) → tls_of env s ≡ tls
      → All IsMounted (snapshot_metadata_container s tls)
  unfolding snapshot_metadata_container IsMounted tls_volume with_user_volumes
  tls-IsMounted paired none h = tt
  tls-IsMounted paired (some tls) h =
      let user = deref (plugin_spec s).pod_common.volumes [] in
      let (taken_over, named) =
        find_by-paired env "tls-key" user tls refl paired (ground (arith, h)) in
      (
        (
          ground (
            arith,
            taken_over,
            named,
            mem_key-merge (user_volume env) (volume_key env) "tls-key" (built_in_volumes env s name)
                user,
          ),
          socket-kept,
        ),
        tt,
      )

  -- Where each of the user's mounts names the volume it is given with, every mount of every container of
  -- the controller plugin's pod names a volume of the pod.
  pub pod_spec-MountsIn :
      All (IsPaired env) (deref (plugin_spec s).pod_common.volumes [])
      → MountsIn env (pod_spec env s name).volumes (pod_spec env s name).containers
  unfolding pod_spec IsMounted
  pod_spec-MountsIn paired =
      controller_containers-All env s IsMounted (first-IsMounted paired)
        (λ e. snapshotter-IsMounted) (λ e. ex_snapshotter-IsMounted) (λ e. addons-IsMounted)
        (λ e. omap_generator-IsMounted) (liveness-IsMounted s.driver.spec.liveness)
        log_rotator-IsMounted (tls-IsMounted paired (tls_of env s) refl)
