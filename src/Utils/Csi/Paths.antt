-- ===== src/Utils/Csi/Paths.antt =====
-- Whether the arguments, the volumes and the mounts of internal/utils/csi.go fit together.
use text.Mathlib.TextLemmas.{append_assoc}
use ceph_csi_operator.Utils.Csi.Mounts.{plugin_dir_volume_mount}
use ceph_csi_operator.Utils.Csi.Args.{log_verbosity_container_arg, endpoint_container_arg}
use ceph_csi_operator.Utils.Csi.Volumes.{VolumeSource, host_path, plugin_dir_volume}
use ceph_csi_operator.Utils.Csi.Args.{
  kubelet_registration_path_container_arg, log_verbosity_container_arg,
  kernel_mount_options_container_arg,
}
use ceph_csi_operator.Prelude.Text.{show_int, show_nat, ℤ, lt_int, pos, ◌<>◌, join, negsuc}
use ceph_csi_operator.Prelude.Assoc.{Assoc}
use ceph_csi_operator.Utils.Core.Laws.{entry, map_to_string-join, clamp_int}
use ceph_csi_operator.Utils.Core.{clamp}
use ceph_csi_operator.Prelude.{
  List, String, ◌∷◌, Any, ◌≡◌, if◌then◌else◌, [], false, ltb, length, inl, suc, map, inr, arith,
  refl, zero, ◌∙◌, ap, sym,
}

unfoldable pub host_dir : VolumeSource → String
host_dir (host_path path kind) = path
host_dir source = ""

socket_path :
    (dir name : String)
    → (dir <> "/plugins/" <> name) <> "/csi.sock" ≡ dir <> "/plugins/" <> name <> "/csi.sock"
socket_path dir name =
    append_assoc dir ("/plugins/" <> name) "/csi.sock"
    ∙ ap (λ z. dir <> z) (append_assoc "/plugins/" name "/csi.sock")

-- The socket that the registrar announces to the kubelet stands in the host directory of the
-- plugin volume, and the endpoint of the driver in the directory where that volume is mounted.
pub registration_path-plugin_dir :
    (kubelet_dir_path driver_name : String)
    → (kubelet_registration_path_container_arg kubelet_dir_path driver_name
        ≡ "--kubelet-registration-path="
          <> host_dir (plugin_dir_volume kubelet_dir_path driver_name).source
          <> "/csi.sock")
      × (plugin_dir_volume_mount.name ≡ (plugin_dir_volume kubelet_dir_path driver_name).name)
      × (endpoint_container_arg
          ≡ "--endpoint=unix://" <> plugin_dir_volume_mount.mount_path <> "/csi.sock")
unfolding kubelet_registration_path_container_arg host_dir
registration_path-plugin_dir kubelet_dir_path driver_name = (
  ap (λ z. "--kubelet-registration-path=" <> z) (sym (socket_path kubelet_dir_path driver_name)),
  refl,
  refl,
)

abbrev pub levels : List String
levels = "--v=0" ∷ "--v=1" ∷ "--v=2" ∷ "--v=3" ∷ "--v=4" ∷ "--v=5" ∷ []

level-Any :
    (v : ℤ)
    → lt_int v (pos 0) ≡ false
    → lt_int (pos 5) v ≡ false
    → Any (λ s. "--v=" <> show_int v ≡ s) levels
unfolding show_int show_nat
level-Any (pos zero) h k = inl refl
level-Any (pos (suc zero)) h k = inr (inl refl)
level-Any (pos (suc (suc zero))) h k = inr (inr (inl refl))
level-Any (pos (suc (suc (suc zero)))) h k = inr (inr (inr (inl refl)))
level-Any (pos (suc (suc (suc (suc zero))))) h k = inr (inr (inr (inr (inl refl))))
level-Any (pos (suc (suc (suc (suc (suc zero)))))) h k = inr (inr (inr (inr (inr (inl refl)))))
level-Any (pos (suc (suc (suc (suc (suc (suc n))))))) h k = ground arith
level-Any (negsuc n) h k = ground arith

-- Whatever level is asked for, the argument has one of the six levels from 0 to 5.
pub log_verbosity-Any : (level : ℤ) → Any (λ s. log_verbosity_container_arg level ≡ s) levels
unfolding log_verbosity_container_arg
log_verbosity-Any level =
    let (low, high) = clamp_int level (pos 0) (pos 5) refl in
    level-Any (clamp lt_int level (pos 0) (pos 5)) low high

-- The argument for mount options is left empty without options, and else lists them all, joined by
-- commas, each with its value behind `=` unless the value is empty.
pub kernel_mount_options-join :
    (options : Assoc String)
    → kernel_mount_options_container_arg options ≡ (
        if ltb 0 (length options)
        then "--kernelmountoptions=" <> join "," (map (entry "=") options)
        else "")
unfolding kernel_mount_options_container_arg
kernel_mount_options-join options = rw (map_to_string-join options "=" ",") refl
