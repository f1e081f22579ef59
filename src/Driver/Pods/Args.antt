-- ===== src/Driver/Pods/Args.antt =====
-- internal/controller/driver_controller.go: the arguments of the containers of all pods.
use ceph_csi_operator.Api.Driver.{Foreign, VolumeSpec}
use ceph_csi_operator.Driver.State.{Env, State}
use ceph_csi_operator.Driver.Pods.Node.Addons.{addons_containers, node_addons_container}
use ceph_csi_operator.Driver.Pods.Node.{
  node_liveness_container, node_containers, node_plugin_container, registrar_container,
  node_log_rotator_container,
}
use ceph_csi_operator.Driver.Pods.{arguments}
use ceph_csi_operator.Driver.Pods.Controller.{plugin_container, log_rotation}
use ceph_csi_operator.Driver.Pods.Controller.Sidecars.{
  liveness_container, snapshot_metadata_container, provisioner_container, resizer_container,
  attacher_container, snapshotter_container, ex_snapshotter_container, addons_container,
  omap_generator_container, log_rotator_container,
}
use ceph_csi_operator.Driver.Pods.Controller.Deploy.{controller_containers, tls_of}
use ceph_csi_operator.Api.Pods.{Container}
use ceph_csi_operator.Prelude.Text.{ℤ}
use ceph_csi_operator.Prelude.Assoc.{Assoc}
use ceph_csi_operator.Utils.Core.Laws.{delete_zero_values-All}
use ceph_csi_operator.Driver.Pods.Mounts.{All-appended}
use ceph_csi_operator.Driver.Pods.Controller.Each.{controller_containers-All}
use ceph_csi_operator.Utils.Csi.Args.{get_extra_args_for_container}
use ceph_csi_operator.Prelude.{
  Bool, String, Option, none, some, List, [], ◌∷◌, ◌++◌, is_some, All, ◌≢◌, All-append, deref,
}

unfoldable pub AreNonempty : List String → Type 0
AreNonempty args = All (λ a. a ≢ "") args

nil-AreNonempty : AreNonempty []
unfolding AreNonempty
nil-AreNonempty = tt

arguments-AreNonempty :
    (name : String) (extra : Option (Assoc (List String))) (args : List String)
    → AreNonempty (arguments name extra args)
unfolding arguments AreNonempty
arguments-AreNonempty name extra args =
    delete_zero_values-All (args ++ get_extra_args_for_container name (deref extra []))

module _ {W : Type 0} {F : Foreign} (env : Env W F) (s : State W F) where
  abbrev pub IsNonempty : Container F → Type 0
  IsNonempty c = AreNonempty c.args

  liveness-IsNonempty : (port : Option ℤ) → All IsNonempty (liveness_container s port)
  unfolding liveness_container
  liveness-IsNonempty none = tt
  liveness-IsNonempty (some port) = (arguments-AreNonempty _ _ _, tt)

  tls-IsNonempty :
      (tls : Option (VolumeSpec F)) → All IsNonempty (snapshot_metadata_container s tls)
  unfolding snapshot_metadata_container
  tls-IsNonempty none = tt
  tls-IsNonempty (some tls) = (arguments-AreNonempty _ _ _, tt)

  controller_containers-IsNonempty : All IsNonempty (controller_containers env s)
  unfolding plugin_container provisioner_container resizer_container attacher_container
      snapshotter_container ex_snapshotter_container addons_container omap_generator_container
      log_rotator_container
  controller_containers-IsNonempty =
      controller_containers-All env s IsNonempty
        (
          arguments-AreNonempty _ _ _,
          (
            arguments-AreNonempty _ _ _,
            (arguments-AreNonempty _ _ _, (arguments-AreNonempty _ _ _, tt)),
          ),
        )
        (λ e. arguments-AreNonempty _ _ _) (λ e. arguments-AreNonempty _ _ _)
        (λ e. arguments-AreNonempty _ _ _) (λ e. arguments-AreNonempty _ _ _)
        (liveness-IsNonempty s.driver.spec.liveness) (λ e. nil-AreNonempty)
        (tls-IsNonempty (tls_of env s))

  node_liveness-IsNonempty : (port : Option ℤ) → All IsNonempty (node_liveness_container s port)
  unfolding node_liveness_container
  node_liveness-IsNonempty none = tt
  node_liveness-IsNonempty (some port) = (arguments-AreNonempty _ _ _, tt)

  node_containers-IsNonempty : All IsNonempty (node_containers env s)
  unfolding node_containers node_plugin_container registrar_container
  node_containers-IsNonempty =
      let first = node_plugin_container env s ∷ registrar_container s ∷ [] in
      All-appended IsNonempty (first ++ node_liveness_container s s.driver.spec.liveness)
        (is_some (log_rotation s)) (node_log_rotator_container s)
        (All-append IsNonempty first _
          (arguments-AreNonempty _ _ _, (arguments-AreNonempty _ _ _, tt))
          (node_liveness-IsNonempty s.driver.spec.liveness))
        (λ e. nil-AreNonempty)

  addons_containers-IsNonempty : (condition : Bool) → All IsNonempty (addons_containers s condition)
  unfolding addons_containers node_addons_container
  addons_containers-IsNonempty condition =
      All-appended IsNonempty (node_addons_container s condition ∷ []) (is_some (log_rotation s))
        (node_log_rotator_container s) (arguments-AreNonempty _ _ _, tt) (λ e. nil-AreNonempty)

  -- No container of the three kinds of pods has an empty argument.
  pub containers-IsNonempty :
      (condition : Bool)
      → All IsNonempty (controller_containers env s)
        × All IsNonempty (node_containers env s)
        × All IsNonempty (addons_containers s condition)
  containers-IsNonempty condition = (
    controller_containers-IsNonempty,
    node_containers-IsNonempty,
    addons_containers-IsNonempty condition,
  )
