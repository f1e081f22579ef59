-- ===== src/Driver/Pods/Resolved.antt =====
-- internal/controller/driver_controller.go: the mounts of all pods of a driver.
use ceph_csi_operator.Api.Driver.{Foreign}
use ceph_csi_operator.Driver.State.{Env, State}
use ceph_csi_operator.Driver.Pods.Mounts.{IsPaired, MountsIn}
use ceph_csi_operator.Driver.Pods.Controller.{plugin_spec}
use ceph_csi_operator.Driver.Pods.Node.{node_spec, daemon_set_spec}
use ceph_csi_operator.Driver.Pods.Controller.Deploy.{pod_spec}
use ceph_csi_operator.Driver.Pods.Node.Addons.{addons_daemon_set_spec}
use ceph_csi_operator.Driver.Pods.Controller.Mounts.{pod_spec-MountsIn}
use ceph_csi_operator.Driver.Pods.Node.Mounts.{daemon_set_spec-MountsIn}
use ceph_csi_operator.Driver.Pods.Node.AddonsLaws.{addons_daemon_set_spec-MountsIn}
use ceph_csi_operator.Prelude.{String, Bool, All, deref, []}

module _ {W : Type 0} {F : Foreign} (env : Env W F) (s : State W F) where
  -- Where each of the user's mounts names the volume it is given with, every mount of every container in
  -- the three kinds of pods names a volume of its pod.
  pub pods-MountsIn :
      (controller node addons : String) (condition : Bool)
      → All (IsPaired env) (deref (plugin_spec s).pod_common.volumes [])
      → All (IsPaired env) (deref (node_spec s).pod_common.volumes [])
      → MountsIn env (pod_spec env s controller).volumes (pod_spec env s controller).containers
        × MountsIn env
            (daemon_set_spec env s node).template.spec.volumes
            (daemon_set_spec env s node).template.spec.containers
        × MountsIn env
            (addons_daemon_set_spec env s condition addons).template.spec.volumes
            (addons_daemon_set_spec env s condition addons).template.spec.containers
  pods-MountsIn controller node addons condition paired node_paired = (
    pod_spec-MountsIn env s controller paired,
    daemon_set_spec-MountsIn env s node node_paired,
    addons_daemon_set_spec-MountsIn env s addons condition,
  )
