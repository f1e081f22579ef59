-- ===== src/Driver/Pods/Controller/Each.antt =====
-- internal/controller/driver_controller.go: what holds of each container of the controller plugin's pod.
use ceph_csi_operator.Api.Driver.{Foreign}
use ceph_csi_operator.Driver.State.{Env, State}
use ceph_csi_operator.Api.Pods.{Container}
use ceph_csi_operator.Driver.Pods.Controller.Deploy.{
  controller_containers, first_containers, with_snapshotter, with_ex_snapshotter, with_addons,
  with_omap_generator, tls_of,
}
use ceph_csi_operator.Driver.Pods.Controller.Sidecars.{
  snapshotter_container, ex_snapshotter_container, addons_container, omap_generator_container,
  liveness_container, log_rotator_container, snapshot_metadata_container,
}
use ceph_csi_operator.Driver.Pods.Controller.{log_rotation}
use ceph_csi_operator.Driver.Pods.{appended}
use ceph_csi_operator.Driver.Pods.Mounts.{All-appended}
use ceph_csi_operator.Prelude.{true, [], ◌∷◌, ◌++◌, All, ◌≡◌, is_some, All-append}

module _ {W : Type 0} {F : Foreign} (env : Env W F) (s : State W F) (P : Container F → Type 0) where
  -- A predicate holds of every container if it holds of each under the condition that it is there.
  pub controller_containers-All :
      All P (first_containers env s)
      → (with_snapshotter env s ≡ true → P (snapshotter_container s))
      → (with_ex_snapshotter env s ≡ true → P (ex_snapshotter_container s))
      → (with_addons env s ≡ true → P (addons_container s))
      → (with_omap_generator env s ≡ true → P (omap_generator_container s))
      → All P (liveness_container s s.driver.spec.liveness)
      → (is_some (log_rotation s) ≡ true → P (log_rotator_container s))
      → All P (snapshot_metadata_container s (tls_of env s))
      → All P (controller_containers env s)
  unfolding controller_containers
  controller_containers-All first snapshotter ex_snapshotter addons omap liveness rotator tls =
      let c1 =
        first_containers env s
        ++ appended (with_snapshotter env s) (snapshotter_container s ∷ []) in
      let c2 = c1 ++ appended (with_ex_snapshotter env s) (ex_snapshotter_container s ∷ []) in
      let c3 = c2 ++ appended (with_addons env s) (addons_container s ∷ []) in
      let c4 = c3 ++ appended (with_omap_generator env s) (omap_generator_container s ∷ []) in
      let c5 = c4 ++ liveness_container s s.driver.spec.liveness in
      let c6 = c5 ++ appended (is_some (log_rotation s)) (log_rotator_container s ∷ []) in
      let h1 = All-appended P (first_containers env s) _ _ first snapshotter in
      let h2 = All-appended P c1 _ _ h1 ex_snapshotter in
      let h3 = All-appended P c2 _ _ h2 addons in
      let h4 = All-appended P c3 _ _ h3 omap in
      let h5 = All-append P c4 (liveness_container s s.driver.spec.liveness) h4 liveness in
      let h6 = All-appended P c5 _ _ h5 rotator in
      All-append P c6 (snapshot_metadata_container s (tls_of env s)) h6 tls
