-- ===== src/Driver/Watches/Laws.antt =====
-- internal/controller/driver_controller.go: which requests an event leads to, and which events may be
-- dropped.
use ceph_csi_operator.Api.Driver.{Foreign, Driver, DriverSpec, OperatorConfig}
use ceph_csi_operator.Driver.State.{Env, State}
use ceph_csi_operator.Driver.Watches.{
  updated, driver_defaults_predicate, enqueue_from_owner_ref_annotation,
}
use ceph_csi_operator.Driver.Load.{config_answered, load_driver}
use ceph_csi_operator.Api.Cluster.{CsiDriver}
use ceph_csi_operator.Api.Meta.{object_key}
use ceph_csi_operator.Prelude.Result.{ok}
use ceph_csi_operator.Driver.CsiDriver.{mutate_csi_driver}
use ceph_csi_operator.Driver.Load.Owner.{owner_ref-mutate}
use ceph_csi_operator.Prelude.{
  String, Bool, true, false, Option, [], ◌∷◌, ◌≡◌, ◌≢◌, refl, ap, eq-false_of_ne, arith,
}

module _ {W : Type 0} {F : Foreign} (env : Env W F) where
  -- Where the key of a driver has a text that is not empty and reads back as the key, an event of a
  -- CSIDriver that the driver has written leads to a request for that driver and for no other.
  pub enqueue_from_owner_ref_annotation-mutated :
      (driver : Driver F) (csi_driver : CsiDriver) (text : String)
      → env.key_codec.marshal (object_key driver.metadata) ≡ ok text
      → text ≢ ""
      → env.key_codec.unmarshal text ≡ ok (object_key driver.metadata)
      → enqueue_from_owner_ref_annotation env (mutate_csi_driver env driver csi_driver).1.metadata
        ≡ ok (object_key driver.metadata ∷ [])
  unfolding enqueue_from_owner_ref_annotation
  enqueue_from_owner_ref_annotation-mutated driver csi_driver text h ne k =
      rw (owner_ref-mutate env driver csi_driver text h)
        (rw (eq-false_of_ne text "" ne) (rw k refl))

  -- Where a deep comparison finds only equal defaults equal, an update of the operator's configuration
  -- that the predicate drops would change no load of a driver.
  pub driver_defaults_predicate-dropped :
      (deep_equal : Option (DriverSpec F) → Option (DriverSpec F) → Bool)
      (old_conf new_conf : OperatorConfig F) (s : State W F)
      → ((a b : Option (DriverSpec F)) → deep_equal a b ≡ true → a ≡ b)
      → driver_defaults_predicate deep_equal (updated old_conf new_conf) ≡ false
      → config_answered env (ok old_conf) s ≡ config_answered env (ok new_conf) s
  unfolding driver_defaults_predicate config_answered
  driver_defaults_predicate-dropped deep_equal old_conf new_conf s sound h =
      ap (λ defaults. load_driver env defaults s)
        (sound old_conf.driver_spec_defaults new_conf.driver_spec_defaults (ground (arith, h)))
