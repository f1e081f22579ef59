-- ===== src/Driver/Load/Owner.antt =====
-- The owner annotation of a CSIDriver, as it is written and as it is read.
use ceph_csi_operator.Driver.State.{Env, State, owner_ref_annotation_key, annotations_of}
use ceph_csi_operator.Driver.Load.{check_owner, claimed, same_owner, owner_ref}
use ceph_csi_operator.Utils.Meta.{add_annotation, annotation_differs}
use ceph_csi_operator.Driver.CsiDriver.{mutate_csi_driver, annotated}
use ceph_csi_operator.Prelude.{
  ◌≡◌, String, ◌≢◌, if◌then◌else◌, ◌==◌, ◌&&◌, eq-false_of_ne, refl, some, Option-cases, inl, ◌∙◌,
  inr, Bool-cases, eq_refl, ap, eq_iff,
}
use ceph_csi_operator.Api.Cluster.{CsiDriver}
use ceph_csi_operator.Prelude.Result.{ok, err, other}
use ceph_csi_operator.Api.Meta.{object_key, ObjectMeta}
use ceph_csi_operator.Prelude.Assoc.{lookup, lookup-insert}
use ceph_csi_operator.Api.Driver.{Foreign, Driver}

module _ {W : Type 0} {F : Foreign} (env : Env W F) where
  lookup-add_annotation :
      (m : ObjectMeta) (key value : String)
      → lookup key (annotations_of (add_annotation m key value).0) ≡ some value
  unfolding add_annotation annotation_differs
  lookup-add_annotation m key value = elim (Option-cases (lookup key (annotations_of m))) [
    | inl e ↦ rw e (lookup-insert key key value (annotations_of m) ∙ rw (eq_refl key) refl)
    | inr (old, e) ↦ elim (Bool-cases (old == value)) [
      | inl q ↦ rw e (rw q (e ∙ ap some ((eq_iff old value).0 q)))
      | inr q ↦ rw e (rw q (lookup-insert key key value (annotations_of m) ∙ rw (eq_refl key) refl))
    ]
  ]

  pub owner_ref-mutate :
      (driver : Driver F) (csi_driver : CsiDriver) (text : String)
      → env.key_codec.marshal (object_key driver.metadata) ≡ ok text
      → owner_ref env (mutate_csi_driver env driver csi_driver).1 ≡ text
  unfolding mutate_csi_driver annotated
  owner_ref-mutate driver csi_driver text h =
      rw h (rw (lookup-add_annotation csi_driver.metadata owner_ref_annotation_key text) refl)

  check_owner_lem :
      (s : State W F) (driver : Driver F) (text : String)
      → text ≢ ""
      → env.key_codec.unmarshal text ≡ ok (object_key driver.metadata)
      → check_owner env text s ≡ (
          if s.driver.metadata.namespace == driver.metadata.namespace
            && s.driver.metadata.name == driver.metadata.name
          then (ok tt, s)
          else (err (other "invalid driver name"), s))
  unfolding check_owner same_owner
  check_owner_lem s driver text ne h = rw (eq-false_of_ne text "" ne) (rw h refl)

  -- Where the key of a driver has a text that is not empty and reads back as the key, a CSIDriver with a
  -- uid that this driver has written is accepted by a driver exactly if that one has its name and its
  -- namespace, and refused with an error else.
  pub claimed-mutated :
      (driver : Driver F) (csi_driver : CsiDriver) (text : String) (s : State W F)
      → env.key_codec.marshal (object_key driver.metadata) ≡ ok text
      → text ≢ ""
      → env.key_codec.unmarshal text ≡ ok (object_key driver.metadata)
      → (mutate_csi_driver env driver csi_driver).1.metadata.uid ≢ ""
      → claimed env (ok (mutate_csi_driver env driver csi_driver).1) s ≡ (
          if s.driver.metadata.namespace == driver.metadata.namespace
            && s.driver.metadata.name == driver.metadata.name
          then (ok tt, s)
          else (err (other "invalid driver name"), s))
  unfolding claimed
  claimed-mutated driver csi_driver text s h ne k uid =
      rw (eq-false_of_ne _ "" uid)
        (rw (owner_ref-mutate driver csi_driver text h) (check_owner_lem s driver text ne k))
