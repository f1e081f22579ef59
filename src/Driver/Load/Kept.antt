-- ===== src/Driver/Load/Kept.antt =====
-- What a load that succeeds has established.
use ceph_csi_operator.Driver.State.{Env, State}
use ceph_csi_operator.Driver.Load.{
  put_type, check_owner, load_image_set, apply_own_images, driver_answered, claimed, check_name,
  config_answered, apply_defaults, load_and_validate_desired_state, images_answered, same_owner,
  load_driver, load_type, load_specs, owner_ref, image_defaults,
}
use ceph_csi_operator.Prelude.{
  String, Option, ◌≡◌, some, Bool-cases, none, ◌∙◌, ◌==◌, arith, refl, inl, inr, ap, sym,
}
use ceph_csi_operator.Prelude.Result.{
  Result, resume, ok, err, >>-eq-ok, not_found, panic, ◌>>◌, invalid, other,
}
use ceph_csi_operator.Api.Cluster.{CsiDriver}
use ceph_csi_operator.Api.Meta.{ObjectKey, ConfigMap}
use ceph_csi_operator.Driver.Names.{match_name}
use ceph_csi_operator.Api.Driver.{Foreign, OperatorConfig, DriverSpec, Driver}

module _ {W : Type 0} {F : Foreign} (env : Env W F) where
  same_owner-driver :
      (r : Result ObjectKey) (s : State W F) → (same_owner env r s).1.driver ≡ s.driver
  unfolding same_owner
  same_owner-driver (ok owner) s = ground arith
  same_owner-driver (err e) s = refl
  same_owner-driver panic s = refl

  check_owner-driver :
      (text : String) (s : State W F) → (check_owner env text s).1.driver ≡ s.driver
  unfolding check_owner
  check_owner-driver text s = elim (Bool-cases (text == "")) [
    | inl e ↦ rw e refl
    | inr e ↦ rw e (same_owner-driver (env.key_codec.unmarshal text) s)
  ]

  claimed-driver : (r : Result CsiDriver) (s : State W F) → (claimed env r s).1.driver ≡ s.driver
  unfolding claimed
  claimed-driver (ok d) s = elim (Bool-cases (d.metadata.uid == "")) [
    | inl e ↦ rw e refl
    | inr e ↦ rw e (check_owner-driver (owner_ref env d) s)
  ]
  claimed-driver (err (not_found text)) s = refl
  claimed-driver (err (invalid text)) s = refl
  claimed-driver (err (other text)) s = refl
  claimed-driver panic s = refl

  pub check_name-driver : (s : State W F) → (check_name env s).1.driver ≡ s.driver
  unfolding check_name
  check_name-driver s = search claimed-driver

  put_type-eq-ok :
      (t : Option String) (s : State W F)
      → (put_type env t s).0 ≡ ok tt
      → t ≡ some (put_type env t s).1.driver_type
  unfolding put_type
  put_type-eq-ok none s h = ground arith
  put_type-eq-ok (some t) s h = refl

  answered-type :
      (r : Result ConfigMap) (s : State W F)
      → (images_answered env r s).1.driver_type ≡ s.driver_type
  unfolding images_answered
  answered-type (ok m) s = refl
  answered-type (err e) s = refl
  answered-type panic s = refl

  image_set-type :
      (name : Option String) (ns : String) (s : State W F)
      → (load_image_set env name ns s).1.driver_type ≡ s.driver_type
  unfolding load_image_set
  image_set-type none ns s = refl
  image_set-type (some name) ns s = elim (Bool-cases (name == "")) [
    | inl e ↦ rw e refl
    | inr e ↦ rw e (search answered-type)
  ]

  apply_defaults-type :
      (defaults : Option (DriverSpec F)) (s : State W F)
      → (apply_defaults env defaults s).1.driver_type ≡ s.driver_type
  unfolding apply_defaults
  apply_defaults-type none s = refl
  apply_defaults-type (some d) s = search image_set-type

  own_images-type :
      (r : Result (Unit {0})) (s : State W F)
      → (resume r (λ _. apply_own_images env) s).1.driver_type ≡ s.driver_type
  unfolding apply_own_images
  own_images-type (ok u) s = search image_set-type
  own_images-type (err e) s = refl
  own_images-type panic s = refl

  driver_answered-type :
      (defaults : Option (DriverSpec F)) (r : Result (Driver F)) (s : State W F)
      → (driver_answered env defaults r s).1.driver_type ≡ s.driver_type
  unfolding driver_answered
  driver_answered-type defaults (ok d) s =
      let before = record s { driver = d; images = image_defaults } in
      let m = apply_defaults env defaults before in
      own_images-type m.0 m.1 ∙ apply_defaults-type defaults before
  driver_answered-type defaults (err e) s = refl
  driver_answered-type defaults panic s = refl

  config_answered-type :
      (r : Result (OperatorConfig F)) (s : State W F)
      → (config_answered env r s).1.driver_type ≡ s.driver_type
  unfolding config_answered load_driver
  config_answered-type (ok c) s = search driver_answered-type
  config_answered-type (err (not_found text)) s = search driver_answered-type
  config_answered-type (err (invalid text)) s = refl
  config_answered-type (err (other text)) s = refl
  config_answered-type panic s = refl

  load_specs-type : (s : State W F) → (load_specs env s).1.driver_type ≡ s.driver_type
  unfolding load_specs
  load_specs-type s = search config_answered-type

  -- Where the load succeeds, the type it has found is the one in the driver's name.
  pub load_and_validate_desired_state-type :
      (s s' : State W F)
      → load_and_validate_desired_state env s ≡ (ok tt, s')
      → match_name s.driver.metadata.name ≡ some s'.driver_type
  unfolding load_and_validate_desired_state load_type
  load_and_validate_desired_state-type s s' h =
      let (a, rest) = >>-eq-ok (check_name env) (load_type env >> load_specs env) s s' tt h in
      let m = (check_name env s).1 in
      let (b, last) = >>-eq-ok (load_type env) (load_specs env) m s' tt rest in
      let e = put_type-eq-ok (match_name m.driver.metadata.name) m b in
      ap (λ d. match_name d.metadata.name) (sym (check_name-driver s))
      ∙ e
      ∙ ap some (sym (load_specs-type (load_type env m).1) ∙ ap (λ x. x.1.driver_type) last)
