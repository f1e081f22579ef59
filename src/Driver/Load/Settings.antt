-- ===== src/Driver/Load/Settings.antt =====
-- The spec that a load ends with, by the specs that the cluster answered.
use mathlib.Core.Path.{subst}
use ceph_csi_operator.Driver.State.{Env, State}
use ceph_csi_operator.Driver.Load.{
  put_type, load_image_set, apply_own_images, driver_answered, check_name, config_answered,
  apply_defaults, load_and_validate_desired_state, images_answered, load_driver, load_type,
  load_specs, image_defaults,
}
use ceph_csi_operator.Driver.Load.Kept.{check_name-driver}
use ceph_csi_operator.Driver.Merge.{merge_driver_specs}
use ceph_csi_operator.Driver.Merge.Laws.{IsMerged, merge_driver_specs-IsMerged}
use ceph_csi_operator.Prelude.{
  String, Option, ◌≡◌, some, Bool-cases, none, ◌∙◌, ◌==◌, arith, refl, inl, inr, ap, sym,
}
use ceph_csi_operator.Prelude.Result.{
  Result, resume, ok, err, >>-eq-ok, not_found, panic, ◌>>◌, invalid, other,
}
use ceph_csi_operator.Api.Meta.{ObjectKey, ConfigMap, object_key}
use ceph_csi_operator.Driver.Names.{match_name}
use ceph_csi_operator.Api.Driver.{Foreign, OperatorConfig, DriverSpec, Driver}

module _ {W : Type 0} {F : Foreign} (env : Env W F) where
  answered-driver :
      (r : Result ConfigMap) (s : State W F) → (images_answered env r s).1.driver ≡ s.driver
  unfolding images_answered
  answered-driver (ok m) s = refl
  answered-driver (err e) s = refl
  answered-driver panic s = refl

  image_set-driver :
      (name : Option String) (ns : String) (s : State W F)
      → (load_image_set env name ns s).1.driver ≡ s.driver
  unfolding load_image_set
  image_set-driver none ns s = refl
  image_set-driver (some name) ns s = elim (Bool-cases (name == "")) [
    | inl e ↦ rw e refl
    | inr e ↦ rw e (search answered-driver)
  ]

  own_images-driver :
      (r : Result (Unit {0})) (s : State W F)
      → (resume r (λ _. apply_own_images env) s).1.driver ≡ s.driver
  unfolding apply_own_images
  own_images-driver (ok u) s = search image_set-driver
  own_images-driver (err e) s = refl
  own_images-driver panic s = refl

  type-driver : (s : State W F) → (load_type env s).1.driver ≡ s.driver
  unfolding load_type put_type
  type-driver s = put (match_name s.driver.metadata.name)
    where
      put : (t : Option String) → (put_type env t s).1.driver ≡ s.driver
      put none = refl
      put (some t) = refl

  -- A spec with the defaults of the operator's configuration, where there are some
  abbrev IsFilled : Option (DriverSpec F) → DriverSpec F → DriverSpec F → Type 0
  IsFilled none d m = m ≡ d
  IsFilled (some defaults) d m = IsMerged d defaults m

  -- Where there is no configuration, there are no defaults.
  abbrev pub IsFilledBy : Result (OperatorConfig F) → DriverSpec F → DriverSpec F → Type 0
  IsFilledBy (ok op_config) d m = IsFilled op_config.driver_spec_defaults d m
  IsFilledBy _ d m = m ≡ d

  abbrev IsDefaulted : Option (DriverSpec F) → Driver F → Driver F → Type 0
  IsDefaulted defaults driver m =
      (m.metadata ≡ driver.metadata) × IsFilled defaults driver.spec m.spec

  apply_defaults-IsDefaulted :
      (defaults : Option (DriverSpec F)) (s : State W F)
      → IsDefaulted defaults s.driver (apply_defaults env defaults s).1.driver
  unfolding apply_defaults
  apply_defaults-IsDefaulted none s = (refl, refl)
  apply_defaults-IsDefaulted (some defaults) s =
      let spec = merge_driver_specs s.driver.spec defaults in
      subst (IsDefaulted (some defaults) s.driver)
        (sym (
          image_set-driver defaults.image_set env.operator_namespace
            (record s { driver = record s.driver { spec = spec } })))
        (refl, merge_driver_specs-IsMerged s.driver.spec defaults)

  -- The answer of the cluster for the driver, and what became of it
  abbrev IsLoadedFrom : Option (DriverSpec F) → ObjectKey → Driver F → Type 0
  IsLoadedFrom defaults key m =
      (driver : Driver F) × (v : W) × ((env.drivers.get key v).0 ≡ ok driver)
      × IsDefaulted defaults driver m

  driver_answered-IsDefaulted :
      (defaults : Option (DriverSpec F)) (driver : Driver F) (s : State W F)
      → IsDefaulted defaults driver (driver_answered env defaults (ok driver) s).1.driver
  unfolding driver_answered
  driver_answered-IsDefaulted defaults driver s =
      let before = record s { driver = driver; images = image_defaults } in
      let m = apply_defaults env defaults before in
      subst (IsDefaulted defaults driver) (sym (own_images-driver m.0 m.1))
        (apply_defaults-IsDefaulted defaults before)

  load_driver-IsLoadedFrom :
      (defaults : Option (DriverSpec F)) (s s' : State W F)
      → load_driver env defaults s ≡ (ok tt, s')
      → IsLoadedFrom defaults (object_key s.driver.metadata) s'.driver
  unfolding load_driver driver_answered
  load_driver-IsLoadedFrom defaults s s' h =
      after (env.drivers.get (object_key s.driver.metadata) s.world) refl h
    where
      after :
          (p : Result (Driver F) × W)
          → env.drivers.get (object_key s.driver.metadata) s.world ≡ p
          → driver_answered env defaults p.0 (record s { world = p.1 }) ≡ (ok tt, s')
          → IsLoadedFrom defaults (object_key s.driver.metadata) s'.driver
      after (ok driver, w) e k = (
        driver,
        s.world,
        ap (λ x. x.0) e,
        subst (IsDefaulted defaults driver) (ap (λ x. x.1.driver) k)
            (driver_answered-IsDefaulted defaults driver (record s { world = w })),
      )
      after (err x, w) e k = ground (arith, k)
      after (panic, w) e k = ground (arith, k)

  -- The answers of the cluster for the operator's configuration and for the driver
  abbrev pub IsAnswered : ObjectKey → Driver F → Type 0
  IsAnswered key m =
      (r : Result (OperatorConfig F)) × (w v : W) × (driver : Driver F) × ((env.operator_configs.get
          (record { name = env.operator_config_name; namespace = env.operator_namespace }) w).0
        ≡ r)
      × ((env.drivers.get key v).0 ≡ ok driver)
      × (m.metadata ≡ driver.metadata)
      × IsFilledBy r driver.spec m.spec

  load_specs-IsAnswered :
      (s s' : State W F)
      → load_specs env s ≡ (ok tt, s')
      → IsAnswered (object_key s.driver.metadata) s'.driver
  unfolding load_specs config_answered
  load_specs-IsAnswered s s' h =
      after
        (env.operator_configs.get
          (record { name = env.operator_config_name; namespace = env.operator_namespace }) s.world)
        refl h
    where
      after :
          (p : Result (OperatorConfig F) × W)
          → env.operator_configs.get
              (record { name = env.operator_config_name; namespace = env.operator_namespace })
              s.world
            ≡ p
          → config_answered env p.0 (record s { world = p.1 }) ≡ (ok tt, s')
          → IsAnswered (object_key s.driver.metadata) s'.driver
      after (ok c, w) e k =
          let (driver, v, got, filled) =
            load_driver-IsLoadedFrom c.driver_spec_defaults (record s { world = w }) s' k in
          (ok c, s.world, v, driver, ap (λ x. x.0) e, got, filled.0, filled.1)
      after (err (not_found text), w) e k =
          let (driver, v, got, filled) =
            load_driver-IsLoadedFrom none (record s { world = w }) s' k in
          (err (not_found text), s.world, v, driver, ap (λ x. x.0) e, got, filled.0, filled.1)
      after (err (invalid text), w) e k = ground (arith, k)
      after (err (other text), w) e k = ground (arith, k)
      after (panic, w) e k = ground (arith, k)

  -- Where the load succeeds, the driver is the one that the cluster answered, with its spec filled: each
  -- field that the user sets is kept, and each that is unset is taken from the defaults of the operator's
  -- configuration, but for the fields that are not merged; where there is no configuration, or it has no
  -- defaults, the spec is the user's.
  pub load_and_validate_desired_state-IsAnswered :
      (s s' : State W F)
      → load_and_validate_desired_state env s ≡ (ok tt, s')
      → IsAnswered (object_key s.driver.metadata) s'.driver
  unfolding load_and_validate_desired_state
  load_and_validate_desired_state-IsAnswered s s' h =
      let (a, rest) = >>-eq-ok (check_name env) (load_type env >> load_specs env) s s' tt h in
      let m = (check_name env s).1 in
      let (b, last) = >>-eq-ok (load_type env) (load_specs env) m s' tt rest in
      subst (λ d. IsAnswered (object_key d.metadata) s'.driver)
        (type-driver m ∙ check_name-driver env s)
        (load_specs-IsAnswered (load_type env m).1 s' last)
