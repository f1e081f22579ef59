-- ===== src/Driver/Load/Images.antt =====
-- Which image a container gets.
use ceph_csi_operator.Prelude.{
  ◌∷◌, [], refl, arith, ◌∙◌, ap, Bool-cases, ◌==◌, inl, some, eq_iff, inr, deref,
}
use ceph_csi_operator.Prelude.{String, map, ◌≡◌, true, false, none, ptr_or}
use ceph_csi_operator.Prelude.Keyed.{mem_key, distinct}
use ceph_csi_operator.Api.Driver.{Foreign, DriverSpec}
use ceph_csi_operator.Driver.State.{Env, State}
use ceph_csi_operator.Driver.Load.{
  load_image_set, images_answered, apply_defaults, apply_own_images,
}
use ceph_csi_operator.Api.Meta.{ConfigMap}
use ceph_csi_operator.Prelude.Result.{ok, ◌>>◌}
use ceph_csi_operator.Driver.Merge.{merge_driver_specs}
use ceph_csi_operator.Prelude.Assoc.{copy, lookup, Assoc, insert, lookup-insert}

lookup-absent :
    {V : Type 0} (k : String) (m : Assoc V)
    → mem_key k (map (λ e. e.0) m) ≡ false
    → lookup k m ≡ none
unfolding lookup
lookup-absent k [] h = refl
lookup-absent k ((j, v) ∷ m) h = ground (arith, h, lookup-absent k m)

-- The copied entries come first, where their keys are distinct.
pub lookup-copy :
    {V : Type 0} (k : String) (dst src : Assoc V)
    → distinct (map (λ e. e.0) src) ≡ true
    → lookup k (copy dst src) ≡ ptr_or (lookup k src) (lookup k dst)
unfolding copy lookup
lookup-copy k dst [] h = refl
lookup-copy k dst ((j, v) ∷ src) h =
    lookup-copy k (insert j v dst) src (ground (arith, h))
    ∙ ap (ptr_or (lookup k src)) (lookup-insert j k v dst)
    ∙ elim (Bool-cases (j == k)) [
      | inl e ↦
          rw e (
            ap (λ o. ptr_or o (some v)) (lookup-absent k src (ground (arith, h, (eq_iff j k).0 e))))
      | inr e ↦ rw e refl
    ]

module _ {W : Type 0} {F : Foreign} (env : Env W F) where
  abbrev pub content_of : ConfigMap → Assoc String
  content_of config_map = deref config_map.content []

  -- An image set that is found, with distinct keys, as the keys of a Go map are
  abbrev pub Found : String → String → W → ConfigMap → W → Type 0
  Found name namespace w config_map w' =
      ((name == "") ≡ false)
      × (env.config_maps.get (record { name = name; namespace = namespace }) w
          ≡ (ok config_map, w'))
      × (distinct (map (λ e. e.0) (content_of config_map)) ≡ true)

  load_image_set-Found :
      (name namespace : String) (s : State W F) (config_map : ConfigMap) (w : W)
      → Found name namespace s.world config_map w
      → load_image_set env (some name) namespace s
        ≡ (ok tt, record s { images = copy s.images (content_of config_map); world = w })
  unfolding load_image_set images_answered
  load_image_set-Found name namespace s config_map w (ne, h, d) = rw ne (rw h refl)

  -- The images behind both image sets
  two_sets :
      (defaults : DriverSpec F) (s : State W F) (op_name own_name : String) (op own : ConfigMap)
      (w v : W)
      → defaults.image_set ≡ some op_name
      → s.driver.spec.image_set ≡ some own_name
      → Found op_name env.operator_namespace s.world op w
      → Found own_name s.driver.metadata.namespace w own v
      → ((apply_defaults env (some defaults) >> apply_own_images env) s).1.images
        ≡ copy (copy s.images (content_of op)) (content_of own)
  unfolding apply_defaults apply_own_images load_image_set images_answered
  two_sets defaults s op_name own_name op own w v i j h k = rw i (
      rw
        (load_image_set-Found op_name env.operator_namespace
          (record s {
            driver = record s.driver { spec = merge_driver_specs s.driver.spec defaults };
          })
          op w h)
        (rw j rw k.0 (rw k.1 refl)))

  -- Where the defaults and the driver each name an image set, and both are found with distinct keys, an
  -- image is that of the driver's set, or else that of the operator's, or else the one before.
  pub image-precedence :
      (k : String) (defaults : DriverSpec F) (s : State W F) (op_name own_name : String)
      (op own : ConfigMap) (w v : W)
      → defaults.image_set ≡ some op_name
      → s.driver.spec.image_set ≡ some own_name
      → Found op_name env.operator_namespace s.world op w
      → Found own_name s.driver.metadata.namespace w own v
      → lookup k ((apply_defaults env (some defaults) >> apply_own_images env) s).1.images
        ≡ ptr_or (lookup k (content_of own)) (ptr_or (lookup k (content_of op)) (lookup k s.images))
  image-precedence k defaults s op_name own_name op own w v i j h g =
      ap (lookup k) (two_sets defaults s op_name own_name op own w v i j h g)
      ∙ lookup-copy k (copy s.images (content_of op)) (content_of own) g.2
      ∙ ap (ptr_or (lookup k (content_of own))) (lookup-copy k s.images (content_of op) h.2)
