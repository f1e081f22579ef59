-- ===== src/Tests/Driver.antt =====
-- The Driver controller at concrete inputs.
use ceph_csi_operator.Driver.State.{State}
use ceph_csi_operator.Prelude.Assoc.{lookup}
use ceph_csi_operator.Prelude.{
  ◌≡◌, Any, ℕ, String, some, refl, if◌then◌else◌, ◌∷◌, ◌==◌, [], none, ◌&&◌, ptr_or, ◌≢◌,
  ne_of_eq-false, arith,
}
use ceph_csi_operator.Driver.Names.Laws.{IsPrefix, match_name_sound}
use ceph_csi_operator.Utils.Meta.{add_annotation, annotation_differs}
use ceph_csi_operator.Prelude.Result.{ok, ◌>>◌, err, other}
use ceph_csi_operator.Driver.Merge.{merge_driver_specs}
use ceph_csi_operator.Driver.CsiDriver.{mutate_csi_driver, annotated}
use ceph_csi_operator.Driver.Names.{match_name, driver_types, type_at, behind_first, type_behind}
use ceph_csi_operator.Driver.Network.{get_controller_plugin_replicas}
use ceph_csi_operator.Prelude.Text.{pos, ◌<>◌}
use ceph_csi_operator.Driver.Merge.Laws.{IsMerged, merge_driver_specs-IsMerged}
use ceph_csi_operator.Driver.Load.Settings.{IsAnswered, load_and_validate_desired_state-IsAnswered}
use ceph_csi_operator.Driver.Load.Kept.{load_and_validate_desired_state-type}
use ceph_csi_operator.Driver.Load.Images.{content_of, image-precedence}
use ceph_csi_operator.Driver.Network.Laws.{IsCapped, get_controller_plugin_replicas-IsCapped}
use ceph_csi_operator.Driver.Load.Owner.{claimed-mutated}
use ceph_csi_operator.Driver.Watches.{enqueue_from_owner_ref_annotation}
use ceph_csi_operator.Driver.Watches.Laws.{enqueue_from_owner_ref_annotation-mutated}
use ceph_csi_operator.Api.Meta.{object_key}
use ceph_csi_operator.Tests.DriverData.{
  plain_env, own_spec, test_types, test_driver, defaults, test_state, test_nodes, test_csi_driver,
  key_text, test_image_set,
}
use ceph_csi_operator.Driver.Load.{
  apply_defaults, apply_own_images, claimed, load_and_validate_desired_state, image_defaults,
}

has_uid : (mutate_csi_driver plain_env test_driver test_csi_driver).1.metadata.uid ≢ ""
unfolding mutate_csi_driver annotated add_annotation annotation_differs
has_uid = ne_of_eq-false "5" "" refl

claimed-mutated_example :
    claimed plain_env (ok (mutate_csi_driver plain_env test_driver test_csi_driver).1) test_state
    ≡ (if test_state.driver.metadata.namespace == test_driver.metadata.namespace
          && test_state.driver.metadata.name == test_driver.metadata.name
        then (ok tt, test_state)
        else (err (other "invalid driver name"), test_state))
claimed-mutated_example =
    claimed-mutated plain_env test_driver test_csi_driver key_text test_state refl
      (ne_of_eq-false key_text "" refl) refl has_uid

abbrev loaded : State ℕ test_types
loaded = (load_and_validate_desired_state plain_env test_state).1

loaded-ok : load_and_validate_desired_state plain_env test_state ≡ (ok tt, loaded)
unfolding load_and_validate_desired_state match_name
loaded-ok = refl

load_and_validate_desired_state-IsAnswered_example :
    IsAnswered plain_env (object_key test_state.driver.metadata) loaded.driver
load_and_validate_desired_state-IsAnswered_example =
    load_and_validate_desired_state-IsAnswered plain_env test_state loaded loaded-ok

load_and_validate_desired_state-type_example :
    match_name "a.rbd.csi.ceph.com" ≡ some loaded.driver_type
load_and_validate_desired_state-type_example =
    load_and_validate_desired_state-type plain_env test_state loaded loaded-ok

name_matches : match_name "a.rbd.csi.ceph.com" ≡ some "rbd"
unfolding match_name type_at behind_first type_behind
name_matches = refl

match_name_sound_example :
    Any (λ u. u ≡ "rbd") driver_types
    × (p : String) × IsPrefix p
    × ("a.rbd.csi.ceph.com" ≡ p <> "rbd" <> ".csi.ceph.com")
match_name_sound_example = match_name_sound "a.rbd.csi.ceph.com" "rbd" name_matches

image-precedence_example :
    lookup "plugin"
      ((apply_defaults plain_env (some defaults) >> apply_own_images plain_env) test_state).1.images
    ≡ ptr_or (lookup "plugin" (content_of plain_env test_image_set)) (
        ptr_or
          (lookup "plugin" (content_of plain_env test_image_set))
          (lookup "plugin" image_defaults))
image-precedence_example =
    image-precedence plain_env "plugin" defaults test_state "operator" "own" test_image_set
      test_image_set 0 0 refl refl (refl, refl, refl) (refl, refl, refl)

enqueue_from_owner_ref_annotation-mutated_example :
    enqueue_from_owner_ref_annotation plain_env
      (mutate_csi_driver plain_env test_driver test_csi_driver).1.metadata
    ≡ ok (object_key test_driver.metadata ∷ [])
enqueue_from_owner_ref_annotation-mutated_example =
    enqueue_from_owner_ref_annotation-mutated plain_env test_driver test_csi_driver key_text refl
      (ne_of_eq-false key_text "" refl) refl

merge_driver_specs-IsMerged_example :
    IsMerged own_spec defaults (merge_driver_specs own_spec defaults)
merge_driver_specs-IsMerged_example = merge_driver_specs-IsMerged own_spec defaults

get_controller_plugin_replicas-IsCapped_example :
    (n : ℕ) × (get_controller_plugin_replicas plain_env none 0 ≡ (ok (pos n), 0))
    × IsCapped (ok test_nodes) n
get_controller_plugin_replicas-IsCapped_example =
    get_controller_plugin_replicas-IsCapped plain_env 0 0 (ok test_nodes) refl
      (λ e. ground (arith, e))
