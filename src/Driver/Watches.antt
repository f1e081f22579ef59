-- ===== src/Driver/Watches.antt =====
-- internal/controller/driver_controller.go: the functions that `SetupWithManager` gives to the watches, by
-- which events become requests.
pub mod Laws
use ceph_csi_operator.Utils.Meta.{name_predicate, event_type_predicate, EventType}
use ceph_csi_operator.Utils.Csi.Volumes.{csi_config_volume}
use ceph_csi_operator.Api.Driver.{Foreign, DriverSpec, OperatorConfig, Driver}
use ceph_csi_operator.Driver.State.{Env, owner_ref_annotation_key, annotations_of}
use ceph_csi_operator.Prelude.Assoc.{lookup}
use ceph_csi_operator.Prelude.Result.{Result, ok, err, panic}
use ceph_csi_operator.Api.Meta.{ObjectKey, ObjectMeta, object_key}
use ceph_csi_operator.Prelude.{
  String, Bool, true, false, Option, none, some, List, [], ◌∷◌, ◌==◌, if◌then◌else◌, deref, not,
  is_some, map, ◌&&◌,
}

-- An event, with its objects
pub data Event (T : Type 0) : Type 0 where
  created : T → Event T
  updated : T → T → Event T
  deleted : T → Event T
  generic_of : T → Event T

-- The events of an owned config map that are looked at
unfoldable pub owned_config_map_events : ObjectMeta → EventType → Bool
unfolding name_predicate event_type_predicate
owned_config_map_events obj event =
    name_predicate csi_config_volume.name obj && event_type_predicate false false true false event

module _ {F : Foreign} where
  -- `driverDefaultsPredicate`, over `reflect.DeepEqual` at the defaults
  unfoldable pub driver_defaults_predicate :
      (Option (DriverSpec F) → Option (DriverSpec F) → Bool) → Event (OperatorConfig F) → Bool
  driver_defaults_predicate deep_equal (created op_conf) = is_some op_conf.driver_spec_defaults
  driver_defaults_predicate deep_equal (updated old_conf new_conf) =
      not (deep_equal old_conf.driver_spec_defaults new_conf.driver_spec_defaults)
  driver_defaults_predicate deep_equal (deleted op_conf) = is_some op_conf.driver_spec_defaults
  driver_defaults_predicate deep_equal (generic_of op_conf) = false

module _ {W : Type 0} {F : Foreign} (env : Env W F) where
  -- The requests for the drivers that were listed; an error gives none.
  abbrev pub listed_requests : Result (List (Driver F)) → Result (List ObjectKey)
  listed_requests (ok items) = ok (map (λ driver. object_key driver.metadata) items)
  listed_requests (err e) = ok []
  listed_requests panic = panic

  -- `enqueueAllDrivers`; a listing with no namespace is of all namespaces.
  unfoldable pub enqueue_all_drivers : W → Result (List ObjectKey) × W
  enqueue_all_drivers w = let (r, w') = env.drivers.list "" w in (listed_requests r, w')

  abbrev pub requested : Result ObjectKey → Result (List ObjectKey)
  requested (ok owner) = ok (owner ∷ [])
  requested (err e) = ok []
  requested panic = panic

  -- `enqueueFromOwnerRefAnnotation`
  unfoldable pub enqueue_from_owner_ref_annotation : ObjectMeta → Result (List ObjectKey)
  unfolding lookup
  enqueue_from_owner_ref_annotation obj =
      let owner_ref = deref (lookup owner_ref_annotation_key (annotations_of obj)) "" in
      if owner_ref == "" then ok [] else requested (env.key_codec.unmarshal owner_ref)
