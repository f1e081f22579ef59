-- ===== src/Utils/Meta.antt =====
-- internal/utils/meta.go and predicates.go: annotations, owner references, and event filters.
pub mod Ownership
use ceph_csi_operator.Prelude.{
  String, Bool, true, false, not, Option, none, some, List, [], ◌∷◌, ◌==◌, ◌||◌, if◌then◌else◌,
  any_of, deref,
}
use ceph_csi_operator.Prelude.Assoc.{Assoc, lookup, insert}
use ceph_csi_operator.Prelude.Result.{Result, ok, err, panic, Method}
use ceph_csi_operator.Api.Meta.{ObjectMeta, OwnerReference}
use ceph_csi_operator.Api.Client.{Ctrlutil}

-- The test `oldValue, exist := annotations[key]; !exist || oldValue != value`.
unfoldable pub annotation_differs : Option String → String → Bool
annotation_differs none value = true
annotation_differs (some old_value) value = not (old_value == value)

-- `AddAnnotation`
unfoldable pub add_annotation : ObjectMeta → String → String → ObjectMeta × Bool
unfolding annotation_differs lookup insert
add_annotation obj key value =
    let annotations = deref obj.annotations [] in
    if annotation_differs (lookup key annotations) value
    then (record obj { annotations = some (insert key value annotations) }, true)
    else (record obj { annotations = some annotations }, false)

-- `IsOwnedBy`
unfoldable pub is_owned_by : ObjectMeta → ObjectMeta → Bool
is_owned_by obj owner = any_of (λ ref. owner.uid == ref.uid) obj.owner_references

-- `return err == nil, err` behind an owner reference that was set or removed
unfoldable pub changed_by : Result ObjectMeta → Method ObjectMeta Bool
changed_by (ok obj') obj = (ok true, obj')
changed_by (err e) obj = (err e, obj)
changed_by panic obj = (panic, obj)

-- `ToggleOwnerReference`, a method of the object
unfoldable pub toggle_owner_reference : Ctrlutil → Bool → ObjectMeta → Method ObjectMeta Bool
unfolding changed_by is_owned_by
toggle_owner_reference util on owner obj =
    let owner_ref_exists = is_owned_by obj owner in
    if on
    then if not owner_ref_exists
      then changed_by (util.set_owner_reference owner obj) obj
      else (ok false, obj)
    else if owner_ref_exists
    then changed_by (util.remove_owner_reference owner obj) obj
    else (ok false, obj)

-- The events of a watch.
pub data EventType : Type 0 where
  create update delete generic : EventType

-- `NamePredicate`, over the name of the event's object
unfoldable pub name_predicate : String → ObjectMeta → Bool
name_predicate name obj = obj.name == name

-- `EventTypePredicate`
unfoldable pub event_type_predicate : Bool → Bool → Bool → Bool → EventType → Bool
event_type_predicate on_create on_update on_delete on_generic EventType.create = on_create
event_type_predicate on_create on_update on_delete on_generic EventType.update = on_update
event_type_predicate on_create on_update on_delete on_generic EventType.delete = on_delete
event_type_predicate on_create on_update on_delete on_generic EventType.generic = on_generic
