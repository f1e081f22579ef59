-- ===== src/Api/Client.antt =====
-- What the controllers call and the repository does not implement: the client of
-- controller-runtime, its `controllerutil`, and the JSON codec, as parameters. The cluster is a
-- type `W`: a call takes it to the cluster after the call, with all that others did meanwhile.
use ceph_csi_operator.Prelude.{String, Bool, List}
use ceph_csi_operator.Prelude.Result.{Result, Method}
use ceph_csi_operator.Api.Meta.{ObjectMeta, ObjectKey}

-- `ctrlutil.OperationResult`
pub data OperationResult : Type 0 where
  unchanged created updated : OperationResult

-- The client at one kind of object. A write gives back the object as the server answers it;
-- `create_or_update` gives it back beside an error too, as the callback left it.
pub record Store (W T : Type 0) : Type 0 where
  pub get : ObjectKey → W → Result T × W
  -- `List` with `InNamespace`
  pub list : String → W → Result (List T) × W
  -- `List` with `InNamespace` and `MatchingFields` on the field index
  pub list_by_field : String → String → W → Result (List T) × W
  pub create : T → W → Result T × W
  pub update : T → W → Result T × W
  pub update_status : T → W → Result T × W
  pub delete : ObjectKey → W → Result (Unit {0}) × W
  pub create_or_update : T → Method T (Unit {0}) → W → Result OperationResult × T × W

-- `controllerutil`: the first metadata is the owner's, the second the object's.
pub record Ctrlutil : Type 0 where
  pub set_owner_reference : ObjectMeta → ObjectMeta → Result ObjectMeta
  pub remove_owner_reference : ObjectMeta → ObjectMeta → Result ObjectMeta
  pub set_controller_reference : ObjectMeta → ObjectMeta → Result ObjectMeta
  pub add_finalizer : ObjectMeta → String → ObjectMeta × Bool
  pub remove_finalizer : ObjectMeta → String → ObjectMeta × Bool

-- `encoding/json` at one type
pub record Codec (T : Type 0) : Type 0 where
  pub marshal : T → Result String
  pub unmarshal : String → Result T

-- A call of the client by a method whose receiver holds the cluster in a field.
abbrev pub call : {W S A : Type 0} → (S → W) → (W → S → S) → (W → Result A × W) → Method S A
call world put_world f s = let (r, w) = f (world s) in (r, put_world w s)
