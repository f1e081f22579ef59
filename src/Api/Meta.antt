-- ===== src/Api/Meta.antt =====
-- Object metadata, references and config maps, with the fields that the controllers use.
-- A `metav1.Time` is a number, and a nil pointer is `none`.
use ceph_csi_operator.Prelude.{ℕ, String, Option, List, []}
use ceph_csi_operator.Prelude.Assoc.{Assoc}

pub record OwnerReference : Type 0 where
  pub name : String
  pub uid : String

pub record ObjectMeta : Type 0 where
  pub name : String
  pub namespace : String
  pub uid : String
  pub owner_references : List OwnerReference
  pub finalizers : List String
  pub annotations : Option (Assoc String)
  pub creation_timestamp : ℕ
  pub deletion_timestamp : Option ℕ

-- `types.NamespacedName`, also `client.ObjectKey` and the name in a `ctrl.Request`
pub record ObjectKey : Type 0 where
  pub name : String
  pub namespace : String

-- `client.ObjectKeyFromObject`
abbrev pub object_key : ObjectMeta → ObjectKey
object_key m = record { name = m.name; namespace = m.namespace }

-- `corev1.SecretReference`
pub record SecretReference : Type 0 where
  pub name : String
  pub namespace : String

-- `corev1.ConfigMap`; a nil map of data is `none`.
pub record ConfigMap : Type 0 where
  pub metadata : ObjectMeta
  pub content : Option (Assoc String)

-- The zero value of the metadata, with a name and a namespace.
abbrev pub named : String → String → ObjectMeta
named name namespace = record {
  name = name;
  namespace = namespace;
  uid = "";
  owner_references = [];
  finalizers = [];
  annotations = Option.none;
  creation_timestamp = 0;
  deletion_timestamp = Option.none;
}
