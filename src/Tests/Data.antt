-- ===== src/Tests/Data.antt =====
-- A cluster whose state is a count of the writes, and objects for it.
use ceph_csi_operator.Api.Client.{Ctrlutil, Store, OperationResult}
use ceph_csi_operator.Prelude.Result.{ok}
use ceph_csi_operator.Prelude.{
  String, List, ℕ, ◌∷◌, none, suc, true, if◌then◌else◌, ◌==◌, [], Option,
}
use ceph_csi_operator.Api.Profile.{ClientProfileReplication, CephConnection, ClientProfile}
use ceph_csi_operator.Api.Meta.{ConfigMap, ObjectMeta, OwnerReference, named}

-- Every write counts, and gives the object back; a callback is not run.
abbrev pub store_of : {T : Type 0} → T → List T → Store ℕ T
store_of found items = record {
  get = λ key w. (ok found, w);
  list = λ namespace w. (ok items, w);
  list_by_field = λ namespace name w. (ok items, w);
  create = λ t w. (ok t, suc w);
  update = λ t w. (ok t, suc w);
  update_status = λ t w. (ok t, suc w);
  delete = λ key w. (ok tt, suc w);
  create_or_update = λ t f w. (ok OperationResult.created, t, suc w);
}

abbrev pub without : String → List OwnerReference → List OwnerReference
without uid [] = []
without uid (ref ∷ refs) =
    let rest = without uid refs in if uid == ref.uid then rest else ref ∷ rest

abbrev pub reference_to : ObjectMeta → OwnerReference
reference_to owner = record { name = owner.name; uid = owner.uid }

abbrev pub test_util : Ctrlutil
test_util = record {
  set_owner_reference =
      λ owner obj. ok (record obj { owner_references = reference_to owner ∷ obj.owner_references });
  remove_owner_reference =
      λ owner obj. ok (record obj { owner_references = without owner.uid obj.owner_references });
  set_controller_reference =
      λ owner obj. ok (record obj { owner_references = reference_to owner ∷ obj.owner_references });
  add_finalizer = λ obj finalizer. (record obj { finalizers = finalizer ∷ obj.finalizers }, true);
  remove_finalizer = λ obj finalizer. (record obj { finalizers = [] }, true);
}

abbrev pub meta_of : String → String → ObjectMeta
meta_of name uid = record (named name "storage") { uid = uid }

abbrev pub no_config_map : ConfigMap
no_config_map = record { metadata = named "ceph-csi-config" "storage"; content = none }

abbrev pub replication_at : String → ℕ → String → ClientProfileReplication
replication_at name time phase = record {
  metadata = record (meta_of name name) { creation_timestamp = time };
  spec = record { local_client_profile = "blue"; remote_client_profile = "red"; rbd = none };
  status = record { phase = phase; message = "" };
}

abbrev pub test_profile : Option ℕ → ClientProfile
test_profile deletion = record {
  metadata = record (meta_of "blue" "1") { deletion_timestamp = deletion };
  spec = record {
    ceph_connection_ref = "ceph";
    ceph_fs = none;
    rbd = none;
    nfs = none;
    nvmeof = none;
  };
  status = record { phase = ""; message = "" };
}

abbrev pub test_connection : CephConnection
test_connection = record {
  metadata = meta_of "ceph" "2";
  spec = record { monitors = "10.0.0.1" ∷ []; read_affinity = none; rbd_mirror_daemon_count = 1 };
}
