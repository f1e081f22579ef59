-- ===== src/Utils/Meta/Ownership.antt =====
-- The ownership behind `ToggleOwnerReference` of internal/utils/meta.go.
use ceph_csi_operator.Prelude.{Bool, true, false, ◌⊎◌, ◌≡◌, arith, not, if◌then◌else◌}
use ceph_csi_operator.Prelude.Result.{Result, ok, err}
use ceph_csi_operator.Api.Meta.{ObjectMeta}
use ceph_csi_operator.Api.Client.{Ctrlutil}
use ceph_csi_operator.Utils.Meta.{is_owned_by, toggle_owner_reference, changed_by}

-- What `controllerutil` documents of its two functions on owner references: where they succeed, the
-- object has, or has no longer, a reference to the owner.
pub record OwnerReferenceLaws (util : Ctrlutil) : Type 0 where
  pub set :
      (owner obj obj' : ObjectMeta)
      → util.set_owner_reference owner obj ≡ ok obj'
      → is_owned_by obj' owner ≡ true
  pub remove :
      (owner obj obj' : ObjectMeta)
      → util.remove_owner_reference owner obj ≡ ok obj'
      → is_owned_by obj' owner ≡ false

changed_by-ok :
    (r : Result ObjectMeta) (obj obj' : ObjectMeta) (changed : Bool)
    → changed_by r obj ≡ (ok changed, obj')
    → (r ≡ ok obj') × (changed ≡ true)
unfolding changed_by
changed_by-ok (ok o) obj obj' changed h = ground arith
changed_by-ok (err e) obj obj' changed h = ground arith
changed_by-ok _ obj obj' changed h = ground arith

-- Where owner references are set and removed as documented and toggling succeeds, the object is owned exactly if that was asked for, and a change is
-- reported exactly if the ownership was the other before; with no change the object is as it was.
pub toggle_owner_reference_lem :
    (util : Ctrlutil)
    → OwnerReferenceLaws util
    → (on : Bool) (owner obj obj' : ObjectMeta) (changed : Bool)
    → toggle_owner_reference util on owner obj ≡ (ok changed, obj')
    → (is_owned_by obj' owner ≡ on)
      × (changed ≡ (if on then not (is_owned_by obj owner) else is_owned_by obj owner))
      × ((changed ≡ true) ⊎ (obj' ≡ obj))
unfolding toggle_owner_reference
toggle_owner_reference_lem util laws true owner obj obj' changed h = ground (
  arith,
  changed_by-ok (util.set_owner_reference owner obj) obj obj' changed,
  laws.set owner obj obj',
)
toggle_owner_reference_lem util laws false owner obj obj' changed h = ground (
  arith,
  changed_by-ok (util.remove_owner_reference owner obj) obj obj' changed,
  laws.remove owner obj obj',
)
