-- ===== src/Replication/Conflicts.antt =====
-- The conflict detection: which replication becomes Ready.
use ceph_csi_operator.Replication.{
  Env, State, judge, detect_conflict, pick_winner, listed, same_object,
}
use ceph_csi_operator.Api.Profile.{ClientProfileReplication}
use ceph_csi_operator.Prelude.Result.{ok}
use ceph_csi_operator.Replication.Order.{
  oldest, sort_by_age-oldest, Included, oldest_unique, NotOlder, oldest-Any, oldest-NotOlder,
}
use ceph_csi_operator.Prelude.{
  String, ◌≡◌, List, ◌∷◌, arith, eq_iff, refl, ap, sym, ◌∙◌, if◌then◌else◌, Any, All,
}

module _ {W : Type 0} (env : Env W) where
  -- The listing of the replications that name the profile of the one that is reconciled.
  abbrev pub Lists : State W → List ClientProfileReplication → W → Type 0
  Lists s items w =
      env.replications.list_by_field s.replication.metadata.namespace
        s.replication.spec.local_client_profile s.world
      ≡ (ok items, w)

  -- The replication is judged by the oldest of the listing.
  detect_conflict-judge :
      (s : State W) (a : ClientProfileReplication) (items : List ClientProfileReplication) (w : W)
      → Lists s (a ∷ items) w
      → detect_conflict env s ≡ (
        ok tt,
        record {
          replication =
              judge s.replication.spec.local_client_profile (oldest a items) s.replication;
          world = w;
        },
      )
  unfolding detect_conflict listed pick_winner
  detect_conflict-judge s a items w h =
      let (rest, e) = sort_by_age-oldest a items in rw h (rw e refl)

judge-Ready :
    (profile : String) (winner cr : ClientProfileReplication)
    → (judge profile winner cr).status.phase ≡ "Ready"
    → (cr.metadata.name ≡ winner.metadata.name)
      × (cr.metadata.namespace ≡ winner.metadata.namespace)
unfolding judge
judge-Ready profile winner cr h = ground (
  arith,
  eq_iff cr.metadata.name winner.metadata.name,
  eq_iff cr.metadata.namespace winner.metadata.namespace,
  eq_iff "Rejected" "Ready",
)

verdict :
    {W : Type 0} (env : Env W) (s : State W) (a : ClientProfileReplication)
    (items : List ClientProfileReplication) (w : W)
    → Lists env s (a ∷ items) w
    → (detect_conflict env s).1.replication
      ≡ judge s.replication.spec.local_client_profile (oldest a items) s.replication
verdict env s a items w h = ap (λ x. x.1.replication) (detect_conflict-judge env s a items w h)

judge-name :
    (profile : String) (winner cr : ClientProfileReplication)
    → (judge profile winner cr).metadata.name ≡ cr.metadata.name
unfolding judge
judge-name profile winner cr = ground arith

-- Two replications whose listings have the same members, in whatever order, and that both become
-- Ready have the same name.
pub detect_conflict_unique :
    {W : Type 0} (env : Env W) (s t : State W) (a b : ClientProfileReplication)
    (xs ys : List ClientProfileReplication) (w v : W)
    → Lists env s (a ∷ xs) w
    → Lists env t (b ∷ ys) v
    → Included (a ∷ xs) (b ∷ ys)
    → Included (b ∷ ys) (a ∷ xs)
    → (detect_conflict env s).1.replication.status.phase ≡ "Ready"
    → (detect_conflict env t).1.replication.status.phase ≡ "Ready"
    → s.replication.metadata.name ≡ t.replication.metadata.name
detect_conflict_unique env s t a b xs ys w v hs ht into back p q =
    let es = verdict env s a xs w hs in
    let et = verdict env t b ys v ht in
    let js =
      judge-Ready s.replication.spec.local_client_profile (oldest a xs) s.replication
        (sym (ap (λ r. r.status.phase) es) ∙ p) in
    let jt =
      judge-Ready t.replication.spec.local_client_profile (oldest b ys) t.replication
        (sym (ap (λ r. r.status.phase) et) ∙ q) in
    js.0 ∙ (oldest_unique a b xs ys into back).0 ∙ sym jt.0

judge-phase :
    (profile : String) (winner cr : ClientProfileReplication)
    → (judge profile winner cr).status.phase
      ≡ (if same_object cr.metadata winner.metadata then "Ready" else "Rejected")
unfolding judge
judge-phase profile winner cr = ground arith

-- Where the replications of the profile are listed and there is one at least, the conflict detection
-- succeeds, and one of the listing, than which none of it is older, decides, whatever the order of the
-- listing: the replication becomes Ready if it has the name and the namespace of that one, and
-- Rejected else.
pub detect_conflict-oldest :
    {W : Type 0} (env : Env W) (s : State W) (a : ClientProfileReplication)
    (items : List ClientProfileReplication) (w : W)
    → Lists env s (a ∷ items) w
    → (winner : ClientProfileReplication) × Any (λ x. x ≡ winner) (a ∷ items)
      × All (NotOlder winner) (a ∷ items)
      × ((detect_conflict env s).0 ≡ ok tt)
      × ((detect_conflict env s).1.replication.status.phase
          ≡ (if same_object s.replication.metadata winner.metadata then "Ready" else "Rejected"))
detect_conflict-oldest env s a items w h =
    let e = detect_conflict-judge env s a items w h in
    (
      oldest a items,
      oldest-Any a items,
      oldest-NotOlder a items,
      ap (λ x. x.0) e,
      ap (λ x. x.1.replication.status.phase) e
          ∙ judge-phase s.replication.spec.local_client_profile (oldest a items) s.replication,
    )
