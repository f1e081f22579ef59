-- ===== src/Profile/Load/Ready.antt =====
-- What `loadAndValidate` has established where it succeeds.
use ceph_csi_operator.Profile.State.{Env, State}
use ceph_csi_operator.Profile.Load.{
  ready_replications, load_replication, take_ready, listed, load_and_validate, load_connection,
  check_connection_ref, own_connection, load_profile,
}
use ceph_csi_operator.Api.Profile.{ClientProfileReplication}
use ceph_csi_operator.Prelude.Result.{ok, Result, err, panic, Method, ◌>>◌, >>-eq-ok}
use mathlib.Core.Path.{subst}
use ceph_csi_operator.Prelude.{
  [], ◌≡◌, List, ◌⊎◌, All, ◌∷◌, Bool-cases, ◌==◌, inl, eq_iff, inr, ap, arith, refl, sym, false,
  ◌≢◌, is_some, ◌++◌, ◌∙◌, ne_of_eq-false,
}

abbrev pub NotReady : ClientProfileReplication → Type 0
NotReady cr = (cr.status.phase == "Ready") ≡ false

-- At one place of the listing there is a replication that is ready, and at no other.
abbrev pub IsOnlyReady : ClientProfileReplication → List ClientProfileReplication → Type 0
IsOnlyReady cr items =
    (before after : List ClientProfileReplication) × (items ≡ before ++ cr ∷ after)
    × All NotReady before
    × All NotReady after
    × (cr.status.phase ≡ "Ready")

ready-none :
    (items : List ClientProfileReplication) → ready_replications items ≡ [] → All NotReady items
unfolding ready_replications
ready-none [] h = tt
ready-none (item ∷ items) h = elim (Bool-cases (item.status.phase == "Ready")) [
  | inl e ↦ ground (arith, e, h)
  | inr e ↦ (e, ready-none items (ground (arith, e, h)))
]

ready-one :
    (items : List ClientProfileReplication) (cr : ClientProfileReplication)
    → ready_replications items ≡ cr ∷ []
    → IsOnlyReady cr items
unfolding ready_replications
ready-one [] cr h = ground (arith, h)
ready-one (item ∷ items) cr h = elim (Bool-cases (item.status.phase == "Ready")) [
  | inl e ↦
      let same : item ≡ cr = ground (arith, e, h) in
      let rest : ready_replications items ≡ [] = ground (arith, e, h) in
      (
        [],
        items,
        ap (λ x. x ∷ items) same,
        tt,
        ready-none items rest,
        ap (λ x. x.status.phase) (sym same) ∙ (eq_iff item.status.phase "Ready").0 e,
      )
  | inr e ↦
      let (before, after, split, none_before, none_after, ready) =
        ready-one items cr (ground (arith, e, h)) in
      (item ∷ before, after, ap (λ x. item ∷ x) split, (e, none_before), none_after, ready)
]

module _ {W : Type 0} (env : Env W) where
  -- The replication that the iteration works with, from those that were listed: the only one that is
  -- ready, or the one that it had where none is.
  abbrev Chosen :
      List ClientProfileReplication → ClientProfileReplication → ClientProfileReplication → Type 0
  Chosen items old new = (All NotReady items × (new ≡ old)) ⊎ IsOnlyReady new items

  take_ready-cases :
      (rs : List ClientProfileReplication) (s s' : State W)
      → take_ready env rs s ≡ (ok tt, s')
      → ((rs ≡ []) × (s' ≡ s))
        ⊎ ((rs ≡ s'.replication ∷ []) × (s' ≡ record s { replication = s'.replication }))
  unfolding take_ready
  take_ready-cases [] s s' h = ground arith
  take_ready-cases (cr ∷ []) s s' h = ground arith
  take_ready-cases (cr ∷ cr' ∷ crs) s s' h = cc

  take_ready-Chosen :
      (items : List ClientProfileReplication) (s s' : State W)
      → take_ready env (ready_replications items) s ≡ (ok tt, s')
      → Chosen items s.replication s'.replication
  take_ready-Chosen items s s' h = elim (take_ready-cases (ready_replications items) s s' h) [
    | inl (empty, same) ↦ inl (ready-none items empty, ap (λ x. x.replication) same)
    | inr (one, same) ↦ inr (ready-one items s'.replication one)
  ]

  take_ready_frame :
      (rs : List ClientProfileReplication) (s s' : State W)
      → take_ready env rs s ≡ (ok tt, s')
      → s' ≡ record s { replication = s'.replication }
  take_ready_frame rs s s' h = elim (take_ready-cases rs s s' h) [
    | inl (empty, same) ↦ λ i. record (same i) { replication = s'.replication }
    | inr (one, same) ↦ same
  ]

  -- The listing as it succeeded, and what was taken from it.
  pub record Loaded (old : ClientProfileReplication) (s' : State W) : Type 0 where
    pub items : List ClientProfileReplication
    pub at_list : W
    pub listing :
        env.replications.list_by_field s'.client_profile.metadata.namespace
          s'.client_profile.metadata.name at_list
        ≡ (ok items, s'.world)
    pub chosen : Chosen items old s'.replication

  load_replication-Loaded :
      (s s' : State W) → load_replication env s ≡ (ok tt, s') → Loaded s.replication s'
  unfolding load_replication
  load_replication-Loaded s s' h =
      after
        (env.replications.list_by_field s.client_profile.metadata.namespace
          s.client_profile.metadata.name s.world)
        refl h
    where
      after :
          (p : Result (List ClientProfileReplication) × W)
          → env.replications.list_by_field s.client_profile.metadata.namespace
              s.client_profile.metadata.name s.world
            ≡ p
          → listed env p.0 (record s { world = p.1 }) ≡ (ok tt, s')
          → Loaded s.replication s'
      after (ok items, w) e h =
          let frame = take_ready_frame (ready_replications items) (record s { world = w }) s' h in
          record {
            items = items;
            at_list = s.world;
            listing =
                subst
                  (λ x.
                    env.replications.list_by_field x.client_profile.metadata.namespace
                      x.client_profile.metadata.name s.world
                    ≡ (ok items, x.world))
                  (sym frame) e;
            chosen = take_ready-Chosen items (record s { world = w }) s' h;
          }
      after (err x, w) e h = cc
      after (panic, w) e h = cc

  -- The steps before the listing change the connection and the cluster alone.
  connection_frame :
      (s : State W)
      → (load_connection env s).1 ≡ record s {
        ceph_conn = (load_connection env s).1.ceph_conn;
        world = (load_connection env s).1.world;
      }
  unfolding load_connection
  connection_frame s = ground arith

  own_frame :
      (s : State W)
      → (own_connection env s).1 ≡ record s {
        ceph_conn = (own_connection env s).1.ceph_conn;
        world = (own_connection env s).1.world;
      }
  unfolding own_connection
  own_frame s = ground arith

  profile_loaded :
      (s : State W)
      → (load_profile env s).0 ≡ ok tt
      → ((load_profile env s).1.clean_up
          ≡ is_some (load_profile env s).1.client_profile.metadata.deletion_timestamp)
        × ((load_profile env s).1.replication ≡ s.replication)
  unfolding load_profile
  profile_loaded s h = ground arith

  ref_checked :
      (s : State W)
      → (check_connection_ref env s).0 ≡ ok tt
      → ((s.client_profile.spec.ceph_connection_ref == "") ≡ false)
        × ((check_connection_ref env s).1 ≡ s)
  unfolding check_connection_ref
  ref_checked s h = ground arith

  replication_frame :
      (s s' : State W)
      → load_replication env s ≡ (ok tt, s')
      → (s'.client_profile ≡ s.client_profile) × (s'.clean_up ≡ s.clean_up)
  unfolding load_replication
  replication_frame s s' h = ground arith

  -- Where loading succeeds, the profile names a CephConnection, the clean-up flag says whether the
  -- profile has a deletion timestamp, and of the replications that were listed for the profile no two
  -- are ready: the iteration works with the one that is, and with the one that it had if none is.
  pub load_and_validate-Loaded :
      (s s' : State W)
      → load_and_validate env s ≡ (ok tt, s')
      → (s'.client_profile.spec.ceph_connection_ref ≢ "")
        × (s'.clean_up ≡ is_some s'.client_profile.metadata.deletion_timestamp)
        × Loaded s.replication s'
  unfolding load_and_validate
  load_and_validate-Loaded s s' h =
      let (a, h₁) = >>-eq-ok (load_profile env) to_ref s s' tt h in
      let s₁ : State W = (load_profile env s).1 in
      let (b, h₂) = >>-eq-ok (check_connection_ref env) to_connection s₁ s' tt h₁ in
      let s₂ : State W = (check_connection_ref env s₁).1 in
      let (c, h₃) = >>-eq-ok (load_connection env) to_owner s₂ s' tt h₂ in
      let s₃ : State W = (load_connection env s₂).1 in
      let (d, h₄) = >>-eq-ok (own_connection env) (load_replication env) s₃ s' tt h₃ in
      let s₄ : State W = (own_connection env s₃).1 in
      let (named, same) = ref_checked s₁ b in
      let (flag, kept) = profile_loaded s a in
      let (same_profile, same_flag) = replication_frame s₄ s' h₄ in
      let profile : s'.client_profile ≡ s₁.client_profile =
        same_profile
        ∙ ap (λ x. x.client_profile) (own_frame s₃)
        ∙ ap (λ x. x.client_profile) (connection_frame s₂)
        ∙ ap (λ x. x.client_profile) same in
      let clean_up : s'.clean_up ≡ s₁.clean_up =
        same_flag
        ∙ ap (λ x. x.clean_up) (own_frame s₃)
        ∙ ap (λ x. x.clean_up) (connection_frame s₂)
        ∙ ap (λ x. x.clean_up) same in
      let old : s₄.replication ≡ s.replication =
        ap (λ x. x.replication) (own_frame s₃)
        ∙ ap (λ x. x.replication) (connection_frame s₂)
        ∙ ap (λ x. x.replication) same
        ∙ kept in
      (
        subst (λ x. x.spec.ceph_connection_ref ≢ "") (sym profile)
            (ne_of_eq-false s₁.client_profile.spec.ceph_connection_ref "" named),
        clean_up ∙ flag ∙ ap (λ x. is_some x.metadata.deletion_timestamp) (sym profile),
        subst (λ x. Loaded x s') old (load_replication-Loaded s₄ s' h₄),
      )
    where
      to_owner : Method (State W) (Unit {0})
      to_owner = own_connection env >> load_replication env

      to_connection : Method (State W) (Unit {0})
      to_connection = load_connection env >> to_owner

      to_ref : Method (State W) (Unit {0})
      to_ref = check_connection_ref env >> to_connection
