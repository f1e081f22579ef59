-- ===== src/Profile/ConfigFile/Laws.antt =====
-- What the callback writes into the config map.
use ceph_csi_operator.Api.Meta.{ConfigMap, ObjectMeta}
use ceph_csi_operator.Profile.State.{Env, State}
use ceph_csi_operator.Api.Client.{Codec}
use ceph_csi_operator.Profile.ConfigFile.{
  data_at, put_data, mutate_config_map, change_file, parse_entries, config_key, after_toggle,
}
use ceph_csi_operator.Profile.Record.{CsiClusterInfoRecord, compose_csi_cluster_info_record}
use ceph_csi_operator.Profile.Entries.Laws.{pointers, find_record, ids, update_entries-upsert}
use ceph_csi_operator.Prelude.Result.{ok, Result, err, panic}
use ceph_csi_operator.Profile.Entries.{update_entries}
use ceph_csi_operator.Prelude.Assoc.{lookup-insert}
use ceph_csi_operator.Prelude.Keyed.{distinct}
use mathlib.Core.Path.{subst}
use ceph_csi_operator.Profile.Entries.Delete.{update_entries-delete}
use ceph_csi_operator.Utils.Meta.{toggle_owner_reference}
use ceph_csi_operator.Prelude.{
  [], String, ◌≡◌, List, Option, if◌then◌else◌, some, Bool, ◌==◌, arith, false, refl, deref, true,
  none, ◌∙◌, ap, sym, not, Bool-cases, ◌⊎◌, inl, inr,
}

module _ (codec : Codec (List (Option CsiClusterInfoRecord))) where
  change_file-ok :
      (clean_up : Bool) (name : String) (entry : CsiClusterInfoRecord)
      (entries entries' : List (Option CsiClusterInfoRecord)) (config_map config_map' : ConfigMap)
      → update_entries clean_up name entry entries ≡ ok entries'
      → change_file codec clean_up name entry (ok entries) config_map ≡ (ok tt, config_map')
      → (text : String) × (codec.marshal entries' ≡ ok text)
        × (config_map' ≡ put_data config_key text config_map)
  unfolding change_file
  change_file-ok clean_up name entry entries entries' config_map config_map' e h = ground arith

-- The data of the config map after a write of one key.
data_at-put_data :
    (key j text : String) (config_map : ConfigMap)
    → data_at j (put_data key text config_map) ≡ (if key == j then text else data_at j config_map)
data_at-put_data key j text config_map =
    ground (arith, lookup-insert key j text (deref config_map.content []))

-- The list that the text of a config map holds, with no nil pointer in it.
abbrev pub Holds :
    Codec (List (Option CsiClusterInfoRecord)) → ConfigMap → List CsiClusterInfoRecord → Type 0
Holds codec config_map rs = parse_entries codec (data_at config_key config_map) ≡ ok (pointers rs)

-- The map after the callback: the text under "config.json" is that of the list, and every other key
-- has the text that it had.
pub record Written (codec : Codec (List (Option CsiClusterInfoRecord))) (old new : ConfigMap)
    (rs : List CsiClusterInfoRecord) : Type 0 where
  pub text : codec.marshal (pointers rs) ≡ ok (data_at config_key new)
  pub others :
      (key : String)
      → data_at key new ≡ (if config_key == key then data_at key new else data_at key old)

Written-of_put :
    (codec : Codec (List (Option CsiClusterInfoRecord))) (old new : ConfigMap)
    (rs : List CsiClusterInfoRecord) (text : String)
    → codec.marshal (pointers rs) ≡ ok text
    → new ≡ put_data config_key text (record old { metadata = new.metadata })
    → Written codec old new rs
Written-of_put codec old new rs text e h = record {
  text =
      e
      ∙ ap ok
          (sym (ap (data_at config_key) h ∙ data_at-put_data config_key config_key text stamped));
  others = λ key. elim (Bool-cases (config_key == key)) [
    | inl e ↦ rw e refl
    | inr e ↦ ap (data_at key) h ∙ data_at-put_data config_key key text stamped ∙ rw e refl
  ];
}
  where
    stamped : ConfigMap
    stamped = record old { metadata = new.metadata }

module _ {W : Type 0} (env : Env W) (s : State W) where
  -- The record of the profile that is reconciled.
  abbrev pub desired_record : CsiClusterInfoRecord
  desired_record = compose_csi_cluster_info_record s.client_profile s.ceph_conn (some s.replication)

  cluster_id-desired_record : desired_record.cluster_id ≡ s.client_profile.metadata.name
  unfolding compose_csi_cluster_info_record
  cluster_id-desired_record = refl

  mutate_config_map-ok :
      (old new : ConfigMap) (entries entries' : List (Option CsiClusterInfoRecord))
      → parse_entries env.codec (data_at config_key old) ≡ ok entries
      → update_entries s.clean_up s.client_profile.metadata.name desired_record entries
        ≡ ok entries'
      → mutate_config_map env s old ≡ (ok tt, new)
      → (text : String) × (env.codec.marshal entries' ≡ ok text)
        × (new ≡ put_data config_key text (record old { metadata = new.metadata }))
  unfolding mutate_config_map
  mutate_config_map-ok old new entries entries' parsed updated h =
      after
        (toggle_owner_reference env.util (not s.clean_up) s.client_profile.metadata old.metadata).0
        (toggle_owner_reference env.util (not s.clean_up) s.client_profile.metadata old.metadata).1
        h
    where
      after :
          (r : Result Bool) (m : ObjectMeta)
          → after_toggle env s r (record old { metadata = m }) ≡ (ok tt, new)
          → (text : String) × (env.codec.marshal entries' ≡ ok text)
            × (new ≡ put_data config_key text (record old { metadata = new.metadata }))
      after (ok changed) m e =
          let (text, marshalled, stored) =
            change_file-ok env.codec s.clean_up s.client_profile.metadata.name desired_record
              entries entries' (record old { metadata = m }) new updated
              (subst
                (λ p.
                  change_file env.codec s.clean_up s.client_profile.metadata.name desired_record p
                    (record old { metadata = m })
                  ≡ (ok tt, new))
                parsed e) in
          (
            text,
            marshalled,
            stored
                ∙ ap (λ x. put_data config_key text (record old { metadata = x }))
                    (sym (ap (λ x. x.metadata) stored)),
          )
      after (err x) m e = cc
      after panic m e = cc

  -- Where the profile is not deleted, the callback succeeds on a map whose text is a list of
  -- records only by writing a list in which the profile's name leads to its desired record and every
  -- other name to what it led to; names that were distinct stay distinct. The other keys of the map
  -- keep their text.
  pub mutate_config_map-upsert :
      (old new : ConfigMap) (rs : List CsiClusterInfoRecord)
      → s.clean_up ≡ false
      → Holds env.codec old rs
      → mutate_config_map env s old ≡ (ok tt, new)
      → (rs' : List CsiClusterInfoRecord) × Written env.codec old new rs'
        × ((k : String)
            → find_record k rs' ≡ (
                if s.client_profile.metadata.name == k
                then some desired_record
                else find_record k rs))
        × ((distinct (ids rs) ≡ false) ⊎ (distinct (ids rs') ≡ true))
  mutate_config_map-upsert old new rs live parsed h =
      let (rs', updated, found, kept) =
        update_entries-upsert s.client_profile.metadata.name desired_record rs
          cluster_id-desired_record in
      let (text, marshalled, stored) =
        mutate_config_map-ok old new (pointers rs) (pointers rs') parsed
          (ap (λ b. update_entries b s.client_profile.metadata.name desired_record (pointers rs))
              live
            ∙ updated)
          h in
      (
        rs',
        Written-of_put env.codec old new rs' text marshalled stored,
        found,
        elim (Bool-cases (distinct (ids rs))) [ inl e ↦ inr (kept e) | inr e ↦ inl e ],
      )

  -- Where the profile is deleted, and no name stands twice in the list of the map, the callback
  -- succeeds only by writing a list in which the profile's name leads nowhere and every other name
  -- to what it led to. The other keys of the map keep their text.
  pub mutate_config_map-delete :
      (old new : ConfigMap) (rs : List CsiClusterInfoRecord)
      → s.clean_up ≡ true
      → Holds env.codec old rs
      → distinct (ids rs) ≡ true
      → mutate_config_map env s old ≡ (ok tt, new)
      → (rs' : List CsiClusterInfoRecord) × Written env.codec old new rs'
        × ((k : String)
            → find_record k rs'
              ≡ (if s.client_profile.metadata.name == k then none else find_record k rs))
        × (distinct (ids rs') ≡ true)
  mutate_config_map-delete old new rs deleted parsed unique h =
      let (rs', updated, found, kept) =
        update_entries-delete s.client_profile.metadata.name desired_record rs unique in
      let (text, marshalled, stored) =
        mutate_config_map-ok old new (pointers rs) (pointers rs') parsed
          (ap (λ b. update_entries b s.client_profile.metadata.name desired_record (pointers rs))
              deleted
            ∙ updated)
          h in
      (rs', Written-of_put env.codec old new rs' text marshalled stored, found, kept)
