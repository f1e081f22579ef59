-- ===== src/Mapping/Refines.antt =====
-- The scan, with its index and its set of seen pairs, against the grouping.
use ceph_csi_operator.Mapping.Groups.Laws.{
  position-concat, pools_of-concat, add_group-found, same_key_refl, add_group-absent,
}
use ceph_csi_operator.Mapping.Groups.{
  Group, position, two_items, render, new_group, put_group, add_pairs, add_group, all_mappings,
  Entry, Says, group_all,
}
use ceph_csi_operator.Prelude.{
  List, ◌≡◌, String, [], some, map, get_elem?, none, ◌++◌, ◌∷◌, length, refl, Option-cases, ap, inl,
  ◌∙◌, inr, sym,
}
use ceph_csi_operator.Api.Profile.{MappingsSpec, ClientProfileMapping}
use ceph_csi_operator.Prelude.Result.{ok, ◌>>◌, resume_cong, resume_assoc}
use mathlib.Core.Path.{subst}
use ceph_csi_operator.Mapping.Extend.{
  no_scan-Inv, Inv, ensure_record-Inv, extend_record-Inv, pools_of_absent,
}
use ceph_csi_operator.Mapping.{
  extend_record, ensure_record, Scan, no_scan, key_of, add_mapping, scan_mappings, scan_items,
}

-- One iteration adds the pairs of a mapping to the group of its key.
pub add_mapping-Inv :
    (mapping : MappingsSpec) (pairs : List (String × String)) (s : Scan) (groups : List Group)
    → two_items mapping.block_pool_id_mapping ≡ some pairs
    → Inv s groups
    → (s' : Scan) × (add_mapping mapping s ≡ (ok tt, s'))
      × Inv s' (add_group (key_of mapping) pairs groups)
unfolding add_mapping ensure_record
add_mapping-Inv mapping pairs s groups t inv =
    elim (Option-cases (position (key_of mapping) groups)) [
      | inl n ↦
          let key = key_of mapping in
          let (inv1, l) = ensure_record-Inv key s groups inv n in
          let s1 = (ensure_record key none s).1 in
          let at = position-concat key key groups n ∙ rw (same_key_refl key) refl in
          let (s', e, inv') =
            extend_record-Inv mapping pairs s1 (groups ++ new_group key ∷ []) (length groups) t inv1
              at in
          (
            s',
            rw (inv.index key ∙ n) (
                ap (λ i. extend_record mapping i (get_elem? s1.csi_cluster_mappings_list i) s1) l
                ∙ e),
            subst (Inv s')
                (ap (λ z. put_group key (add_pairs z pairs) (groups ++ new_group key ∷ []))
                    (pools_of-concat key key groups ∙ pools_of_absent key groups n)
                  ∙ sym (add_group-absent key pairs groups n))
                inv',
          )
      | inr (i, n) ↦
          let (s', e, inv') = extend_record-Inv mapping pairs s groups i t inv n in
          (
            s',
            rw (inv.index (key_of mapping) ∙ n) e,
            subst (Inv s') (sym (add_group-found (key_of mapping) pairs groups i n)) inv',
          )
    ]

pub scan_mappings-Inv :
    (mappings : List MappingsSpec) (entries : List Entry) (s : Scan) (groups : List Group)
    → Says mappings entries
    → Inv s groups
    → (s' : Scan) × (scan_mappings mappings s ≡ (ok tt, s')) × Inv s' (group_all entries groups)
unfolding scan_mappings
scan_mappings-Inv [] [] s groups h inv = (s, refl, inv)
scan_mappings-Inv (m ∷ mappings) (e ∷ entries) s groups (key, two, says) inv =
    let (s1, p, inv1) = add_mapping-Inv m e.pairs s groups two inv in
    let (s', q, inv') =
      scan_mappings-Inv mappings entries s1 (add_group e.key e.pairs groups) says
        (subst (λ z. Inv s1 (add_group z e.pairs groups)) key inv1) in
    (s', rw p q, inv')
scan_mappings-Inv [] (e ∷ entries) s groups h inv = absurd h
scan_mappings-Inv (m ∷ mappings) [] s groups h inv = absurd h

scan_mappings-append :
    (xs ys : List MappingsSpec) (s : Scan)
    → scan_mappings (xs ++ ys) s ≡ (scan_mappings xs >> scan_mappings ys) s
unfolding scan_mappings
scan_mappings-append [] ys s = refl
scan_mappings-append (x ∷ xs) ys s =
    let r = add_mapping x s in
    resume_cong r.0 (scan_mappings (xs ++ ys)) (scan_mappings xs >> scan_mappings ys) r.1
      (scan_mappings-append xs ys)
    ∙ sym (resume_assoc r.0 (scan_mappings xs) (scan_mappings ys) r.1)

scan_items_lem :
    (items : List ClientProfileMapping) (s : Scan)
    → scan_items items s ≡ scan_mappings (all_mappings items) s
unfolding scan_items scan_mappings
scan_items_lem [] s = refl
scan_items_lem (item ∷ items) s =
    let r = scan_mappings item.mappings s in
    resume_cong r.0 (scan_items items) (scan_mappings (all_mappings items)) r.1
      (scan_items_lem items)
    ∙ sym (scan_mappings-append item.mappings (all_mappings items) s)

-- The records of the scan of all items are the groups of their mappings.
pub scan_items-groups :
    (items : List ClientProfileMapping) (entries : List Entry)
    → Says (all_mappings items) entries
    → (s' : Scan) × (scan_items items no_scan ≡ (ok tt, s'))
      × (s'.csi_cluster_mappings_list ≡ map render (group_all entries []))
scan_items-groups items entries h =
    let (s', p, inv) = scan_mappings-Inv (all_mappings items) entries no_scan [] h no_scan-Inv in
    (s', scan_items_lem items no_scan ∙ p, inv.records)
