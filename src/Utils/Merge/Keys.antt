-- ===== src/Utils/Merge/Keys.antt =====
-- What `MapMergeByKey` does to the keys, and to the items that they lead to.
use ceph_csi_operator.Prelude.{
  String, Bool, true, false, ◌≡◌, refl, Option, none, some, List, [], ◌∷◌, ◌==◌, ◌||◌,
  if◌then◌else◌, map, arith, eq_iff, is_some, any_of, ptr_or,
}
use ceph_csi_operator.Prelude.Keyed.{mem_key, distinct}
use ceph_csi_operator.Utils.Merge.{map_merge_by_key}
use ceph_csi_operator.Utils.Merge.Laws.{upsert, taken, put, merge_spec, map_merge_by_key-spec}

module _ {ℓ κ} {S : Type ℓ} {D : Type κ} (transform : S → D × Bool) (get_key : D → String) where
  abbrev pub has_key : String → Option D → Bool
  has_key k none = false
  has_key k (some d) = get_key d == k

  -- The merge takes an item over under the key.
  abbrev pub takes : String → S → Bool
  takes k s = has_key k (taken transform get_key s)

  -- The last item with the key.
  pub last_with : String → List D → Option D
  last_with k [] = none
  last_with k (d ∷ dest) = ptr_or (last_with k dest) (if get_key d == k then some d else none)

  pub last_taken : String → List S → Option D
  last_taken k [] = none
  last_taken k (s ∷ src) =
      ptr_or (last_taken k src) (if takes k s then taken transform get_key s else none)

  last_with-none :
      (k : String) (dest : List D) → mem_key k (map get_key dest) ≡ is_some (last_with k dest)
  unfolding last_with
  last_with-none k [] = refl
  last_with-none k (d ∷ dest) = ground (arith, last_with-none k dest)

  mem_key-upsert :
      (k : String) (d : D) (dest : List D)
      → mem_key k (map get_key (upsert transform get_key d dest))
        ≡ (get_key d == k || mem_key k (map get_key dest))
  unfolding upsert
  mem_key-upsert k d [] = ground arith
  mem_key-upsert k d (x ∷ dest) = ground (
    arith,
    mem_key-upsert k d dest,
    eq_iff (get_key x) (get_key d),
    eq_iff (get_key x) k,
    eq_iff (get_key d) k,
  )

  last_with-upsert :
      (k : String) (d : D) (dest : List D)
      → last_with k (upsert transform get_key d dest)
        ≡ (if get_key d == k then some d else last_with k dest)
  unfolding upsert last_with
  last_with-upsert k d [] = ground arith
  last_with-upsert k d (x ∷ dest) = ground (
    arith,
    last_with-upsert k d dest,
    last_with-none k dest,
    eq_iff (get_key x) (get_key d),
    eq_iff (get_key x) k,
    eq_iff (get_key d) k,
  )

  distinct-upsert :
      (d : D) (dest : List D)
      → distinct (map get_key dest) ≡ true
      → distinct (map get_key (upsert transform get_key d dest)) ≡ true
  unfolding upsert
  distinct-upsert d [] h = refl
  distinct-upsert d (x ∷ dest) h = ground (
    arith,
    distinct-upsert d dest,
    mem_key-upsert (get_key x) d dest,
    eq_iff (get_key x) (get_key d),
    eq_iff (get_key d) (get_key x),
  )

  mem_key-put :
      (k : String) (o : Option D) (dest : List D)
      → mem_key k (map get_key (put transform get_key o dest))
        ≡ (has_key k o || mem_key k (map get_key dest))
  unfolding put
  mem_key-put k none dest = refl
  mem_key-put k (some d) dest = mem_key-upsert k d dest

  last_with-put :
      (k : String) (o : Option D) (dest : List D)
      → last_with k (put transform get_key o dest) ≡ (if has_key k o then o else last_with k dest)
  unfolding put
  last_with-put k none dest = refl
  last_with-put k (some d) dest = last_with-upsert k d dest

  distinct-put :
      (o : Option D) (dest : List D)
      → distinct (map get_key dest) ≡ true
      → distinct (map get_key (put transform get_key o dest)) ≡ true
  unfolding put
  distinct-put none dest h = h
  distinct-put (some d) dest h = distinct-upsert d dest h

  module _ (k : String) where
    mem_key-spec :
        (dest : List D) (src : List S)
        → mem_key k (map get_key (merge_spec transform get_key dest src))
          ≡ (any_of (takes k) src || mem_key k (map get_key dest))
    unfolding merge_spec
    mem_key-spec dest [] = refl
    mem_key-spec dest (s ∷ src) = ground (
      arith,
      mem_key-spec (put transform get_key (taken transform get_key s) dest) src,
      mem_key-put k (taken transform get_key s) dest,
    )

    last_with-spec :
        (dest : List D) (src : List S)
        → last_with k (merge_spec transform get_key dest src)
          ≡ ptr_or (last_taken k src) (last_with k dest)
    unfolding merge_spec last_taken
    last_with-spec dest [] = refl
    last_with-spec dest (s ∷ src) = ground (
      arith,
      last_with-spec (put transform get_key (taken transform get_key s) dest) src,
      last_with-put k (taken transform get_key s) dest,
    )

  distinct-spec :
      (dest : List D) (src : List S)
      → distinct (map get_key dest) ≡ true
      → distinct (map get_key (merge_spec transform get_key dest src)) ≡ true
  unfolding merge_spec
  distinct-spec dest [] h = h
  distinct-spec dest (s ∷ src) h =
      distinct-spec (put transform get_key (taken transform get_key s) dest) src
        (distinct-put (taken transform get_key s) dest h)

  -- A key is in the result exactly if it is in the destination or an item is taken over under it.
  pub mem_key-merge :
      (k : String) (dest : List D) (src : List S)
      → mem_key k (map get_key (map_merge_by_key transform get_key dest src))
        ≡ (any_of (takes k) src || mem_key k (map get_key dest))
  mem_key-merge k dest src =
      rw (map_merge_by_key-spec transform get_key dest src) (mem_key-spec k dest src)

  -- The last item of the result with a key is the last one taken over under it, and the
  -- destination's last one with the key where none is.
  pub last_with-merge :
      (k : String) (dest : List D) (src : List S)
      → last_with k (map_merge_by_key transform get_key dest src)
        ≡ ptr_or (last_taken k src) (last_with k dest)
  last_with-merge k dest src =
      rw (map_merge_by_key-spec transform get_key dest src) (last_with-spec k dest src)

  -- Where no key stands twice in the destination, none stands twice in the result.
  pub distinct-merge :
      (dest : List D) (src : List S)
      → distinct (map get_key dest) ≡ true
      → distinct (map get_key (map_merge_by_key transform get_key dest src)) ≡ true
  distinct-merge dest src h =
      rw (map_merge_by_key-spec transform get_key dest src) (distinct-spec dest src h)
