-- ===== src/Driver/Pods/Mounts.antt =====
-- internal/controller/driver_controller.go: when the mounts of a pod's containers name volumes of the pod.
use ceph_csi_operator.Api.Driver.{Foreign, Given, VolumeSpec, LogRotationSpec}
use ceph_csi_operator.Driver.Pods.{
  appended, with_user_volumes, with_user_mounts, volume_key, user_mount, user_volume, mount_key,
  kms_volumes, log_volumes,
}
use ceph_csi_operator.Prelude.Keyed.{mem_key, find_by}
use ceph_csi_operator.Driver.State.{Env}
use ceph_csi_operator.Utils.Merge.Laws.{taken}
use ceph_csi_operator.Utils.Merge.Keys.{takes, mem_key-merge}
use ceph_csi_operator.Utils.Csi.Volumes.{
  Volume, kms_config_volume_name, logs_dir_volume_name, log_rotate_dir_volume_name,
}
use ceph_csi_operator.Utils.Csi.Mounts.{VolumeMount}
use ceph_csi_operator.Api.Pods.{Container}
use ceph_csi_operator.Prelude.{
  Bool, String, true, false, Option, none, some, List, [], ◌∷◌, ◌++◌, ◌==◌, ◌&&◌, deref, is_some,
  any_of, arith, map, All, refl, eq_iff, eq_refl, ◌≡◌, Bool-cases, inl, inr, ap, All-append,
}

module _ {ℓ} {A : Type ℓ} (key : A → String) where
  -- Every item's key is among the keys.
  abbrev pub KeysIn : List String → List A → Type 0
  KeysIn ks xs = All (λ x. mem_key (key x) ks ≡ true) xs

  abbrev pub all_in : List String → List A → Bool
  all_in ks [] = true
  all_in ks (x ∷ xs) = mem_key (key x) ks && all_in ks xs

  pub all_in-KeysIn : (ks : List String) (xs : List A) → all_in ks xs ≡ true → KeysIn ks xs
  all_in-KeysIn ks [] h = tt
  all_in-KeysIn ks (x ∷ xs) h = (ground (arith, h), all_in-KeysIn ks xs (ground (arith, h)))

  pub mem_key-left :
      (k : String) (xs ys : List A)
      → mem_key k (map key xs) ≡ true
      → mem_key k (map key (xs ++ ys)) ≡ true
  mem_key-left k [] ys h = ground arith
  mem_key-left k (x ∷ xs) ys h = ground (arith, mem_key-left k xs ys)

  pub mem_key-right :
      (k : String) (xs ys : List A)
      → mem_key k (map key ys) ≡ true
      → mem_key k (map key (xs ++ ys)) ≡ true
  mem_key-right k [] ys h = h
  mem_key-right k (x ∷ xs) ys h = ground (arith, mem_key-right k xs ys)

  KeysIn-mono :
      (ks js : List String) (xs : List A)
      → ((k : String) → mem_key k ks ≡ true → mem_key k js ≡ true)
      → KeysIn ks xs
      → KeysIn js xs
  KeysIn-mono ks js [] sub h = tt
  KeysIn-mono ks js (x ∷ xs) sub h = (sub (key x) h.0, KeysIn-mono ks js xs sub h.1)

  -- Of a key of the items, the membership in other keys
  KeysIn-mem :
      (ks : List String) (xs : List A) (k : String)
      → KeysIn ks xs
      → mem_key k (map key xs) ≡ true
      → mem_key k ks ≡ true
  KeysIn-mem ks [] k h m = ground arith
  KeysIn-mem ks (x ∷ xs) k h m = ground (arith, h, m, KeysIn-mem ks xs k h.1, eq_iff (key x) k)

  KeysIn-of_mem :
      (ks : List String) (xs : List A)
      → ((k : String) → mem_key k (map key xs) ≡ true → mem_key k ks ≡ true)
      → KeysIn ks xs
  KeysIn-of_mem ks [] h = tt
  KeysIn-of_mem ks (x ∷ xs) h =
      (h (key x) (rw (eq_refl (key x)) refl), KeysIn-of_mem ks xs (λ k m. h k (ground (arith, m))))

-- A predicate of an item that is appended has to hold only under the condition.
pub All-appended {ℓ} :
    {A : Type ℓ} (P : A → Type 0) (xs : List A) (cond : Bool) (x : A)
    → All P xs
    → (cond ≡ true → P x)
    → All P (xs ++ appended cond (x ∷ []))
All-appended P xs true x hs h = All-append P xs (x ∷ []) hs (h refl, tt)
All-appended P xs false x hs h = All-append P xs [] hs tt

pub All-under {ℓ} :
    {A : Type ℓ} (P : A → Type 0) (cond : Bool) (xs : List A)
    → (cond ≡ true → All P xs)
    → All P (appended cond xs)
All-under P true xs h = h refl
All-under P false xs h = tt

pub mem_key-appended {ℓ} :
    {A : Type ℓ} (key : A → String) (k : String) (cond : Bool) (xs : List A)
    → cond ≡ true
    → mem_key k (map key xs) ≡ true
    → mem_key k (map key (appended cond xs)) ≡ true
mem_key-appended key k cond xs e h = rw e h

module _ {W : Type 0} {F : Foreign} (env : Env W F) where
  -- The user's mount names the user's volume.
  abbrev pub IsPaired : VolumeSpec F → Type 0
  IsPaired v = env.mount_name v.mount ≡ env.volume_name v.volume

  abbrev pub keys_of : List (Given Volume F.volume) → List String
  keys_of volumes = map (volume_key env) volumes

  -- Every mount of every container names one of the volumes.
  abbrev pub MountsIn : List (Given Volume F.volume) → List (Container F) → Type 0
  MountsIn volumes containers =
      All (λ c. KeysIn (mount_key env) (keys_of volumes) c.volume_mounts) containers

  pub kms_volumes-in :
      (config_map : Option String)
      → is_some config_map ≡ true
      → mem_key kms_config_volume_name (keys_of (kms_volumes config_map)) ≡ true
  kms_volumes-in none h = h
  kms_volumes-in (some config_map) h = refl

  -- The names of the two volumes of the logs
  pub log_volumes-in :
      (rotation : Option (LogRotationSpec F)) (plugin driver_name : String)
      → is_some rotation ≡ true
      → (mem_key logs_dir_volume_name (keys_of (log_volumes rotation plugin driver_name)) ≡ true)
        × (mem_key log_rotate_dir_volume_name (keys_of (log_volumes rotation plugin driver_name))
            ≡ true)
  log_volumes-in none plugin driver_name h = (h, h)
  log_volumes-in (some rotation) plugin driver_name h = (refl, refl)

  takes-paired :
      (k : String) (v : VolumeSpec F)
      → IsPaired v
      → takes (user_mount env) (mount_key env) k v ≡ takes (user_volume env) (volume_key env) k v
  unfolding taken
  takes-paired k v h = elim (Bool-cases (env.volume_name v.volume == "")) [
    | inl e ↦ rw (h, e) refl
    | inr e ↦ rw (h, e) (ap (λ n. n == k) h)
  ]

  any_of-paired :
      (k : String) (user : List (VolumeSpec F))
      → All IsPaired user
      → any_of (takes (user_mount env) (mount_key env) k) user
        ≡ any_of (takes (user_volume env) (volume_key env) k) user
  any_of-paired k [] h = refl
  any_of-paired k (v ∷ user) h = rw (takes-paired k v h.0, any_of-paired k user h.1) refl

  -- A name of the built-in volumes stays a name.
  pub with_user_volumes-kept :
      (k : String) (volumes : List (Given Volume F.volume)) (user : Option (List (VolumeSpec F)))
      → mem_key k (keys_of volumes) ≡ true
      → mem_key k (keys_of (with_user_volumes env volumes user)) ≡ true
  unfolding with_user_volumes
  with_user_volumes-kept k volumes user h =
      ground (arith, h, mem_key-merge (user_volume env) (volume_key env) k volumes (deref user []))

  -- The mounts with the user's name volumes with the user's, where those without do.
  pub with_user_mounts-KeysIn :
      (volumes : List (Given Volume F.volume)) (mounts : List (Given VolumeMount F.volume_mount))
      (user : Option (List (VolumeSpec F)))
      → KeysIn (mount_key env) (keys_of volumes) mounts
      → All IsPaired (deref user [])
      → KeysIn
          (mount_key env)
          (keys_of (with_user_volumes env volumes user))
          (with_user_mounts env mounts user)
  unfolding with_user_volumes with_user_mounts
  with_user_mounts-KeysIn volumes mounts user h paired = KeysIn-of_mem (mount_key env) _ _ λ k m.
      ground (
        arith,
        m,
        mem_key-merge (user_mount env) (mount_key env) k mounts (deref user []),
        mem_key-merge (user_volume env) (volume_key env) k volumes (deref user []),
        any_of-paired k (deref user []) paired,
        KeysIn-mem (mount_key env) (keys_of volumes) mounts k h,
      )

  -- Mounts of built-in volumes stay mounts of volumes.
  pub KeysIn-kept :
      (volumes : List (Given Volume F.volume)) (user : Option (List (VolumeSpec F)))
      (mounts : List (Given VolumeMount F.volume_mount))
      → KeysIn (mount_key env) (keys_of volumes) mounts
      → KeysIn (mount_key env) (keys_of (with_user_volumes env volumes user)) mounts
  KeysIn-kept volumes user mounts h =
      KeysIn-mono (mount_key env) (keys_of volumes) (keys_of (with_user_volumes env volumes user))
        mounts (λ k. with_user_volumes-kept k volumes user) h

  -- The user's volume that a search by name finds is taken over, and its mount has the name.
  pub find_by-paired :
      (k : String) (user : List (VolumeSpec F)) (v : VolumeSpec F)
      → (k == "") ≡ false
      → All IsPaired user
      → find_by (λ vol. env.volume_name vol.volume) k user ≡ some v
      → (any_of (takes (user_volume env) (volume_key env) k) user ≡ true)
        × (env.mount_name v.mount ≡ k)
  unfolding taken
  find_by-paired k [] v key h e = ground arith
  find_by-paired k (x ∷ user) v key h e = ground (
    arith,
    h.0,
    find_by-paired k user v key h.1,
    eq_iff (env.volume_name x.volume) k,
    eq_iff (env.volume_name x.volume) "",
  )
