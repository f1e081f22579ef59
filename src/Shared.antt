-- ===== src/Shared.antt =====
-- The config map `ceph-csi-config`, which three controllers write: the callbacks of
-- internal/controller/clientprofile_controller.go, clientprofilemapping_controller.go and
-- driver_controller.go on it, one after another in any order.
use ceph_csi_operator.Profile.State.{Env as ProfileEnv, State as ProfileState}
use ceph_csi_operator.Mapping.Config.{
  Env as MappingEnv, State as MappingState, mutate_mapping, mapping_key,
}
use ceph_csi_operator.Driver.State.{Env as DriverEnv}
use ceph_csi_operator.Api.Driver.{Foreign, Driver}
use ceph_csi_operator.Profile.ConfigFile.{mutate_config_map, config_key}
use ceph_csi_operator.Api.Meta.{ConfigMap}
use ceph_csi_operator.Profile.ConfigFile.Frame.{entry_of, mutate_config_map-kept}
use ceph_csi_operator.Driver.LogRotate.{own_config_map}
use ceph_csi_operator.Mapping.Config.Frame.{mutate_mapping-kept}
use ceph_csi_operator.Prelude.{Bool, true, false, List, [], ◌∷◌, ◌≡◌, refl, All, ◌∙◌, arith}

-- A write of the config map, with the receiver that the callback reads
pub data Writer (W : Type 0) (F : Foreign) : Type 0 where
  by_profile : ProfileState W → Writer W F
  by_mapping : MappingState W → Writer W F
  by_driver : Driver F → Writer W F

abbrev pub is_by_profile : {W : Type 0} {F : Foreign} → Writer W F → Bool
is_by_profile (by_profile s) = true
is_by_profile _ = false

abbrev pub is_by_mapping : {W : Type 0} {F : Foreign} → Writer W F → Bool
is_by_mapping (by_mapping s) = true
is_by_mapping _ = false

module _ {W : Type 0} {F : Foreign} (profile_env : ProfileEnv W) (mapping_env : MappingEnv W)
    (driver_env : DriverEnv W F) where
  unfoldable pub write : Writer W F → ConfigMap → ConfigMap
  unfolding mutate_config_map mutate_mapping own_config_map
  write (by_profile s) config_map = (mutate_config_map profile_env s config_map).1
  write (by_mapping s) config_map = (mutate_mapping mapping_env s config_map).1
  write (by_driver driver) config_map = (own_config_map driver_env driver config_map).1

  unfoldable pub write_all : List (Writer W F) → ConfigMap → ConfigMap
  unfolding write
  write_all [] config_map = config_map
  write_all (w ∷ writers) config_map = write_all writers (write w config_map)

  write-profiles :
      (w : Writer W F) (config_map : ConfigMap)
      → is_by_profile w ≡ false
      → entry_of config_key (write w config_map) ≡ entry_of config_key config_map
  unfolding write
  write-profiles (by_profile s) config_map h = ground (arith, h)
  write-profiles (by_mapping s) config_map h =
      mutate_mapping-kept mapping_env config_key refl s config_map
  write-profiles (by_driver driver) config_map h = refl

  write-mappings :
      (w : Writer W F) (config_map : ConfigMap)
      → is_by_mapping w ≡ false
      → entry_of mapping_key (write w config_map) ≡ entry_of mapping_key config_map
  unfolding write
  write-mappings (by_mapping s) config_map h = ground (arith, h)
  write-mappings (by_profile s) config_map h =
      mutate_config_map-kept profile_env mapping_key refl s config_map
  write-mappings (by_driver driver) config_map h = refl

  -- In any sequence of writes by mappings and drivers, failed ones included, the records of the profiles
  -- stay as they are.
  pub write_all-profiles :
      (writers : List (Writer W F)) (config_map : ConfigMap)
      → All (λ w. is_by_profile w ≡ false) writers
      → entry_of config_key (write_all writers config_map) ≡ entry_of config_key config_map
  unfolding write_all
  write_all-profiles [] config_map h = refl
  write_all-profiles (w ∷ writers) config_map h =
      write_all-profiles writers (write w config_map) h.1 ∙ write-profiles w config_map h.0

  -- In any sequence of writes by profiles and drivers, failed ones included, the mapping stays as it is.
  pub write_all-mappings :
      (writers : List (Writer W F)) (config_map : ConfigMap)
      → All (λ w. is_by_mapping w ≡ false) writers
      → entry_of mapping_key (write_all writers config_map) ≡ entry_of mapping_key config_map
  unfolding write_all
  write_all-mappings [] config_map h = refl
  write_all-mappings (w ∷ writers) config_map h =
      write_all-mappings writers (write w config_map) h.1 ∙ write-mappings w config_map h.0
