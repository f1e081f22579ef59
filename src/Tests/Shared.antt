-- ===== src/Tests/Shared.antt =====
-- The config map that three controllers write, at concrete inputs.
use ceph_csi_operator.Shared.{
  Writer, by_profile, by_mapping, by_driver, write_all, write_all-profiles, write_all-mappings,
}
use ceph_csi_operator.Tests.Profile.{live_env, live}
use ceph_csi_operator.Tests.Mapping.{test_env, test_state}
use ceph_csi_operator.Tests.DriverData.{plain_env, test_driver, test_types}
use ceph_csi_operator.Tests.Data.{no_config_map}
use ceph_csi_operator.Profile.ConfigFile.{config_key}
use ceph_csi_operator.Profile.ConfigFile.Frame.{entry_of}
use ceph_csi_operator.Mapping.Config.{mapping_key}
use ceph_csi_operator.Api.Meta.{ConfigMap}
use ceph_csi_operator.Prelude.{ℕ, List, [], ◌∷◌, ◌≡◌, refl}

-- The config map behind the write of a profile
abbrev with_profile : ConfigMap
with_profile = write_all live_env test_env plain_env (by_profile live ∷ []) no_config_map

abbrev not_by_profiles : List (Writer ℕ test_types)
not_by_profiles = by_mapping test_state ∷ by_driver test_driver ∷ by_mapping test_state ∷ []

abbrev not_by_mappings : List (Writer ℕ test_types)
not_by_mappings = by_profile live ∷ by_driver test_driver ∷ by_profile live ∷ []

write_all-profiles_example :
    entry_of config_key (write_all live_env test_env plain_env not_by_profiles with_profile)
    ≡ entry_of config_key with_profile
write_all-profiles_example =
    write_all-profiles live_env test_env plain_env not_by_profiles with_profile
      (refl, (refl, (refl, tt)))

-- The config map behind the write of a mapping
abbrev with_mapping : ConfigMap
with_mapping = write_all live_env test_env plain_env (by_mapping test_state ∷ []) no_config_map

write_all-mappings_example :
    entry_of mapping_key (write_all live_env test_env plain_env not_by_mappings with_mapping)
    ≡ entry_of mapping_key with_mapping
write_all-mappings_example =
    write_all-mappings live_env test_env plain_env not_by_mappings with_mapping
      (refl, (refl, (refl, tt)))
