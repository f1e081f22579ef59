-- ===== src/Tests/Mapping.antt =====
-- The ClientProfileMapping controller at concrete inputs.
use ceph_csi_operator.Api.Profile.{ClientProfileMapping, BlockPoolIdPair, MappingsSpec}
use ceph_csi_operator.Api.Meta.{ObjectMeta, named}
use ceph_csi_operator.Mapping.{Scan, scan_items, no_scan, MappingKey, same_key}
use ceph_csi_operator.Prelude.{List, ℕ, ◌≡◌, ◌∷◌, [], refl, map, true, String, any_of, ◌&&◌}
use ceph_csi_operator.Mapping.Groups.{
  two_items, Says, Group, Entry, all_mappings, render, has_pair, pools_of,
}
use ceph_csi_operator.Tests.Data.{no_config_map, meta_of, store_of, reference_to, test_util}
use ceph_csi_operator.Prelude.Result.{ok}
use ceph_csi_operator.Profile.ConfigFile.{put_data}
use ceph_csi_operator.Mapping.Config.Laws.{mutate_mapping-written}
use ceph_csi_operator.Mapping.Content.{distinct_groups, scan_items-content}
use ceph_csi_operator.Mapping.Config.{Env, State, own, find_owner, mutate_mapping, mapping_key}

abbrev blue_red : List BlockPoolIdPair → MappingsSpec
blue_red pairs = record {
  local_client_profile = "blue";
  remote_client_profile = "red";
  block_pool_id_mapping = pairs;
}

abbrev test_item : ClientProfileMapping
test_item = record {
  metadata = meta_of "mapping" "3";
  mappings =
      blue_red (("1" ∷ "2" ∷ []) ∷ ("1" ∷ "2" ∷ []) ∷ []) ∷ blue_red (("3" ∷ "4" ∷ []) ∷ []) ∷ [];
}

abbrev test_entries : List Entry
test_entries =
    record { key = record { local = "blue"; remote = "red" }; pairs = ("1", "2") ∷ ("1", "2") ∷ [] }
    ∷ record { key = record { local = "blue"; remote = "red" }; pairs = ("3", "4") ∷ [] }
    ∷ []

says : Says (all_mappings (test_item ∷ [])) test_entries
unfolding two_items
says = (refl, refl, (refl, refl, tt))

scan_items-content_example :
    (scan : Scan) × (groups : List Group) × (scan_items (test_item ∷ []) no_scan ≡ (ok tt, scan))
    × (scan.csi_cluster_mappings_list ≡ map render groups)
    × (distinct_groups groups ≡ true)
    × ((k : MappingKey) (p : String × String)
        → has_pair p (pools_of k groups)
          ≡ any_of (λ e. same_key e.key k && has_pair p e.pairs) test_entries)
scan_items-content_example = scan_items-content (test_item ∷ []) test_entries says

abbrev pub test_env : Env ℕ
test_env = record {
  mappings = store_of test_item (test_item ∷ []);
  config_maps = store_of no_config_map [];
  util = test_util;
  codec = record { marshal = λ records. ok "records"; unmarshal = λ text. ok [] };
}

abbrev pub test_state : State ℕ
test_state = record {
  req = record { name = "mapping"; namespace = "storage" };
  items = test_item ∷ [];
  world = 0;
}

abbrev owned_map : ObjectMeta
owned_map = record (named "ceph-csi-config" "storage") {
  owner_references = reference_to (meta_of "mapping" "3") ∷ [];
}

owned-ok :
    own test_env (find_owner test_state.req test_state.items) no_config_map.metadata
    ≡ (ok tt, owned_map)
unfolding own find_owner
owned-ok = refl

mutate_mapping-written_example :
    mutate_mapping test_env test_state no_config_map
    ≡ (ok tt, put_data mapping_key "records" (record no_config_map { metadata = owned_map }))
mutate_mapping-written_example =
    mutate_mapping-written test_env test_state no_config_map test_entries "records" owned_map says
      owned-ok refl
