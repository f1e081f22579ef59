-- ===== src/Tests/Utils.antt =====
-- The helpers of internal/utils at concrete inputs.
use ceph_csi_operator.Utils.Csi.Mounts.{plugin_dir_volume_mount}
use ceph_csi_operator.Prelude.{
  eq_refl, String, List, Bool, ◌∷◌, ◌≡◌, map, any_of, true, if◌then◌else◌, [], ptr_or, ◌==◌, refl,
  not, ap, ◌⊎◌, false, Bool-cases, inl, inr, Option, ℕ, none, some, suc, length,
}
use ceph_csi_operator.Utils.Meta.{is_owned_by, toggle_owner_reference, changed_by}
use ceph_csi_operator.Prelude.Assoc.{Assoc}
use ceph_csi_operator.Utils.Core.{map_to_string}
use ceph_csi_operator.Utils.Merge.{map_merge_by_key}
use ceph_csi_operator.Utils.Csi.Args.{
  kubelet_registration_path_container_arg, endpoint_container_arg,
}
use ceph_csi_operator.Utils.Merge.Keys.{last_with, last_taken, last_with-merge}
use ceph_csi_operator.Api.Meta.{ObjectMeta, OwnerReference}
use ceph_csi_operator.Tests.Data.{meta_of, reference_to, test_util, without}
use ceph_csi_operator.Utils.Meta.Ownership.{OwnerReferenceLaws, toggle_owner_reference_lem}
use ceph_csi_operator.Prelude.Result.{Result, ok, err, panic, Error, other}
use ceph_csi_operator.Prelude.Text.{join, ◌<>◌}
use ceph_csi_operator.Utils.Merge.Laws.{merge_spec, map_merge_by_key-spec}
use mathlib.Core.Path.{subst}
use ceph_csi_operator.Utils.Csi.Volumes.{plugin_dir_volume}
use ceph_csi_operator.Utils.Core.Laws.{entry, map_to_string-join}
use ceph_csi_operator.Utils.Concurrent.{run, run_concurrently, Task, running, returned}
use ceph_csi_operator.Utils.Concurrent.Channel.{
  Machine, Move, start_next, go_on, close_channel, begin, moves, move, start, goroutine, after_go,
  after_effect,
}
use ceph_csi_operator.Utils.Concurrent.Channel.Stuck.{blocked-ended}
use ceph_csi_operator.Utils.Concurrent.Channel.Ends.{Ends}
use ceph_csi_operator.Utils.Concurrent.Channel.Refines.{moves-run, pool_of}
use ceph_csi_operator.Utils.Csi.Paths.{host_dir, registration_path-plugin_dir}

without-owned :
    (owner : ObjectMeta) (refs : List OwnerReference)
    → any_of (λ ref. owner.uid == ref.uid) (without owner.uid refs) ≡ false
without-owned owner [] = refl
without-owned owner (ref ∷ refs) = elim (Bool-cases (owner.uid == ref.uid)) [
  | inl e ↦ rw e (without-owned owner refs)
  | inr e ↦ rw e (rw e (without-owned owner refs))
]

value_or : ObjectMeta → Result ObjectMeta → ObjectMeta
value_or m (ok a) = a
value_or m (err e) = m
value_or m panic = m

test_laws : OwnerReferenceLaws test_util
unfolding is_owned_by value_or
test_laws = record {
  set = λ owner obj obj' h.
      subst (λ z. any_of (λ ref. owner.uid == ref.uid) z.owner_references ≡ true)
        (ap (value_or obj) h) (rw (eq_refl owner.uid) refl);
  remove = λ owner obj obj' h.
      subst (λ z. any_of (λ ref. owner.uid == ref.uid) z.owner_references ≡ false)
        (ap (value_or obj) h) (without-owned owner obj.owner_references);
}

abbrev plain : ObjectMeta
plain = meta_of "map" "1"

abbrev owner : ObjectMeta
owner = meta_of "blue" "2"

abbrev owned : ObjectMeta
owned = record plain { owner_references = reference_to owner ∷ [] }

toggled : toggle_owner_reference test_util true owner plain ≡ (ok true, owned)
unfolding toggle_owner_reference changed_by is_owned_by
toggled = refl

toggle_owner_reference_example :
    (is_owned_by owned owner ≡ true)
    × (true ≡ (if true then not (is_owned_by plain owner) else is_owned_by plain owner))
    × ((true ≡ true) ⊎ (owned ≡ plain))
toggle_owner_reference_example =
    toggle_owner_reference_lem test_util test_laws true owner plain owned true toggled

abbrev options : Assoc String
options = ("mon", "10.0.0.1") ∷ ("ro", "") ∷ []

map_to_string-join_example : map_to_string options "=" "," ≡ join "," (map (entry "=") options)
map_to_string-join_example = map_to_string-join options "=" ","

registration_path-plugin_dir_example :
    (kubelet_registration_path_container_arg "/var/lib/kubelet" "rbd.csi.ceph.com"
      ≡ "--kubelet-registration-path="
        <> host_dir (plugin_dir_volume "/var/lib/kubelet" "rbd.csi.ceph.com").source
        <> "/csi.sock")
    × (plugin_dir_volume_mount.name
        ≡ (plugin_dir_volume "/var/lib/kubelet" "rbd.csi.ceph.com").name)
    × (endpoint_container_arg
        ≡ "--endpoint=unix://" <> plugin_dir_volume_mount.mount_path <> "/csi.sock")
registration_path-plugin_dir_example =
    registration_path-plugin_dir "/var/lib/kubelet" "rbd.csi.ceph.com"

-- A volume by its name, with its path
abbrev with_flag : String × String → (String × String) × Bool
with_flag v = (v, true)

abbrev name_of : String × String → String
name_of v = v.0

abbrev built_in : List (String × String)
built_in = ("host-dev", "/dev") ∷ ("host-sys", "/sys") ∷ []

abbrev user : List (String × String)
user = ("host-dev", "/mnt") ∷ ("extra", "/extra") ∷ []

map_merge_by_key-spec_example :
    map_merge_by_key with_flag name_of built_in user ≡ merge_spec with_flag name_of built_in user
map_merge_by_key-spec_example = map_merge_by_key-spec with_flag name_of built_in user

last_with-merge_example :
    last_with with_flag name_of "host-dev" (map_merge_by_key with_flag name_of built_in user)
    ≡ ptr_or
        (last_taken with_flag name_of "host-dev" user)
        (last_with with_flag name_of "host-dev" built_in)
last_with-merge_example = last_with-merge with_flag name_of "host-dev" built_in user

-- Two functions: one makes a step and returns nil, and one has returned already.
abbrev two_functions : Option Error → List (Task ℕ)
two_functions value = running (λ w. returned none) (λ w. suc w) ∷ returned value ∷ []

abbrev two : List (Task ℕ)
two = two_functions (some (other "failed"))

-- Both are started, the closing goroutine waits, the second sends and ends, then the first does.
abbrev ended_moves : List Move
ended_moves =
    start_next
    ∷ start_next
    ∷ start_next
    ∷ go_on 1
    ∷ go_on 1
    ∷ go_on 0
    ∷ go_on 0
    ∷ go_on 0
    ∷ close_channel
    ∷ []

abbrev ended : Machine ℕ
ended = record {
  to_start = [];
  routines = [];
  counter = 0;
  waiting = true;
  closed = true;
  panicked = false;
  received = some (other "failed") ∷ none ∷ [];
  world = 1;
}

ended-moves : moves ended_moves (some (begin two 0)) ≡ some ended
unfolding moves move start goroutine after_go after_effect
ended-moves = refl

ended-blocked : (x : Move) → move x ended ≡ none
unfolding move start goroutine after_go
ended-blocked start_next = refl
ended-blocked (go_on i) = refl
ended-blocked close_channel = refl

blocked-ended_example :
    (ended.closed ≡ true) × (ended.panicked ≡ false) × (length ended.received ≡ length two)
blocked-ended_example = blocked-ended ended_moves two 0 ended ended-moves ended-blocked

moves-run_example : (schedule : List ℕ) × (run schedule (run_concurrently two 0) ≡ pool_of ended)
moves-run_example = moves-run ended_moves two 0 ended ended-moves
