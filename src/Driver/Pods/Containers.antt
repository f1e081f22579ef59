-- ===== src/Driver/Pods/Containers.antt =====
-- internal/controller/driver_controller.go: the names of the containers of each pod.
use mathlib.Core.List.{map-append, append-nil}
use ceph_csi_operator.Api.Driver.{Foreign, VolumeSpec}
use ceph_csi_operator.Api.Pods.{Container}
use ceph_csi_operator.Driver.Pods.{appended, plugin_name}
use ceph_csi_operator.Prelude.Keyed.{mem_key, distinct, mem_key-append, distinct-concat}
use ceph_csi_operator.Driver.State.{Env, State}
use ceph_csi_operator.Driver.Pods.Controller.Sidecars.{
  snapshot_metadata_container, provisioner_container, liveness_container, resizer_container,
  attacher_container, snapshotter_container, ex_snapshotter_container, addons_container,
  omap_generator_container, log_rotator_container,
}
use ceph_csi_operator.Driver.Pods.Node.{
  node_liveness_container, node_log_rotator_container, node_containers, node_plugin_container,
  registrar_container,
}
use ceph_csi_operator.Prelude.Text.{ℤ}
use ceph_csi_operator.Driver.Pods.Controller.Deploy.{
  with_snapshotter, with_ex_snapshotter, with_addons, with_omap_generator, tls_of,
  controller_containers,
}
use ceph_csi_operator.Driver.Pods.Controller.{log_rotation, plugin_container}
use ceph_csi_operator.Driver.Pods.Node.Addons.{addons_containers, node_addons_container}
use ceph_csi_operator.Driver.Names.{driver_types}
use ceph_csi_operator.Prelude.{
  Bool, String, true, false, Option, none, some, List, [], ◌∷◌, ◌++◌, is_some, ◌≡◌, ◌⊎◌, inl, inr,
  arith, map, refl, Any, not, ◌&&◌,
}

-- No name stands twice, and each is one of those given.
NamesIn : {F : Foreign} → List String → List (Container F) → Type 0
NamesIn names containers =
    ((k : String) → mem_key k (map (λ c. c.name) containers) ≡ true → mem_key k names ≡ true)
    × (distinct (map (λ c. c.name) containers) ≡ true)

-- None, or one of the name
abbrev IsSole : {F : Foreign} → String → List (Container F) → Type 0
IsSole n containers = (containers ≡ []) ⊎ ((c : Container _) × (containers ≡ c ∷ []) × (c.name ≡ n))

module _ {F : Foreign} where
  abbrev pub name_of : Container F → String
  name_of c = c.name

  appended-IsSole : (cond : Bool) (c : Container F) → IsSole c.name (appended cond (c ∷ []))
  appended-IsSole true c = inr (c, refl, refl)
  appended-IsSole false c = inl refl

  -- A container more, with a new name
  grow :
      (names : List String) (containers more : List (Container F)) (n : String)
      → NamesIn names containers
      → IsSole n more
      → mem_key n names ≡ false
      → NamesIn (n ∷ names) (containers ++ more)
  unfolding NamesIn
  grow names containers more n (within, once) (inl e) new =
      rw (e, append-nil containers) (λ k m. ground (arith, within k m), once)
  grow names containers more n (within, once) (inr (c, e, named)) new =
      rw (e, map-append)
        (
          λ k m.
              ground (
                arith,
                m,
                named,
                mem_key-append k (map name_of containers) (c.name ∷ []),
                within k,
              ),
          ground (
            arith,
            named,
            distinct-concat c.name (map name_of containers),
            new,
            once,
            within c.name,
          ),
        )

abbrev base_names : List String
base_names = "driver-registrar" ∷ "csi-provisioner" ∷ "csi-resizer" ∷ "csi-attacher" ∷ []

-- The names of all sidecars, the last one of the controller plugin's pod first
abbrev sidecar_names : List String
sidecar_names =
    "csi-snapshot-metadata" ∷ "log-rotator" ∷ "liveness-prometheus" ∷ "csi-omap-generator"
    ∷ "csi-addons" ∷ "ex-csi-snapshotter" ∷ "csi-snapshotter" ∷ base_names

abbrev is_new : String → Bool
is_new driver_type = not (mem_key (plugin_name driver_type) sidecar_names)

abbrev all_of : (String → Bool) → List String → Bool
all_of p [] = true
all_of p (t ∷ types) = p t && all_of p types

Any-all_of :
    (p : String → Bool) (types : List String) (u : String)
    → all_of p types ≡ true
    → Any (λ t. t ≡ u) types
    → p u ≡ true
Any-all_of p [] u h at = elim at [ ]
Any-all_of p (t ∷ types) u h (inl e) = rw (← e) (ground (arith, h))
Any-all_of p (t ∷ types) u h (inr at) = Any-all_of p types u (ground (arith, h)) at

false_of_not : (b : Bool) → not b ≡ true → b ≡ false
false_of_not b h = ground arith

-- A plugin's container is named like no other.
plugin_name-new :
    (driver_type : String)
    → Any (λ t. t ≡ driver_type) driver_types
    → mem_key (plugin_name driver_type) sidecar_names ≡ false
plugin_name-new driver_type known =
    false_of_not (mem_key (plugin_name driver_type) sidecar_names)
      (Any-all_of is_new driver_types driver_type refl known)

module _ {W : Type 0} {F : Foreign} (env : Env W F) (s : State W F) where
  liveness-IsSole : (port : Option ℤ) → IsSole "liveness-prometheus" (liveness_container s port)
  unfolding liveness_container
  liveness-IsSole none = inl refl
  liveness-IsSole (some port) = inr (_, refl, refl)

  tls-IsSole :
      (tls : Option (VolumeSpec F))
      → IsSole "csi-snapshot-metadata" (snapshot_metadata_container s tls)
  unfolding snapshot_metadata_container
  tls-IsSole none = inl refl
  tls-IsSole (some tls) = inr (_, refl, refl)

  node_liveness-IsSole :
      (port : Option ℤ) → IsSole "liveness-prometheus" (node_liveness_container s port)
  unfolding node_liveness_container
  node_liveness-IsSole none = inl refl
  node_liveness-IsSole (some port) = inr (_, refl, refl)

  -- The other containers behind those that each pod has
  abbrev with_sidecars : List (Container F) → List (Container F)
  with_sidecars first =
      first
      ++ appended (with_snapshotter env s) (snapshotter_container s ∷ [])
      ++ appended (with_ex_snapshotter env s) (ex_snapshotter_container s ∷ [])
      ++ appended (with_addons env s) (addons_container s ∷ [])
      ++ appended (with_omap_generator env s) (omap_generator_container s ∷ [])
      ++ liveness_container s s.driver.spec.liveness
      ++ appended (is_some (log_rotation s)) (log_rotator_container s ∷ [])
      ++ snapshot_metadata_container s (tls_of env s)

  sidecars-NamesIn :
      (first : List (Container F))
      → NamesIn base_names first
      → NamesIn sidecar_names (with_sidecars first)
  unfolding snapshotter_container ex_snapshotter_container addons_container omap_generator_container
      log_rotator_container
  sidecars-NamesIn first h =
      let h1 =
        grow _ first _ "csi-snapshotter" h
          (appended-IsSole (with_snapshotter env s) (snapshotter_container s)) refl in
      let h2 =
        grow _ _ _ "ex-csi-snapshotter" h1
          (appended-IsSole (with_ex_snapshotter env s) (ex_snapshotter_container s)) refl in
      let h3 =
        grow _ _ _ "csi-addons" h2 (appended-IsSole (with_addons env s) (addons_container s))
          refl in
      let h4 =
        grow _ _ _ "csi-omap-generator" h3
          (appended-IsSole (with_omap_generator env s) (omap_generator_container s)) refl in
      let h5 = grow _ _ _ "liveness-prometheus" h4 (liveness-IsSole s.driver.spec.liveness) refl in
      let h6 =
        grow _ _ _ "log-rotator" h5
          (appended-IsSole (is_some (log_rotation s)) (log_rotator_container s)) refl in
      grow _ _ _ "csi-snapshot-metadata" h6 (tls-IsSole (tls_of env s)) refl

  -- The plugin's container, whose name holds the driver's type, before other containers
  plugin-distinct :
      (names : List String) (c : Container F) (containers : List (Container F))
      → NamesIn names containers
      → mem_key c.name names ≡ false
      → distinct (map name_of (c ∷ containers)) ≡ true
  unfolding NamesIn
  plugin-distinct names c containers (within, once) new = ground (arith, new, once, within c.name)

  controller-distinct :
      Any (λ t. t ≡ s.driver_type) driver_types
      → distinct (map name_of (controller_containers env s)) ≡ true
  unfolding controller_containers NamesIn plugin_container provisioner_container resizer_container
      attacher_container
  controller-distinct known =
      let first = provisioner_container s ∷ resizer_container s ∷ attacher_container s ∷ [] in
      plugin-distinct sidecar_names (plugin_container env s) (with_sidecars first)
        (sidecars-NamesIn first (λ k m. ground (arith, m), refl))
        (plugin_name-new s.driver_type known)

  abbrev with_node_sidecars : List (Container F) → List (Container F)
  with_node_sidecars first =
      first
      ++ node_liveness_container s s.driver.spec.liveness
      ++ appended (is_some (log_rotation s)) (node_log_rotator_container s ∷ [])

  node_sidecars-NamesIn :
      (first : List (Container F))
      → NamesIn base_names first
      → NamesIn ("log-rotator" ∷ "liveness-prometheus" ∷ base_names) (with_node_sidecars first)
  node_sidecars-NamesIn first h =
      let h1 =
        grow base_names first (node_liveness_container s s.driver.spec.liveness)
          "liveness-prometheus" h (node_liveness-IsSole s.driver.spec.liveness) refl in
      grow _ _ _ "log-rotator" h1
        (appended-IsSole (is_some (log_rotation s)) (node_log_rotator_container s)) refl

  node-distinct :
      Any (λ t. t ≡ s.driver_type) driver_types
      → distinct (map name_of (node_containers env s)) ≡ true
  unfolding node_containers NamesIn node_plugin_container registrar_container
  node-distinct known =
      let first = registrar_container s ∷ [] in
      plugin-distinct ("log-rotator" ∷ "liveness-prometheus" ∷ base_names)
        (node_plugin_container env s) (with_node_sidecars first)
        (node_sidecars-NamesIn first (λ k m. ground (arith, m), refl))
        (ground (arith, plugin_name-new s.driver_type known))

  addons-distinct :
      (condition : Bool) → distinct (map name_of (addons_containers s condition)) ≡ true
  unfolding addons_containers NamesIn node_addons_container
  addons-distinct condition =
      (grow ("csi-addons" ∷ []) (node_addons_container s condition ∷ []) _ "log-rotator"
        (λ k m. m, refl) (appended-IsSole (is_some (log_rotation s)) (node_log_rotator_container s))
        refl).1

  -- For a driver of a known type, no two containers of one pod have the same name.
  pub containers-distinct :
      (condition : Bool)
      → Any (λ t. t ≡ s.driver_type) driver_types
      → (distinct (map name_of (controller_containers env s)) ≡ true)
        × (distinct (map name_of (node_containers env s)) ≡ true)
        × (distinct (map name_of (addons_containers s condition)) ≡ true)
  containers-distinct condition known =
      (controller-distinct known, node-distinct known, addons-distinct condition)
