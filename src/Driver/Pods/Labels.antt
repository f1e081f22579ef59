-- ===== src/Driver/Pods/Labels.antt =====
-- internal/controller/driver_controller.go: the labels by which the pods of a driver are selected, and
-- their affinity.
use ceph_csi_operator.Prelude.Assoc.{Assoc, lookup, lookup-insert, copy, lookup-nil}
use ceph_csi_operator.Api.Driver.{Foreign, Affinity, built_in, Given, PodAffinityTerm}
use ceph_csi_operator.Driver.Pods.{app_labels}
use ceph_csi_operator.Driver.Pods.Controller.Deploy.{
  get_controller_plugin_pod_affinity, label_hostname, deployment_spec,
}
use ceph_csi_operator.Prelude.Keyed.{distinct}
use ceph_csi_operator.Driver.State.{Env, State}
use ceph_csi_operator.Driver.Pods.Node.{node_labels, daemon_set_spec, node_spec}
use ceph_csi_operator.Prelude.Text.{◌<>◌, ℤ}
use ceph_csi_operator.Driver.Pods.Node.Addons.{addons_daemon_set_spec}
use ceph_csi_operator.Driver.Pods.Controller.{plugin_spec}
use ceph_csi_operator.Driver.Load.Images.{lookup-copy}
use ceph_csi_operator.Prelude.{
  Bool, String, true, Option, none, some, List, [], ◌∷◌, is_some, ◌≡◌, refl, All, Bool-cases, inl,
  inr, ptr_or, Option-cases, if◌then◌else◌, ◌==◌, deref, map, ◌∙◌, ap,
}

-- The labels have every entry of the selector.
abbrev pub IsSelected : Assoc String → Assoc String → Type 0
IsSelected selector labels = All (λ entry. lookup entry.0 labels ≡ some entry.1) selector

app_labels-app :
    (labels : Option (Assoc String)) (name : String)
    → lookup "app" (app_labels labels name) ≡ some name
unfolding app_labels
app_labels-app labels name = rw (lookup-insert "app" "app" name (copy [] (deref labels []))) refl

ptr_or-lookup-nil :
    (k : String) (found : Option String) → ptr_or found (lookup {V = String} k []) ≡ found
ptr_or-lookup-nil k none = lookup-nil k
ptr_or-lookup-nil k (some v) = refl

-- What the labels of a pod are: the name under `app`, and else the user's.
pub app_labels-lookup :
    (k : String) (labels : Assoc String) (name : String)
    → distinct (map (λ e. e.0) labels) ≡ true
    → lookup k (app_labels (some labels) name) ≡ (if "app" == k then some name else lookup k labels)
unfolding app_labels
app_labels-lookup k labels name h =
    lookup-insert "app" k name (copy [] labels)
    ∙ ap (λ found. if "app" == k then some name else found)
        (lookup-copy k [] labels h ∙ ptr_or-lookup-nil k (lookup k labels))

module _ {W : Type 0} {F : Foreign} (env : Env W F) (s : State W F) where
  node_labels-app : (name : String) → lookup "app" (node_labels s name) ≡ some name
  unfolding node_labels
  node_labels-app name = elim (Bool-cases (is_some s.driver.spec.liveness)) [
    | inl e ↦
        rw
          (
            e,
            lookup-insert "contains" "app" (name <> "-metrics")
                (app_labels (node_spec s).pod_common.labels name),
          )
          (app_labels-app (node_spec s).pod_common.labels name)
    | inr e ↦ rw e (app_labels-app (node_spec s).pod_common.labels name)
  ]

  -- The pods of the deployment and of both daemon sets have the labels that their selectors ask for,
  -- whatever labels the user gives.
  pub templates-IsSelected :
      (name : String) (replicas : ℤ) (condition : Bool)
      → IsSelected
          (deployment_spec env s name replicas).selector
          (deployment_spec env s name replicas).template.labels
        × IsSelected
            (daemon_set_spec env s name).selector
            (daemon_set_spec env s name).template.labels
        × IsSelected
            (addons_daemon_set_spec env s condition name).selector
            (addons_daemon_set_spec env s condition name).template.labels
  unfolding deployment_spec daemon_set_spec addons_daemon_set_spec
  templates-IsSelected name replicas condition = (
    (app_labels-app (plugin_spec s).pod_common.labels name, tt),
    (node_labels-app name, tt),
    (app_labels-app (node_spec s).pod_common.labels name, tt),
  )

module _ {F : Foreign} where
  abbrev pub user_anti_affinity :
      Option (Affinity F) → Option (Given (List PodAffinityTerm) F.pod_anti_affinity)
  user_anti_affinity none = none
  user_anti_affinity (some a) = a.pod_anti_affinity

  abbrev pub user_node_affinity : Option (Affinity F) → Option F.node_affinity
  user_node_affinity none = none
  user_node_affinity (some a) = a.node_affinity

  abbrev pub user_pod_affinity : Option (Affinity F) → Option F.pod_affinity
  user_pod_affinity none = none
  user_pod_affinity (some a) = a.pod_affinity

  -- The pods of the controller plugin always have an affinity: the user's anti-affinity, or else the one
  -- that keeps two pods of the selector off one host, and the user's affinity to nodes and pods.
  pub get_controller_plugin_pod_affinity-kept :
      (affinity : Option (Affinity F)) (selector : Assoc String)
      → get_controller_plugin_pod_affinity affinity selector
        ≡ some (record {
          node_affinity = user_node_affinity affinity;
          pod_affinity = user_pod_affinity affinity;
          pod_anti_affinity = ptr_or (user_anti_affinity affinity) (
              some (
                built_in
                  (record { label_selector = selector; topology_key = label_hostname } ∷ [])));
        })
  unfolding get_controller_plugin_pod_affinity
  get_controller_plugin_pod_affinity-kept none selector = refl
  get_controller_plugin_pod_affinity-kept (some a) selector =
      elim (Option-cases a.pod_anti_affinity) [ inl e ↦ rw e refl | inr (own, e) ↦ rw e refl ]
