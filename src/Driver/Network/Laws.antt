-- ===== src/Driver/Network/Laws.antt =====
-- How many replicas the controller plugin has.
use ceph_csi_operator.Driver.State.{Env}
use ceph_csi_operator.Driver.Network.{get_controller_plugin_replicas, replicas_for}
use ceph_csi_operator.Prelude.{
  List, String, ◌≡◌, length, ℕ, none, ◌≤◌, Bool-cases, ltb, inl, arith, inr, ◌⊎◌, ◌≢◌, refl, ◌∷◌,
  [],
}
use ceph_csi_operator.Prelude.Result.{Result, ok, err, panic}
use ceph_csi_operator.Prelude.Text.{pos}
use ceph_csi_operator.Api.Driver.{Foreign}

-- The greatest number of replicas that is at most two and at most the number of nodes, where a node is
-- known; two where none is.
abbrev pub IsCapped : Result (List String) → ℕ → Type 0
IsCapped (ok nodes) n =
    ((length nodes ≡ 0) × (n ≡ 2))
    ⊎ ((1 ≤ n) × (n ≤ 2) × (n ≤ length nodes) × ((n ≡ 2) ⊎ (n ≡ length nodes)))
IsCapped (err e) n = n ≡ 2
IsCapped panic n = n ≡ 2

module _ {W : Type 0} {F : Foreign} (env : Env W F) where
  -- Where the spec has no number and the listing of the nodes does not panic, there are as many replicas
  -- as there are nodes, but two at most, and two where the listing fails or is empty.
  pub get_controller_plugin_replicas-IsCapped :
      (w w' : W) (r : Result (List String))
      → env.list_nodes w ≡ (r, w')
      → r ≢ panic
      → (n : ℕ) × (get_controller_plugin_replicas env none w ≡ (ok (pos n), w')) × IsCapped r n
  unfolding get_controller_plugin_replicas replicas_for
  get_controller_plugin_replicas-IsCapped w w' (ok []) h calm = (2, rw h refl, inl (refl, refl))
  get_controller_plugin_replicas-IsCapped w w' (ok (node ∷ nodes)) h calm =
      elim (Bool-cases (ltb (length (node ∷ nodes)) 2)) [
        | inl e ↦ (1, rw h (ground (arith, e)), inr (ground (arith, e)))
        | inr e ↦ (2, rw h (ground (arith, e)), inr (ground (arith, e)))
      ]
  get_controller_plugin_replicas-IsCapped w w' (err e) h calm = (2, rw h refl, refl)
  get_controller_plugin_replicas-IsCapped w w' panic h calm = absurd (calm refl)
