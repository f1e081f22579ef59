-- ===== src/Mapping/Watches.antt =====
-- internal/controller/clientprofilemapping_controller.go: `Reconcile`, and the filter that
-- `SetupWithManager` gives to the watch of config maps.
use ceph_csi_operator.Mapping.Config.{Env, State, reconcile}
use ceph_csi_operator.Utils.Meta.{name_predicate}
use ceph_csi_operator.Api.Meta.{ObjectKey, ObjectMeta}
use ceph_csi_operator.Prelude.Result.{Result}
use ceph_csi_operator.Utils.Csi.Volumes.{csi_config_volume}
use ceph_csi_operator.Utils.Meta.{name_predicate}
use ceph_csi_operator.Api.Meta.{ObjectKey, ObjectMeta}
use ceph_csi_operator.Prelude.Result.{Result}
use ceph_csi_operator.Prelude.{Bool, []}

-- The config maps whose events are looked at, where their generation has changed
unfoldable pub config_map_events : ObjectMeta → Bool
unfolding name_predicate
config_map_events = name_predicate (csi_config_volume).name

module _ {W : Type 0} (env : Env W) where
  abbrev pub receiver : ObjectKey → W → State W
  receiver req w = record { req = req; items = []; world = w }

  -- `Reconcile`, whose result is empty beside the error
  unfoldable pub reconcile_request : ObjectKey → W → Result (Unit {0}) × W
  unfolding reconcile
  reconcile_request req w = let (r, s) = reconcile env (receiver req w) in (r, s.world)
