-- ===== src/Driver/LogRotate.antt =====
-- internal/controller/driver_controller.go: `reconcileLogRotateConfigMap` and `reconcileCsiConfigMap`
use ceph_csi_operator.Driver.State.{Env, State}
use ceph_csi_operator.Prelude.{
  Option, List, Bool, some, String, none, true, ◌∷◌, if◌then◌else◌, not, ◌==◌, [], ◌&&◌, ◌++◌,
}
use ceph_csi_operator.Prelude.Text.{show_int, join, ◌<>◌, pos}
use ceph_csi_operator.Utils.Meta.{toggle_owner_reference}
use ceph_csi_operator.Prelude.Result.{
  Result, Method, ok, err, other, panic, only_error, ignore_not_found,
}
use ceph_csi_operator.Api.Meta.{named, ConfigMap}
use ceph_csi_operator.Utils.Csi.Volumes.{log_rotate_config_map_name, csi_config_volume}
use ceph_csi_operator.Driver.Merge.{int_or}
use ceph_csi_operator.Api.Driver.{Foreign, LogSpec, Driver, LogRotationSpec}

module _ {W : Type 0} {F : Foreign} (env : Env W F) where
  -- The lines of the settings
  unfoldable pub settings : LogRotationSpec F → List String
  unfolding show_int
  settings spec =
      "\tmissingok"
        ∷ "\tcompress"
        ∷ "\tcopytruncate"
        ∷ "\tnotifempty"
        ∷ ("\trotate " <> show_int (int_or spec.max_files (pos 7)))
        ∷ (if spec.periodicity == "" then [] else ("\t" <> spec.periodicity) ∷ [])
      ++ (if env.show_quantity spec.max_log_size == "0"
          then []
          else ("\tmaxsize " <> env.show_quantity spec.max_log_size) ∷ [])

  -- The callback behind the owner reference
  unfoldable pub write_settings : LogRotationSpec F → Result Bool → Method ConfigMap (Unit {0})
  unfolding settings join
  write_settings spec (ok changed) config_map =
      if not (spec.periodicity == "") && env.is_zero_quantity spec.max_log_size
      then (err (other "invalid Log.Rotation spec"), config_map)
      else (
        ok tt,
        record config_map {
          content =
              some (("csi", "/csi-logs/*.log {\n" <> join "\n" (settings spec) <> "\n}\n") ∷ []);
        },
      )
  write_settings spec (err e) config_map = (err e, config_map)
  write_settings spec panic config_map = (panic, config_map)

  unfoldable pub mutate_log_rotate : Driver F → LogRotationSpec F → Method ConfigMap (Unit {0})
  unfolding write_settings toggle_owner_reference
  mutate_log_rotate driver spec config_map =
      let (r, m) = toggle_owner_reference env.util true driver.metadata config_map.metadata in
      write_settings spec r (record config_map { metadata = m })

  -- `cmp.Or(r.driver.Spec.Log, &csiv1.LogSpec{}).Rotation`
  abbrev pub rotation_of : Option (LogSpec F) → Option (LogRotationSpec F)
  rotation_of none = none
  rotation_of (some log) = log.rotation

  log_rotate_step : State W F → Option (LogRotationSpec F) → W → Result (Unit {0}) × W
  unfolding mutate_log_rotate
  log_rotate_step s none w =
      let (r, w') =
        env.config_maps.delete
          (record {
            name = log_rotate_config_map_name s.driver.metadata.name;
            namespace = s.driver.metadata.namespace;
          })
          w in
      (ignore_not_found r, w')
  log_rotate_step s (some spec) w =
      let (r, config_map, w') =
        env.config_maps.create_or_update
          (record {
            metadata =
                named (log_rotate_config_map_name s.driver.metadata.name)
                  s.driver.metadata.namespace;
            content = none;
          })
          (mutate_log_rotate s.driver spec) w in
      (only_error r, w')

  -- `reconcileLogRotateConfigMap`, which reads the receiver
  unfoldable pub reconcile_log_rotate_config_map : State W F → W → Result (Unit {0}) × W
  unfolding log_rotate_step
  reconcile_log_rotate_config_map s = log_rotate_step s (rotation_of s.driver.spec.log)

  unfoldable pub own_config_map : Driver F → Method ConfigMap (Unit {0})
  unfolding toggle_owner_reference
  own_config_map driver config_map =
      let (r, m) = toggle_owner_reference env.util true driver.metadata config_map.metadata in
      (only_error r, record config_map { metadata = m })

  -- `reconcileCsiConfigMap`
  unfoldable pub reconcile_csi_config_map : State W F → W → Result (Unit {0}) × W
  unfolding own_config_map
  reconcile_csi_config_map s w =
      let (r, config_map, w') =
        env.config_maps.create_or_update
          (record {
            metadata = named csi_config_volume.name s.driver.metadata.namespace;
            content = none;
          })
          (own_config_map s.driver) w in
      (only_error r, w')
