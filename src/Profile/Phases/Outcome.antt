-- ===== src/Profile/Phases/Outcome.antt =====
-- How an iteration ends whose phases fail.
use ceph_csi_operator.Profile.State.{State}
use ceph_csi_operator.Prelude.Result.{Result}
