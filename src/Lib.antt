-- ===== src/Lib.antt =====
-- Verification of the ceph-csi-operator, a Kubernetes operator that configures Ceph CSI drivers.
--
-- The program is a set of controllers. Each loads custom resources (api/v1) from the cluster, checks
-- them, and writes objects that Ceph CSI reads or runs:
--   - the ClientProfile controller writes the record of a profile under "config.json" of the config
--     map "ceph-csi-config", with what a CephConnection and a ready ClientProfileReplication add;
--   - the ClientProfileReplication controller lets one replication of a profile be Ready, which the
--     ClientProfile controller then takes up;
--   - the ClientProfileMapping controller builds "cluster-mapping.json" of the same config map from
--     all mappings of a namespace;
--   - the Driver controller writes the CSIDriver, config maps, network policies, a service and the pods
--     of a driver, from its spec merged with the defaults of the operator's configuration.
--
-- The files, and the code that they are about:
--   - Prelude: library names, Go's results and maps, text, and lemmas on lists with keys;
--   - Api: api/v1 (Profile, Driver), the Kubernetes objects (Meta, Cluster), and the client,
--     controllerutil and JSON as records of operations (Client);
--   - Utils/Core, Utils/Merge: internal/utils/core.go (MapToString, Clamp, MapMergeByKey);
--     Utils/Concurrent: RunConcurrently of the same file, its goroutines over explicit schedules;
--     Utils/Concurrent/Channel: the same with ChannelToSlice, its wait group and its channel move by
--     move;
--     Utils/Meta: internal/utils/meta.go and predicates.go; Utils/Csi: internal/utils/csi.go;
--   - Profile: internal/controller/clientprofile_controller.go. Record is composeCsiClusterInfoRecord,
--     Load is loadAndValidate, Entries and ConfigFile are the callback of reconcileCephCsiClusterInfo,
--     Phases is reconcilePhases with its steps, and reconcile;
--   - Replication: internal/controller/clientprofilereplication_controller.go;
--   - Mapping: internal/controller/clientprofilemapping_controller.go. The scan is in Mapping.antt, and
--     the grouping that it computes in Mapping/Groups;
--   - Driver: internal/controller/driver_controller.go and the values of defaults.go. Load is
--     LoadAndValidateDesiredState, Merge is mergeDriverSpecs, Names has the name's expression and the
--     derived names, LogRotate, CsiDriver and Network the steps of those names. Pods/Controller is
--     reconcileControllerPluginDeployment, Pods/Node reconcileNodePluginDaemonSet and, in Addons,
--     reconcileNodePluginDaemonSetForCsiAddons. Reconcile is Reconcile and reconcile: the load, and the
--     nine steps in goroutines;
--   - Shared: the writes of three controllers to the config map "ceph-csi-config", in any order;
--   - Startup: cmd/main.go, and the environment variables that internal/controller/defaults.go reads;
--   - Watches, below each controller: Reconcile, and the functions and filters that SetupWithManager
--     gives to the watches (for Driver, Reconcile is in Driver/Reconcile);
--   - Tests: a cluster that answers every call, and the theorems at concrete inputs.
-- The laws of a component are in the modules below it.
--
-- A receiver is a record with the cluster in it; a method takes the receiver to a result and the
-- receiver after it (Prelude/Result), so what was written before an error stays written. A result is a
-- value, an error or a panic. The cluster is any type, and each call takes it to the cluster after the
-- call, so other writers may act at each call. A pointer is an option, a map an association list whose
-- order is the order of iteration. Every loop is a structural recursion on its list, but for the moves of
-- RunConcurrently, which are a relation by a function of who goes on; the digits of a
-- number are printed on fuel of the number plus one rounds, and a number has no more digits than that.
-- The numbers of the code that are not only copied are counts of lists and small constants, so no
-- machine width is reached.
--
-- Not modelled: the registration of the watches, the types and the flags, which are calls of
-- controller-runtime and Kubernetes; log lines (logCreateOrUpdateResult with them); the mutex round the
-- config map, since a callback on it is one step in Shared; the updates that CreateOrUpdate makes of the
-- objects' versions; generated code and the vendored libraries. The client, controllerutil, the JSON
-- codec, quantities and the types of Kubernetes that are only copied are parameters, and so are, in the
-- controllers, the operator's namespace, the name of its configuration and the prefix of the service
-- accounts, which Startup reads. A step of the Driver controller is one move of its goroutine, so the
-- calls of two steps are not interleaved.
pub mod Prelude
pub mod Utils
pub mod Api
pub mod Profile
pub mod Replication
pub mod Mapping
pub mod Driver
pub mod Shared
pub mod Startup
pub mod Tests
