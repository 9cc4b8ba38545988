-- ===== src/Lib.antt =====
-- The node plugin of the HAMi DRA driver (cmd/hami-kubelet-plugin, pkg/featuregates): the part of the
-- driver that prepares the devices of a ResourceClaim on a node and records them in a checkpoint.
--
-- The parts and their files:
--   Common        tests, outcomes of Go calls, Go maps, decimal texts, sorting
--   FeatureGates  pkg/featuregates/featuregates.go: gates, defaults, ValidateFeatureGates
--   Kube          the objects of the Kubernetes API, with the fields that are read
--   Devices       deviceinfo.go, mig.go, allocatable.go, prepared.go and the types of hami_core.go
--   Mig           mig.go: canonical names of MIG devices and their parser
--   Checkpoint    checkpoint.go, checkpointv.go: the versions of the checkpoint, conversions, JSON
--   Store         device_state.go: the checkpoint file under its lock, initCheckpoint
--   State         device_state.go: Prepare, Unprepare and what they call in that file
--   Cleanup       cleanup.go: the removal of stale claims
--   Driver        driver.go: the kubelet's calls for batches of claims, under a lock
--   HamiCore      hami_core.go: the pod of a claim, its label, its cache directory, limits, release
--   Vfio          vfio-device.go, scripts: the driver of a GPU for a virtual machine
--   Health        device_health.go, and the reaction of driver.go to notifications
--   Nvml          nvlib.go: creation, search and removal of MIG devices
--   Sharing       sharing.go: time slicing, and the MPS control daemon of a claim
--   Partitions    partitions.go, and the ResourceSlices of driver.go for partitionable devices
--   Examples      concrete parameters, test data, and the properties at concrete inputs
--
-- A Go call gives an Outcome: a value, an error or a panic. An error keeps the text of its innermost
-- cause or less; the wrapping texts and the log are left out. A method that changes state is an
-- action `Exec S A`, which leaves a state on every path. `DeviceState` holds the map of allocatable
-- devices, the checkpoint directory with its lock (`store`) and the rest of the node (`host`). The
-- managers that the methods call act on `host` alone, so that they do not write to the checkpoint is
-- a part of their interface. `s.Lock()` and the lock of the file make calls run one after the other.
--
-- A Go map is an association list: its order is that of one `range` loop, and where a property needs
-- that no key stands twice, it says so. Two loops over one map visit it in the same order. The groups
-- of a claim's results stand in the order in which their configurations are first met, which is one of
-- the orders that Go may take.
-- Configurations, which the code tells apart by their addresses, are told apart by their positions.
-- All loops are structural recursions, so none needs fuel.
--
-- The goroutines of Cleanup.Manager and of Health.Monitor are step relations: a step is one send,
-- receive or return, and the steps interleave in any order. The disk of HamiCore holds, for each call
-- to come, whether the operating system grants it, and what a refused call has already changed.
--
-- Parameters, with what is relied on as named laws: encoding/json and the checksum package (Json,
-- IsJson), the checkpoint manager and the file lock (CheckpointFile, IsFile), the configuration API
-- (ConfigApi), the managers of a DeviceState (Managers), the client of the API server (Cleanup;
-- PodSource, IsSource, IsClient), the lock and the publication of resources (DriverParts), the kernel
-- and fuser (PciHost, IsPci), NVML (Nvml, IsNvml), and what runs an MPS control daemon (MpsHost,
-- IsMpsHost).
--
-- Not modelled: the names and the template of an MPS control daemon, the enumeration of devices
-- and of MIG profiles at the start, the CDI files, the attributes of devices in ResourceSlices,
-- the informer of pods, and the command line. `Managers` is not filled from HamiCore, Vfio, Nvml
-- and Sharing: each of them acts on a state of its own.
pub mod Common
pub mod FeatureGates
pub mod Kube
pub mod Devices
pub mod Mig
pub mod Checkpoint
pub mod Store
pub mod State
pub mod Cleanup
pub mod Driver
pub mod HamiCore
pub mod Vfio
pub mod Health
pub mod Nvml
pub mod Partitions
pub mod Sharing
pub mod Examples
