-- ===== src/Lib.antt =====
-- node-disk-manager: a model of its core logic, with proofs.
--
-- The program detects the block devices of each node of a Kubernetes cluster, keeps a BlockDevice
-- resource for each, and binds BlockDeviceClaim resources to them.
--
-- - Base: names shared by all modules; Base/Slices has the slice helpers of pkg/util/strutil.go.
--   A Go map is an association list, and int64 is Base/Int.
-- - Api: the resources of api/v1alpha1.
-- - Cluster: what the controllers say to the API server. Cluster/Program has a program as a tree of
--   requests with a continuation for each reply; Cluster/Safe says that all writes of a program keep
--   to a policy whatever is answered, Cluster/Performs relates a program to the writes that it can
--   perform, and Cluster/Run runs a program on given replies.
-- - Claim: the reconciler of claims (pkg/controllers/blockdeviceclaim), which takes and releases
--   devices and selects them with Select. Claim/Allowed describes its writes.
-- - Cleaner: the cleanup jobs of pkg/cleaner.
-- - Device: the reconciler of devices (pkg/controllers/blockdevice), which calls Cleaner for a
--   released device. Device/Allowed describes its writes.
-- - Store: the daemon's store of its devices (cmd/ndm_daemonset/controller/blockdevicestore.go).
--   Store/Allowed describes its writes, and Store/Listed is the loop over a listing.
-- - Partition: pkg/partition, which writes a partition table on a blank disk. go-diskfs and libblkid
--   are requests to a disk (Cluster/Disk), whose answers are arbitrary; sectors are uint64.
-- - Daemon: the daemon's devices (blockdevice/blockdevice.go) and its events. Daemon/Uuid is the
--   identity of a device (cmd/ndm_daemonset/probe/uuid.go), Daemon/Convert the resource made for it
--   (ToDevice of cmd/ndm_daemonset/controller/blockdevice.go), Daemon/Add with Daemon/Publish the
--   file addhandler.go of cmd/ndm_daemonset/probe, Daemon/Delete deletehandler.go, Daemon/Change
--   changehandler.go, and Daemon/Events eventhandler.go. The cache BDHierarchy is passed along. In
--   the events the probes and the filters are parameters, and so are md5, the JSON path library and
--   the validation of label values. Daemon/Allowed describes the writes; a rescan is part of an
--   event's result. Daemon/Filters has the filters (cmd/ndm_daemonset/filter and
--   cmd/ndm_daemonset/controller/filter.go), and Daemon/Probes the list of probes, the used-by probe and
--   the custom tags (usedbyprobe.go and customtagprobe.go); what they read from a disk, the letter
--   tables and the regular expressions of the Go library are parameters.
-- - Lifecycle: a device under the accepted writes of Claim, Device, Store and the events of Daemon, in
--   any order: a step is a write that a run of one of them performs, and Lifecycle/Effects says what
--   it can do. Lifecycle/Machine is the life of a device as a machine of three states.
-- - Features: the feature gates of pkg/features. ValidateDependencies recurs along the
--   dependencies, here on fuel: the longest chain has two features, and the theorem shows that two
--   units of fuel always give an answer. The order in which Go ranges over the map is an argument.
-- - Mount: mount tables and GenerateDiff of pkg/mount/libmount, whose parser is not modelled, and in
--   Mount/Util the reading of mounts files by pkg/mount/mountutil.go, on given lines.
-- - Sysfs: parents, partitions, holders, slaves and sizes of a device by pkg/sysfs/syspath.go and
--   device.go, without GetDeviceType, on given contents of /sys, and in Sysfs/Fill the sysfs probe
--   (cmd/ndm_daemonset/probe/sysfsprobe.go).
-- - Select: Config.Filter of pkg/select, which chooses the device of a claim: Select/Filters has one
--   function for each filter of filters.go, Select/Choose is select.go, and Select/Eligible
--   describes a suitable device without the filters. Quantity.AsInt64 and labels.NewRequirement of
--   the Kubernetes libraries are parameters.
--
-- Not modelled: the other probes (udev, mount, smart, seachest and blkid), the start of the daemon and
-- its sparse files, the exporter and the gRPC service, and the calls of the kernel and of libraries.
-- Events that the controllers record and log lines have no effect on what is stated and are left out.
pub mod Api
pub mod Base
pub mod Claim
pub mod Cleaner
pub mod Cluster
pub mod Daemon
pub mod Device
pub mod Features
pub mod Lifecycle
pub mod Mount
pub mod Partition
pub mod Select
pub mod Store
pub mod Sysfs
