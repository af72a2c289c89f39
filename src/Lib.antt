-- ===== src/Lib.antt =====
-- A model of the EROFS snapshotter for containerd, with the theorems that make it correct.
--
-- The snapshotter keeps one directory for each snapshot and a record of it in a metadata store of
-- containerd. Prepare makes a directory with an ext4 image for writes, the differ or Commit turns
-- what was written into an EROFS blob, Mounts describes the layers for a virtual machine, and Remove
-- and Cleanup take directories away. A background step merges the metadata of a chain of layers.
--
-- The files, and the code that they model:
--   Snapshotter/Mounts      internal/snapshotter/mounts.go: `mounts` and the functions below it
--   Snapshotter/Create      internal/snapshotter/operations.go: createSnapshot, Prepare, View, and
--                           prepareDirectory, createWritableLayer of internal/snapshotter/snapshotter.go
--   Snapshotter/Remove      operations.go: getCleanupDirectories, Remove, Cleanup
--   Snapshotter/Queries     operations.go: Mounts, Stat, Update, Walk, Usage
--   Snapshotter/Commit      internal/snapshotter/commit.go: getCommitUpperDir, commitBlock, Commit
--   Snapshotter/FsMeta      commit.go: generateFsMeta, fixVmdkPaths, writeLayerManifest
--   Snapshotter/Startup     cleanupOrphanedMounts, cleanupBlockMounts, Close
--   Snapshotter/Host        internal/snapshotter/snapshotter_linux.go: calls of the kernel
--   Snapshotter/Paths       internal/snapshotter/paths.go
--   Snapshotter/Start       internal/snapshotter/snapshotter.go: NewSnapshotter and its options
--   Snapshotter/Api         the snapshotter behind internal/grpcservice/snapshots.go, and the abstract
--                           view of its requests as steps of the metadata store
--   Snapshotter/Vmdk        internal/snapshotter/vmdk.go: ParseVMDK, ParseLayerManifest,
--                           ExtractLayerDigests
--   LayerOrder, StringUtil  internal/snapshotter/layer_order.go, internal/stringutil/truncate.go
--   Erofs                   internal/erofs/convert.go: arguments, names of blobs, block sizes, layers
--   Erofs/Tar               convert.go: mkfs.erofs with a tar stream at its standard input
--   MountUtils, Preflight   internal/mountutils/helpers.go, internal/preflight/preflight_linux.go
--   MountUtils/Host         internal/mountutils/erofs_linux.go: MountAll, MountExt4
--   Loop                    internal/loop: Setup, Detach, and the searches through /sys/block
--   Differ/Apply            internal/differ/differ.go: Apply
--   Differ/Media            differ.go and internal/differ/compare_linux.go: media types, active mounts
--   Differ/Active, Mounted  compare_linux.go: mounts for the time of a diff
--   Differ/Options          differ.go: NewErofsDiffer and its options
--   Differ/Upload           compare_linux.go: Compare, and the upload of a diff
--   Store                   internal/store/namespace.go: NamespaceAwareStore
--   GrpcService             internal/grpcservice/snapshots.go: the service over a snapshotter
--   Daemon                  cmd/spin-erofs-snapshotter/main.go: main, run and the interceptors
--   CommitTool              cmd/integration-commit/main.go: run, writeToSnapshot
--   Errors, Mount           Go's errors with internal/snapshotter/errors.go, and mount.Mount
--   Strings, FilePath, Os   what the code uses of the packages strings, path/filepath and os
--   Storage                 what is taken from containerd and from the commands, as a parameter
--   Examples                a small host, and the theorems at concrete inputs
--
-- State. An operation is a function of a `World`: the files, the mount points, the files with the
-- immutable flag, the loop devices, the metadata, the queue of background generations, and a schedule
-- of faults. For the differ, the metadata hold what the content store and the mount manager know. The
-- schedule says for each system call whether it is refused and with which error; a cancelled context
-- is a refused call too. A theorem over all worlds is one over all failures. What was done before a
-- failure stays done. A background generation is queued when it starts. `run_generation` runs one of the
-- queue, as a step of its own between two requests, and `wait_background` runs all. Requests and
-- generations are whole steps: how the calls of two of them may be mixed is not modelled. That a file
-- is written over a directory, or over a file with the immutable flag, is left to the schedule.
--
-- The metadata store, mkfs.erofs, mkfs.ext4, mounts and the digest parser are fields of
-- `Storage.External`. `Storage.IsTransactional` is what is relied on of the store: a transaction is
-- rolled back when its function fails, and otherwise is committed whole or not at all.
--
-- The differ's services are fields of `Differ.Services`, `Differ.Manager` and `Differ.Apply.ApplyTools`,
-- the commands mount and umount of `MountUtils.Host.MountTools`, the control device of
-- `Loop.LoopControl`, the client's store of `Store.ClientStore`, and a snapshotter behind the gRPC
-- service of `GrpcService.SnapshotterApi`. A diff is a function that is given its writer and returns
-- what it has written. A reader is its content and whether it ends well.
--
-- The daemon's client, database, mount manager, socket and server are fields of
-- `Daemon.Run.DaemonTools`. Its state holds beside the metadata a record of what it opened, served and
-- closed. Requests are handled while `serve` runs, which is a parameter that is given the services.
-- The client of the tool that commits an image is `CommitTool.CommitTools`.
--
-- Texts are lists of bytes. Errors keep their chain of causes and the fixed words of their messages.
-- Directories given to filepath.Glob have no characters that Glob interprets. Directory entries come
-- sorted by name. Reading a file or a directory is one system call, opening included; closing does
-- not fail. Loops of the code run over lists or count up to a constant, and are structural here. Only
-- the loop over stream processors in Apply has fuel, which is enough where it is as long as the chain
-- of processors; the digits of a number have as much fuel as the number.
--
-- Not modelled: the parse of command lines, other platforms, contexts and their deadlines, logs but for
-- those of the daemon's interceptors, what the commands print, and modes, owners and times of files.
pub mod Prelude
pub mod Strings
pub mod FilePath
pub mod Errors
pub mod Mount
pub mod StringUtil
pub mod LayerOrder
pub mod Os
pub mod MountUtils
pub mod Preflight
pub mod Erofs
pub mod Snapshotter
pub mod Loop
pub mod Daemon
pub mod CommitTool
pub mod Differ
pub mod Store
pub mod GrpcService
pub mod Storage
pub mod Examples
