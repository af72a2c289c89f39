-- ===== src/Snapshotter/Api.antt =====
-- The snapshotter behind the service of internal/grpcservice/snapshots.go, as the daemon composes
-- them: the interface that the service takes, filled with the snapshotter's operations.
pub mod Requests
pub mod Simulates
use nexus_erofs.Prelude.{false, List, [], some, Bytes}
use nexus_erofs.Errors.{Result, ok, err}
use nexus_erofs.Os.{World}
use nexus_erofs.Storage.{External, Labels, query, with_transaction}
use nexus_erofs.Snapshotter.Types.{Config, Info}
use nexus_erofs.Snapshotter.Create.{prepare, view}
use nexus_erofs.Snapshotter.Queries.{mounts_by_key, stat_snapshot, update, usage}
use nexus_erofs.Snapshotter.Commit.{commit}
use nexus_erofs.Snapshotter.Remove.{remove_snapshot, cleanup}
use nexus_erofs.GrpcService.{SnapshotterApi}

-- the infos that Walk passes on, and its outcome
walk_outcome : Result (List Info) → List Info × Result (Unit {0})
walk_outcome (ok infos) = (infos, ok tt)
walk_outcome (err e) = ([], err e)

-- The random texts are those that os.MkdirTemp tries.
unfoldable pub snapshotter_api : (E : External) → Config → List Bytes → SnapshotterApi E.Meta
unfolding walk_outcome
snapshotter_api E s random = record {
  prepare = λ key parent opts. prepare E s key parent opts random;
  view = λ key parent opts. view E s key parent opts random;
  mounts = mounts_by_key E s;
  commit = commit E s;
  remove = remove_snapshot E s;
  stat = stat_snapshot E s;
  update = update E s;
  usage = usage E s;
  walked = λ filters w. walk_outcome (with_transaction E false (query E (E.walk_info filters)) w).0;
  cleanup = some (cleanup E s);
}
