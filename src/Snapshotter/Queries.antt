-- ===== src/Snapshotter/Queries.antt =====
-- internal/snapshotter/operations.go: Mounts, Stat, Update, Walk and Usage.
pub mod ReadOnly
use nexus_erofs.Prelude.{ℕ, Bool, true, false, List, [], ◌∷◌, Bytes, codes}
use nexus_erofs.Errors.{Error, Result, ok, err}
use nexus_erofs.Mount.{Mount}
use nexus_erofs.Os.{World, Exec, pure, raise, attempt, wrapping, ◌>>=◌}
use nexus_erofs.Storage.{External, query, change, with_transaction}
use nexus_erofs.Snapshotter.Types.{
  Config, Kind, kind_unknown, kind_view, kind_active, kind_committed, Snapshot, Info, Usage,
}
use nexus_erofs.Snapshotter.Paths.{upper_path}
use nexus_erofs.Snapshotter.Mounts.{mounts}

module _ (E : External) (s : Config) where
  -- the function of the transaction of Mounts
  unfoldable pub find_snapshot : Bytes → Exec E.Meta (Snapshot × Info)
  find_snapshot key = do
    snap ← wrapping "get active mount" (query E (E.get_snapshot key))
    info ← wrapping "get snapshot info" (query E (E.get_info key))
    pure (snap, info.1)

  -- Mounts
  unfoldable pub mounts_by_key : Bytes → Exec E.Meta (List Mount)
  mounts_by_key key = do
    found ← with_transaction E false (find_snapshot key)
    mounts s found.0 found.1

  -- Stat
  unfoldable pub stat_snapshot : Bytes → Exec E.Meta Info
  stat_snapshot key = do found ← with_transaction E false (query E (E.get_info key)); pure (found.1)

  -- Update
  unfoldable pub update : Info → List Bytes → Exec E.Meta Info
  update info fieldpaths = with_transaction E true (change E (E.update_info info fieldpaths))

  each : (Info → Exec E.Meta (Unit {0})) → List Info → Exec E.Meta (Unit {0})
  each fn [] = pure tt
  each fn (info ∷ infos) = do _ ← fn info; each fn infos

  -- Walk: the walk stops at the first error of its function.
  unfoldable pub walk : (Info → Exec E.Meta (Unit {0})) → List Bytes → Exec E.Meta (Unit {0})
  unfolding each
  walk fn filters =
      with_transaction E false (do infos ← query E (E.walk_info filters); each fn infos)

  usage_of_kind : Kind → Bytes → Usage → Exec E.Meta Usage
  usage_of_kind kind_active id usage w = (E.disk_usage (upper_path s id) w.files, w)
  usage_of_kind _ id usage w = (ok usage, w)

  -- Usage
  unfoldable pub usage : Bytes → Exec E.Meta Usage
  unfolding usage_of_kind
  usage key = do
    found ← with_transaction E false (query E (E.get_info key))
    usage_of_kind found.1.kind found.0 found.2
