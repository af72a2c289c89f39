-- ===== src/Snapshotter/Remove.antt =====
-- internal/snapshotter/operations.go: getCleanupDirectories, Remove, cleanupAfterRemove, Cleanup and
-- clearImmutableFlags.
pub mod Atomic
pub mod Directories
pub mod Effect
pub mod ReadOnly
use nexus_erofs.Prelude.{
  ℕ, Bool, true, false, List, [], ◌∷◌, ◌++◌, Option, none, some, Bytes, codes, ◌==◌, bytes_eq,
  if◌then◌else◌,
}
use nexus_erofs.FilePath.{join_path}
use nexus_erofs.Errors.{Error, Result, ok, err, wrap, is_not_implemented}
use nexus_erofs.Os.{World, Exec, pure, raise, attempt, wrapping, remove_all, read_dir, ◌>>=◌}
use nexus_erofs.Storage.{External, query, change, with_transaction}
use nexus_erofs.Snapshotter.Types.{
  Config, Kind, kind_unknown, kind_view, kind_active, kind_committed,
}
use nexus_erofs.Snapshotter.Paths.{
  block_rw_mount_path, snapshots_dir, rw_dir_name, glob_blobs, find_layer_blob,
}
use nexus_erofs.Snapshotter.Host.{set_immutable, unmount_all}

-- a look into the map of identifiers
unfoldable pub is_known : Bytes → List Bytes → Bool
is_known name [] = false
is_known name (id ∷ ids) = if id == name then true else is_known name ids

-- the loop of getCleanupDirectories
unfoldable pub unreferenced : Bytes → List Bytes → List Bytes → List Bytes
unfolding is_known
unreferenced dir ids [] = []
unreferenced dir ids (name ∷ names) =
    let rest = unreferenced dir ids names in
    if is_known name ids then rest else join_path (dir ∷ name ∷ []) ∷ rest

module _ {Meta : Type 0} where
  tolerate : Result (Unit {0}) → Exec Meta (Unit {0})
  tolerate (ok _) = pure tt
  tolerate (err e) = if is_not_implemented e then pure tt else raise (wrap "clear IMMUTABLE_FL" e)

  release_found : Result Bytes → Exec Meta (Unit {0})
  unfolding tolerate
  release_found (err _) = pure tt
  release_found (ok blob) = do cleared ← attempt (set_immutable blob false); tolerate cleared

  clear_each : List Bytes → Exec Meta (Unit {0})
  clear_each [] = pure tt
  clear_each (blob ∷ blobs) = do _ ← attempt (set_immutable blob false); clear_each blobs

  -- clearImmutableFlags
  unfoldable pub clear_immutable_flags : Bytes → Exec Meta (Unit {0})
  unfolding clear_each
  clear_immutable_flags dir = do
    by_digest ← glob_blobs dir (codes "sha256-")
    _ ← clear_each by_digest
    fallback ← glob_blobs dir (codes "snapshot-")
    clear_each fallback

  remove_each : List Bytes → Exec Meta (Unit {0})
  remove_each [] = pure tt
  remove_each (dir ∷ dirs) = do _ ← attempt (remove_all dir); remove_each dirs

module _ (E : External) (s : Config) where
  -- getCleanupDirectories
  unfoldable pub get_cleanup_directories : Exec E.Meta (List Bytes)
  unfolding unreferenced
  get_cleanup_directories = do
    ids ← wrapping "get snapshot ID map" (query E E.id_map)
    names ← wrapping "read snapshots directory" (read_dir (snapshots_dir s))
    pure (unreferenced (snapshots_dir s) ids names)

  release : Bytes → Kind → Exec E.Meta (Unit {0})
  unfolding release_found
  release id kind_committed = do found ← attempt (find_layer_blob s id); release_found found
  release id _ = pure tt

  -- the function of the transaction
  unfoldable pub remove_metadata : Bytes → Exec E.Meta (Bytes × List Bytes)
  unfolding release
  remove_metadata key = do
    removed ← wrapping "remove snapshot" (change E (E.remove_snapshot key))
    removals ← wrapping "get directories for removal" get_cleanup_directories
    _ ← release removed.0 removed.1
    pure (removed.0, removals)

  -- cleanupAfterRemove
  unfoldable pub cleanup_after_remove : Bytes → List Bytes → Exec E.Meta (Unit {0})
  unfolding remove_each
  cleanup_after_remove id removals = do
    _ ← attempt (unmount_all E (block_rw_mount_path s id))
    remove_each removals

  -- Remove
  unfoldable pub remove_snapshot : Bytes → Exec E.Meta (Unit {0})
  remove_snapshot key = do
    removed ← with_transaction E true (remove_metadata key)
    cleanup_after_remove removed.0 removed.1

  clean_each : List Bytes → Exec E.Meta (Unit {0})
  clean_each [] = pure tt
  clean_each (dir ∷ dirs) = do
    _ ← attempt (unmount_all E (join_path (dir ∷ rw_dir_name ∷ [])))
    _ ← clear_immutable_flags dir
    _ ← attempt (remove_all dir)
    clean_each dirs

  -- Cleanup
  unfoldable pub cleanup : Exec E.Meta (Unit {0})
  unfolding clean_each
  cleanup = do removals ← with_transaction E false get_cleanup_directories; clean_each removals
