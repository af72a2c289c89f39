-- ===== src/Snapshotter/Host.antt =====
-- internal/snapshotter/snapshotter_linux.go: calls of the host's kernel.
pub mod Free
pub mod Untouched
use nexus_erofs.Prelude.{
  ℕ, Bool, true, false, not, ◌&&◌, List, [], ◌∷◌, ◌++◌, Option, none, some, Bytes, codes, ◌==◌,
  bytes_eq, if◌then◌else◌,
}
use nexus_erofs.FilePath.{join_path}
use nexus_erofs.Errors.{Error, Result, ok, err, message, wrap, is_not_mount_error}
use nexus_erofs.Mount.{Mount}
use nexus_erofs.Os.{
  World, Exec, pure, raise, lift, attempt, wrapping, system_call, stat, mkdir_all, read_dir,
  remove_all, ◌>>=◌,
}
use nexus_erofs.Storage.{
  External, IsTransactional, Labels, query, unmount, mount_at, with_transaction,
}
use nexus_erofs.Erofs.Convert.{convert_erofs}
use nexus_erofs.Snapshotter.Types.{Config, Info}
use nexus_erofs.Snapshotter.Paths.{
  writable_path, block_rw_mount_path, block_upper_path, snapshots_dir,
}
use nexus_erofs.Snapshotter.Mounts.{mount_of}

-- `newattr`, and the test whether it is `oldattr`: the flag is set, or it is cleared
member : Bytes → List Bytes → Bool
member p [] = false
member p (q ∷ qs) = if q == p then true else member p qs

without : Bytes → List Bytes → List Bytes
without p [] = []
without p (q ∷ qs) = let rest = without p qs in if q == p then rest else q ∷ rest

module _ {Meta : Type 0} where
  -- the ioctl that writes the flags
  write_flag : Bytes → Bool → Exec Meta (Unit {0})
  unfolding without
  write_flag path true = system_call λ w. (ok tt, record w { immutable = path ∷ w.immutable })
  write_flag path false =
      system_call λ w. (ok tt, record w { immutable = without path w.immutable })

  set_flag : Bytes → Bool → Bool → Exec Meta (Unit {0})
  unfolding write_flag
  set_flag path true true = pure tt
  set_flag path true false = write_flag path true
  set_flag path false true = write_flag path false
  set_flag path false false = pure tt

  -- the ioctl that reads the flags
  unfoldable pub read_flag : Bytes → Exec Meta Bool
  unfolding member
  read_flag path = system_call λ w. (ok (member path w.immutable), w)

  -- setImmutable
  unfoldable pub set_immutable : Bytes → Bool → Exec Meta (Unit {0})
  unfolding set_flag read_flag
  set_immutable path enable = do
    _ ← wrapping "failed to open" (stat path)
    flagged ← wrapping "error getting inode flags" (read_flag path)
    set_flag path enable flagged

  -- syncFile: Open, and Sync, which may be refused
  unfoldable pub sync_file : Bytes → Exec Meta (Unit {0})
  sync_file path = do _ ← stat path; system_call λ w. (ok tt, w)

  remove_entries : Bytes → List Bytes → Exec Meta (Unit {0})
  remove_entries dir [] = pure tt
  remove_entries dir (d ∷ ds) = do
    _ ← attempt (remove_all (join_path (dir ∷ d ∷ [])))
    remove_entries dir ds

module _ (E : External) where
  lazy_result : Error → Result (Unit {0}) → Result (Unit {0})
  lazy_result e (ok _) = ok tt
  lazy_result e (err d) =
      if is_not_mount_error d
      then ok tt
      else err (wrap "unmount failed (lazy unmount also failed)" e)

  unmount_again : Bytes → Result (Unit {0}) → Exec E.Meta (Unit {0})
  unfolding lazy_result
  unmount_again target (ok _) = pure tt
  unmount_again target (err e) =
      if is_not_mount_error e
      then pure tt
      else do detached ← attempt (unmount E target true); lift (lazy_result e detached)

  -- unmountAll
  unfoldable pub unmount_all : Bytes → Exec E.Meta (Unit {0})
  unfolding unmount_again
  unmount_all target = do
    unmounted ← attempt (unmount E target false)
    unmount_again target unmounted

  -- convertDirToErofs
  unfoldable pub convert_dir_to_erofs : Bytes → Bytes → Exec E.Meta (Unit {0})
  unfolding remove_entries
  convert_dir_to_erofs layer_blob upper_dir = do
    _ ← convert_erofs E layer_blob upper_dir []
    _ ← wrapping "failed to sync layer blob" (sync_file layer_blob)
    dirs ← read_dir upper_dir
    remove_entries upper_dir dirs

  -- upperDirectoryPermission: Stat of the parent, and Lchown
  unfoldable pub upper_directory_permission : Bytes → Bytes → Exec E.Meta (Unit {0})
  upper_directory_permission p parent = do
    _ ← wrapping "failed to stat parent" (stat parent)
    _ ← wrapping "failed to chown" (stat p)
    pure tt

  made_or_unmount : Config → Bytes → Result (Unit {0}) → Exec E.Meta (Unit {0})
  made_or_unmount s id (ok _) = pure tt
  made_or_unmount s id (err e) = do
    _ ← attempt (unmount_all (block_rw_mount_path s id))
    raise (wrap "failed to create directory" e)

  -- mountBlockRwLayer
  unfoldable pub mount_block_rw_layer : Config → Bytes → Exec E.Meta (Unit {0})
  unfolding made_or_unmount
  mount_block_rw_layer s id = do
    _ ← wrapping "failed to create rw mount point" (mkdir_all (block_rw_mount_path s id))
    _ ← wrapping "failed to mount ext4 layer" (
        mount_at E (mount_of (codes "ext4") (writable_path s id) (codes "rw" ∷ codes "loop" ∷ []))
          (block_rw_mount_path s id))
    upper ← attempt (mkdir_all (block_upper_path s id))
    _ ← made_or_unmount s id upper
    work ← attempt (mkdir_all (join_path (block_rw_mount_path s id ∷ codes "work" ∷ [])))
    made_or_unmount s id work
