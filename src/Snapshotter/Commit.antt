-- ===== src/Snapshotter/Commit.antt =====
-- internal/snapshotter/commit.go: getCommitUpperDir, commitBlock and Commit.
pub mod Atomic
pub mod Effect
pub mod Untouched
use nexus_erofs.Prelude.{
  ℕ, Bool, true, false, not, List, [], ◌∷◌, ◌++◌, Option, none, some, Bytes, codes, if◌then◌else◌,
}
use nexus_erofs.Errors.{Error, Result, ok, err, commit_conversion, wrap}
use nexus_erofs.Os.{World, Exec, pure, raise, lift, attempt, wrapping, stat, read_dir, ◌>>=◌}
use nexus_erofs.Os.Tree.{Node}
use nexus_erofs.Storage.{External, Labels, query, change, with_transaction}
use nexus_erofs.Snapshotter.Types.{Config, Info, Usage}
use nexus_erofs.Snapshotter.Paths.{
  upper_path, writable_path, block_rw_mount_path, block_upper_path, fallback_layer_blob_path,
  find_layer_blob,
}
use nexus_erofs.Snapshotter.Host.{set_immutable, unmount_all, convert_dir_to_erofs}

-- the test of the entries of the mount point
mount_or_upper : Config → Bytes → Result (List Bytes) → Bytes
mount_or_upper s id (ok (_ ∷ _)) = block_rw_mount_path s id
mount_or_upper s id (ok []) = upper_path s id
mount_or_upper s id (err _) = upper_path s id

module _ {Meta : Type 0} (s : Config) (id : Bytes) where
  upper_or_more : Result Node → Exec Meta Bytes
  unfolding mount_or_upper
  upper_or_more (ok _) = pure (block_upper_path s id)
  upper_or_more (err _) = do
    entries ← attempt (read_dir (block_rw_mount_path s id))
    pure (mount_or_upper s id entries)

  block_or_upper : Result Node → Exec Meta Bytes
  unfolding upper_or_more
  block_or_upper (err _) = pure (upper_path s id)
  block_or_upper (ok _) = do upper ← attempt (stat (block_upper_path s id)); upper_or_more upper

  -- getCommitUpperDir
  unfoldable pub get_commit_upper_dir : Exec Meta Bytes
  unfolding block_or_upper
  get_commit_upper_dir = do layer ← attempt (stat (writable_path s id)); block_or_upper layer

module _ (E : External) (s : Config) where
  converted : Bytes → Bytes → Result (Unit {0}) → Result (Unit {0})
  converted id upper_dir (ok _) = ok tt
  converted id upper_dir (err e) = err (commit_conversion id upper_dir e)

  -- commitBlock
  unfoldable pub commit_block : Bytes → Bytes → Exec E.Meta (Unit {0})
  unfolding converted
  commit_block layer_blob id = do
    upper_dir ← get_commit_upper_dir s id
    outcome ← attempt (convert_dir_to_erofs E layer_blob upper_dir)
    lift (converted id upper_dir outcome)

  -- the blob that was found, or the one that the upper directory is converted to
  pub blob_or_convert : Bytes → Result Bytes → Exec E.Meta Bytes
  blob_or_convert id (ok blob) = pure blob
  blob_or_convert id (err _) = do
    _ ← wrapping "fallback conversion failed" (commit_block (fallback_layer_blob_path s id) id)
    pure (fallback_layer_blob_path s id)

  pub flag_if : Bool → Bytes → Exec E.Meta (Unit {0})
  flag_if false blob = pure tt
  flag_if true blob = do _ ← attempt (set_immutable blob true); pure tt

  -- isMounted of internal/snapshotter/snapshotter.go: any error means that it is not.
  mounted_result : Result Bool → Bool
  mounted_result (ok b) = b
  mounted_result (err _) = false

  unfoldable pub is_mounted : Bytes → Exec E.Meta Bool
  unfolding mounted_result
  is_mounted target = do
    mounted ← attempt (do _ ← stat target; (λ w. (E.is_mount_point target w.mounted, w)))
    pure (mounted_result mounted)

  unmount_if : Bool → Bytes → Exec E.Meta (Unit {0})
  unmount_if false target = pure tt
  unmount_if true target = do _ ← attempt (unmount_all E target); pure tt

  no_result : Result E.Meta → Result (Unit {0} × E.Meta)
  no_result (ok m) = ok (tt, m)
  no_result (err e) = err e

  -- the function of the write transaction
  unfoldable pub commit_metadata : Bytes → Bytes → Bytes → List Labels → Exec E.Meta (Unit {0})
  unfolding no_result
  commit_metadata blob name key opts = do
    _ ← wrapping "verify layer blob" (stat blob)
    usage ← wrapping "calculate disk usage" (λ w. (E.disk_usage blob w.files, w))
    wrapping "commit snapshot" (change E (λ m. no_result (E.commit_active key name usage opts m)))

  -- Commit
  unfoldable pub commit : Bytes → Bytes → List Labels → Exec E.Meta (Unit {0})
  unfolding blob_or_convert flag_if unmount_if
  commit name key opts = do
    info ← with_transaction E false (wrapping "get snapshot info" (query E (E.get_info key)))
    found ← attempt (find_layer_blob s info.0)
    blob ← blob_or_convert info.0 found
    _ ← flag_if s.set_immutable blob
    _ ← with_transaction E true (commit_metadata blob name key opts)
    mounted ← is_mounted (block_rw_mount_path s info.0)
    unmount_if mounted (block_rw_mount_path s info.0)
