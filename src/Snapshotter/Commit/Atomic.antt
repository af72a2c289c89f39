-- ===== src/Snapshotter/Commit/Atomic.antt =====
-- Commit changes the metadata only when it succeeds.
use nexus_erofs.Prelude.{Bool, true, false, Bytes, List, ◌≡◌}
use nexus_erofs.Errors.{Error, err}
use nexus_erofs.Os.{World}
use nexus_erofs.Os.Keeps.{Keeps-attempt}
use nexus_erofs.Storage.{External, IsTransactional, Labels}
use nexus_erofs.Storage.Transactions.{
  FailsClean, NeverFails, FailsClean-bind, FailsClean-last, NeverFails-bind, NeverFails-pure,
  NeverFails-attempt, with_transaction-FailsClean, with_transaction-meta,
}
use nexus_erofs.Snapshotter.Types.{Config}
use nexus_erofs.Snapshotter.Paths.{block_rw_mount_path}
use nexus_erofs.Snapshotter.Paths.Untouched.{find_layer_blob-meta}
use nexus_erofs.Snapshotter.Commit.{commit, is_mounted, unmount_if}
use nexus_erofs.Snapshotter.Commit.Untouched.{blob_or_convert-meta, flag_if-meta}

module _ (E : External) (s : Config) where
  unmount_if-NeverFails : (b : Bool) (target : Bytes) → NeverFails (unmount_if E s b target)
  unfolding unmount_if
  unmount_if-NeverFails false target = NeverFails-pure tt
  unmount_if-NeverFails true target =
      NeverFails-bind _ _ (NeverFails-attempt _) (λ _. NeverFails-pure tt)

  is_mounted-NeverFails : (target : Bytes) → NeverFails (is_mounted E s target)
  unfolding is_mounted
  is_mounted-NeverFails target = NeverFails-bind _ _ (NeverFails-attempt _) (λ _. NeverFails-pure _)

  module _ (T : IsTransactional E) where
    commit-FailsClean :
        (name key : Bytes) (opts : List Labels) → FailsClean (commit E s name key opts)
    unfolding commit
    commit-FailsClean name key opts = FailsClean-bind _ _ (with_transaction-meta E T _) λ info.
        FailsClean-bind _ _ (Keeps-attempt _ (find_layer_blob-meta s info.0)) λ found.
          FailsClean-bind _ _ (blob_or_convert-meta E s info.0 found) λ blob.
            FailsClean-bind _ _ (flag_if-meta E s s.set_immutable blob) λ _.
              FailsClean-last _ _ (with_transaction-FailsClean E T _) λ _.
                NeverFails-bind _ _ (is_mounted-NeverFails (block_rw_mount_path s info.0))
                  λ mounted. unmount_if-NeverFails mounted (block_rw_mount_path s info.0)

    -- Given that the metadata store is transactional: when Commit returns an error, whatever call
    -- has failed and whatever layer has been converted, the metadata is what it was before.
    pub commit_atomic :
        (name key : Bytes) (opts : List Labels) (w : World E.Meta) (e : Error)
        → (commit E s name key opts w).0 ≡ err e
        → (commit E s name key opts w).1.meta ≡ w.meta
    commit_atomic name key opts = (commit-FailsClean name key opts).at
