-- ===== src/Snapshotter/Remove/Atomic.antt =====
-- Remove changes the metadata only when it succeeds.
use nexus_erofs.Prelude.{Bytes, List, [], ◌∷◌}
use nexus_erofs.Prelude.{◌≡◌}
use nexus_erofs.Errors.{Error, err}
use nexus_erofs.Os.{World}
use nexus_erofs.Storage.{External, IsTransactional}
use nexus_erofs.Storage.Transactions.{
  FailsClean, NeverFails, FailsClean-last, NeverFails-bind, NeverFails-pure, NeverFails-attempt,
  with_transaction-FailsClean,
}
use nexus_erofs.Snapshotter.Types.{Config}
use nexus_erofs.Snapshotter.Remove.{remove_snapshot, cleanup_after_remove, remove_each}

remove_each-NeverFails :
    {Meta : Type 0} (dirs : List Bytes) → NeverFails {Meta = Meta} (remove_each dirs)
unfolding remove_each
remove_each-NeverFails [] = NeverFails-pure tt
remove_each-NeverFails (dir ∷ dirs) =
    NeverFails-bind _ _ (NeverFails-attempt _) (λ _. remove_each-NeverFails dirs)

module _ (E : External) (s : Config) where
  cleanup_after_remove-NeverFails :
      (id : Bytes) (removals : List Bytes) → NeverFails (cleanup_after_remove E s id removals)
  unfolding cleanup_after_remove
  cleanup_after_remove-NeverFails id removals =
      NeverFails-bind _ _ (NeverFails-attempt _) (λ _. remove_each-NeverFails removals)

  module _ (T : IsTransactional E) where
    remove_snapshot-FailsClean : (key : Bytes) → FailsClean (remove_snapshot E s key)
    unfolding remove_snapshot
    remove_snapshot-FailsClean key =
        FailsClean-last _ _ (with_transaction-FailsClean E T _)
          (λ removed. cleanup_after_remove-NeverFails removed.0 removed.1)

    -- Given that the metadata store is transactional: when Remove returns an error, the metadata is
    -- what it was before, although the entry was removed before the directories were read and the
    -- flag was cleared.
    pub remove_snapshot_atomic :
        (key : Bytes) (w : World E.Meta) (e : Error)
        → (remove_snapshot E s key w).0 ≡ err e
        → (remove_snapshot E s key w).1.meta ≡ w.meta
    remove_snapshot_atomic key = (remove_snapshot-FailsClean key).at
