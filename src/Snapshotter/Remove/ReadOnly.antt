-- ===== src/Snapshotter/Remove/ReadOnly.antt =====
-- Cleanup leaves the metadata alone.
use nexus_erofs.Prelude.{◌≡◌, Bytes, List, [], ◌∷◌}
use nexus_erofs.Os.{World}
use nexus_erofs.Os.Keeps.{Keeps, the_meta, meta_rules, Keeps-pure, Keeps-bind}
use nexus_erofs.Storage.{External, IsTransactional}
use nexus_erofs.Storage.Transactions.{with_transaction-meta}
use nexus_erofs.Snapshotter.Types.{Config}
use nexus_erofs.Snapshotter.Paths.Untouched.{glob_blobs-meta}
use nexus_erofs.Snapshotter.Host.Untouched.{set_immutable-meta, unmount_all-meta}
use nexus_erofs.Snapshotter.Remove.{clear_immutable_flags, clear_each, clean_each, cleanup}

module _ {Meta : Type 0} where
  clear_each-meta : (blobs : List Bytes) → Keeps {Meta = Meta} the_meta (clear_each blobs)
  unfolding clear_each
  clear_each-meta [] = Keeps-pure tt
  clear_each-meta (b ∷ bs) =
      Keeps-bind _ _ (search (meta_rules, set_immutable-meta)) λ _. clear_each-meta bs

  clear_immutable_flags-meta :
      (dir : Bytes) → Keeps {Meta = Meta} the_meta (clear_immutable_flags dir)
  unfolding clear_immutable_flags
  clear_immutable_flags-meta dir = search (meta_rules, glob_blobs-meta, clear_each-meta) depth 12

module _ (E : External) (s : Config) where
  clean_each-meta : (dirs : List Bytes) → Keeps the_meta (clean_each E s dirs)
  unfolding clean_each
  clean_each-meta [] = Keeps-pure tt
  clean_each-meta (d ∷ ds) = Keeps-bind _ _ (search (meta_rules, unmount_all-meta)) λ _.
      Keeps-bind _ _ (clear_immutable_flags-meta d)
        λ _. Keeps-bind _ _ (search meta_rules) λ _. clean_each-meta ds

  module _ (T : IsTransactional E) where
    cleanup-Keeps : Keeps the_meta (cleanup E s)
    unfolding cleanup
    cleanup-Keeps = Keeps-bind _ _ (with_transaction-meta E T _) (clean_each-meta)

    -- Given that the metadata store is transactional: Cleanup changes no metadata, whatever it
    -- removes and whether it fails or not.
    pub cleanup-meta : (w : World E.Meta) → (cleanup E s w).1.meta ≡ w.meta
    cleanup-meta = cleanup-Keeps.at
