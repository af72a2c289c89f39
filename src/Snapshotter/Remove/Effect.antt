-- ===== src/Snapshotter/Remove/Effect.antt =====
-- What a Remove that succeeds has done to the metadata.
use nexus_erofs.Prelude.{◌≡◌, true, Bytes, List, [], ◌∷◌}
use nexus_erofs.Errors.{Result, ok, err}
use nexus_erofs.Os.{World}
use nexus_erofs.Os.Keeps.{
  Keeps, the_meta, meta_rules, Keeps-bind, Keeps-pure, Keeps-attempt, Keeps-wrapping,
  remove_all-meta,
}
use nexus_erofs.Os.Post.{Post, Post-wrapping, Post-before}
use nexus_erofs.Storage.{External, IsTransactional, with_transaction}
use nexus_erofs.Storage.Effects.{with_transaction-ok, change-Post}
use nexus_erofs.Snapshotter.Types.{
  Config, Kind, kind_unknown, kind_view, kind_active, kind_committed,
}
use nexus_erofs.Snapshotter.Host.Untouched.{unmount_all-meta, set_immutable-meta}
use nexus_erofs.Snapshotter.Paths.Untouched.{find_layer_blob-meta}
use nexus_erofs.Storage.Untouched.{query-meta}
use nexus_erofs.Snapshotter.Remove.{
  tolerate, release_found, get_cleanup_directories, release, remove_metadata, remove_each,
  cleanup_after_remove, remove_snapshot,
}

module _ (E : External) (s : Config) where
  -- The entry of the key is removed.
  abbrev pub Removes : Bytes → E.Meta → E.Meta → Type 0
  Removes key before after =
      (removed : Bytes × Kind) × (E.remove_snapshot key before ≡ ok (removed, after))

  tolerate-meta : (r : Result (Unit {0})) → Keeps {Meta = E.Meta} the_meta (tolerate r)
  unfolding release_found
  tolerate-meta (ok _) = Keeps-pure tt
  tolerate-meta (err e) = search meta_rules

  release_found-meta : (r : Result Bytes) → Keeps {Meta = E.Meta} the_meta (release_found r)
  unfolding release_found
  release_found-meta (err _) = Keeps-pure tt
  release_found-meta (ok blob) = search (meta_rules, set_immutable-meta, tolerate-meta)

  release-meta : (id : Bytes) (kind : Kind) → Keeps the_meta (release E s id kind)
  unfolding release
  release-meta id kind_committed = search (meta_rules, find_layer_blob-meta, release_found-meta)
  release-meta id kind_unknown = Keeps-pure tt
  release-meta id kind_view = Keeps-pure tt
  release-meta id kind_active = Keeps-pure tt

  get_cleanup_directories-meta : Keeps the_meta (get_cleanup_directories E s)
  unfolding get_cleanup_directories
  get_cleanup_directories-meta = search (meta_rules, query-meta)

  remove_metadata-Removes :
      (key : Bytes)
      → Post
          (λ before _ after.
            (removed : Bytes × Kind) × (E.remove_snapshot key before ≡ ok (removed, after)))
          (remove_metadata E s key)
  unfolding remove_metadata
  remove_metadata-Removes key =
      Post-before (λ before removed after. E.remove_snapshot key before ≡ ok (removed, after)) _ _
        (Post-wrapping _ _ (change-Post E _))
        λ removed.
          Keeps-bind _ _ (Keeps-wrapping _ _ get_cleanup_directories-meta)
            λ removals. Keeps-bind _ _ (release-meta removed.0 removed.1) λ _. Keeps-pure _

  remove_each-meta : (dirs : List Bytes) → Keeps {Meta = E.Meta} the_meta (remove_each dirs)
  unfolding cleanup_after_remove
  remove_each-meta [] = Keeps-pure tt
  remove_each-meta (dir ∷ dirs) =
      Keeps-bind _ _ (Keeps-attempt _ (remove_all-meta dir)) λ _. remove_each-meta dirs

  transaction-Removes :
      IsTransactional E
      → (key : Bytes)
      → Post
          (λ before _ after. Removes key before after)
          (with_transaction E true (remove_metadata E s key))
  transaction-Removes T key = record {
    at = λ w r h.
        with_transaction-ok E T (λ _ before after. Removes key before after) _ w r
          ((remove_metadata-Removes key).at w r) h;
  }

  -- Given a transactional store: a Remove that succeeds has removed the entry of its key from the
  -- metadata.
  pub remove_snapshot-Removes :
      IsTransactional E
      → (key : Bytes) (w : World E.Meta) → (remove_snapshot E s key w).0 ≡ ok tt
      → Removes key w.meta (remove_snapshot E s key w).1.meta
  unfolding remove_snapshot cleanup_after_remove
  remove_snapshot-Removes T key w h =
      ((Post-before (λ before _ after. Removes key before after) _ _ (transaction-Removes T key)
          λ removed.
            Keeps-bind _ _ (Keeps-attempt _ (unmount_all-meta E _))
              λ _. remove_each-meta removed.1).at
        w tt h).1
