-- ===== src/Snapshotter/Commit/Effect.antt =====
-- What a Commit that succeeds has done to the metadata.
use nexus_erofs.Prelude.{◌≡◌, refl, Bool, true, false, Bytes, List}
use nexus_erofs.Errors.{Result, ok, err}
use nexus_erofs.Os.{World}
use nexus_erofs.Os.Keeps.{
  Keeps, the_meta, meta_rules, Keeps-bind, Keeps-pure, Keeps-attempt, Keeps-wrapping, stat-meta,
}
use nexus_erofs.Os.Post.{Post, Post-wrapping, Post-behind, Post-before}
use nexus_erofs.Storage.{External, IsTransactional, Labels, with_transaction}
use nexus_erofs.Storage.Effects.{with_transaction-ok, change-Post}
use nexus_erofs.Storage.Transactions.{with_transaction-meta}
use nexus_erofs.Snapshotter.Types.{Config, Usage}
use nexus_erofs.Snapshotter.Paths.{block_rw_mount_path}
use nexus_erofs.Snapshotter.Paths.Untouched.{find_layer_blob-meta}
use nexus_erofs.Snapshotter.Host.Untouched.{unmount_all-meta}
use nexus_erofs.Snapshotter.Commit.{commit, commit_metadata, no_result, is_mounted, unmount_if}
use nexus_erofs.Snapshotter.Commit.Untouched.{blob_or_convert-meta, flag_if-meta}

module _ (E : External) (s : Config) where
  -- The snapshot of the key is committed under the name, with some usage.
  abbrev pub Commits : Bytes → Bytes → List Labels → E.Meta → E.Meta → Type 0
  Commits name key opts before after =
      (usage : Usage) × (E.commit_active key name usage opts before ≡ ok after)

  no_result-ok : (r : Result E.Meta) (m : E.Meta) → no_result E s r ≡ ok (tt, m) → r ≡ ok m
  unfolding commit_metadata
  no_result-ok (ok n) m h = cc
  no_result-ok (err e) m h = absurd cc

  commit_metadata-Commits :
      (blob name key : Bytes) (opts : List Labels)
      → Post
          (λ before _ after. Commits name key opts before after)
          (commit_metadata E s blob name key opts)
  unfolding commit_metadata
  commit_metadata-Commits blob name key opts = Post-behind _ _ _ (search meta_rules) λ _.
      Post-behind _ _ _ (Keeps-wrapping _ _ (record { at = λ w. refl })) λ usage. record {
        at = λ w u h. (usage, no_result-ok _ _ ((Post-wrapping _ _ (change-Post E _)).at w u h));
      }

  mounted_result-meta : (target : Bytes) → Keeps the_meta (is_mounted E s target)
  unfolding is_mounted
  mounted_result-meta target =
      Keeps-bind _ _
        (Keeps-attempt _ (Keeps-bind _ _ (stat-meta target) λ n. record { at = λ w. refl }))
        λ mounted. Keeps-pure _

  unmount_if-meta : (b : Bool) (target : Bytes) → Keeps the_meta (unmount_if E s b target)
  unfolding unmount_if
  unmount_if-meta false target = Keeps-pure tt
  unmount_if-meta true target =
      Keeps-bind _ _ (Keeps-attempt _ (unmount_all-meta E target)) λ _. Keeps-pure tt

  -- Given a transactional store: a Commit that succeeds has committed the snapshot in the metadata.
  pub commit-Commits :
      IsTransactional E
      → (name key : Bytes) (opts : List Labels) (w : World E.Meta)
      → (commit E s name key opts w).0 ≡ ok tt
      → Commits name key opts w.meta (commit E s name key opts w).1.meta
  commit-Commits T name key opts w h = (steps.at w tt h).1
    where
      transaction :
          (blob : Bytes)
          → Post
              (λ before _ after. Commits name key opts before after)
              (with_transaction E true (commit_metadata E s blob name key opts))
      transaction blob = record {
        at = λ v u done.
            with_transaction-ok E T (λ _ before after. Commits name key opts before after) _ v u
              ((commit_metadata-Commits blob name key opts).at v u) done;
      }

      steps :
          Post
            (λ before _ after. (u : Unit {0}) × Commits name key opts before after)
            (commit E s name key opts)
      steps =
          unfold commit in
          Post-behind _ _ _ (with_transaction-meta E T _) λ info.
            Post-behind _ _ _ (Keeps-attempt _ (find_layer_blob-meta s info.0)) λ found.
              Post-behind _ _ _ (blob_or_convert-meta E s info.0 found) λ blob.
                Post-behind _ _ _ (flag_if-meta E s s.set_immutable blob) λ _.
                  Post-before _ _ _ (transaction blob) λ _.
                    Keeps-bind _ _ (mounted_result-meta (block_rw_mount_path s info.0))
                      λ mounted. unmount_if-meta mounted (block_rw_mount_path s info.0)
