-- ===== src/Snapshotter/Commit/Untouched.antt =====
-- The conversion that precedes a commit leaves the metadata alone.
use nexus_erofs.Prelude.{Bool, true, false, Bytes}
use nexus_erofs.Errors.{Result, ok, err}
use nexus_erofs.Os.Tree.{Node}
use nexus_erofs.Os.Keeps.{Keeps, the_meta, meta_rules}
use nexus_erofs.Storage.{External}
use nexus_erofs.Snapshotter.Types.{Config}
use nexus_erofs.Snapshotter.Host.Untouched.{set_immutable-meta, convert_dir_to_erofs-meta}
use nexus_erofs.Snapshotter.Commit.{
  get_commit_upper_dir, block_or_upper, upper_or_more, commit_block, blob_or_convert, flag_if,
}

module _ {Meta : Type 0} (s : Config) (id : Bytes) where
  upper_or_more-meta : (r : Result Node) → Keeps {Meta = Meta} the_meta (upper_or_more s id r)
  unfolding upper_or_more
  upper_or_more-meta (ok _) = search meta_rules
  upper_or_more-meta (err _) = search meta_rules

  block_or_upper-meta : (r : Result Node) → Keeps {Meta = Meta} the_meta (block_or_upper s id r)
  unfolding block_or_upper
  block_or_upper-meta (err _) = search meta_rules
  block_or_upper-meta (ok _) = search (meta_rules, upper_or_more-meta)

  get_commit_upper_dir-meta : Keeps {Meta = Meta} the_meta (get_commit_upper_dir s id)
  unfolding get_commit_upper_dir
  get_commit_upper_dir-meta = search (meta_rules, block_or_upper-meta)

module _ (E : External) (s : Config) where
  commit_block-meta : (blob id : Bytes) → Keeps the_meta (commit_block E s blob id)
  unfolding commit_block
  commit_block-meta blob id =
      search (meta_rules, get_commit_upper_dir-meta, convert_dir_to_erofs-meta)

  pub blob_or_convert-meta :
      (id : Bytes) (r : Result Bytes) → Keeps the_meta (blob_or_convert E s id r)
  unfolding blob_or_convert
  blob_or_convert-meta id (ok blob) = search meta_rules
  blob_or_convert-meta id (err _) = search (meta_rules, commit_block-meta)

  pub flag_if-meta : (b : Bool) (blob : Bytes) → Keeps the_meta (flag_if E s b blob)
  unfolding flag_if
  flag_if-meta false blob = search meta_rules
  flag_if-meta true blob = search (meta_rules, set_immutable-meta)
