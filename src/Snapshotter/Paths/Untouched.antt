-- ===== src/Snapshotter/Paths/Untouched.antt =====
-- The search for a layer's blob leaves the metadata alone.
use nexus_erofs.Prelude.{Bytes, List, [], ◌∷◌}
use nexus_erofs.Errors.{Error, Result, ok, err}
use nexus_erofs.Os.Tree.{Node}
use nexus_erofs.Os.Keeps.{Keeps, the_meta, meta_rules, Keeps-pure, Keeps-raise}
use nexus_erofs.Snapshotter.Types.{Config}
use nexus_erofs.Snapshotter.Paths.{
  glob_blobs, choose_blob, found_fallback, find_layer_blob, lower_path,
}

module _ {Meta : Type 0} where
  pub glob_blobs-meta : (dir prefix : Bytes) → Keeps {Meta = Meta} the_meta (glob_blobs dir prefix)
  unfolding glob_blobs
  glob_blobs-meta dir prefix = search meta_rules

  found_fallback-meta :
      (p : Bytes) (e : Error) (r : Result Node)
      → Keeps {Meta = Meta} the_meta (found_fallback p e r)
  unfolding find_layer_blob
  found_fallback-meta p e (ok _) = Keeps-pure p
  found_fallback-meta p e (err _) = Keeps-raise e

  choose_blob-meta :
      (s : Config) (id : Bytes) (blobs : List Bytes)
      → Keeps {Meta = Meta} the_meta (choose_blob s id blobs)
  unfolding choose_blob
  choose_blob-meta s id [] = search (meta_rules, found_fallback-meta)
  choose_blob-meta s id (b ∷ bs) = Keeps-pure b

  pub find_layer_blob-meta :
      (s : Config) (id : Bytes) → Keeps {Meta = Meta} the_meta (find_layer_blob s id)
  unfolding find_layer_blob
  find_layer_blob-meta s id = search (meta_rules, glob_blobs-meta, choose_blob-meta)

  pub lower_path-meta : (s : Config) (id : Bytes) → Keeps {Meta = Meta} the_meta (lower_path s id)
  unfolding lower_path
  lower_path-meta s id = search (meta_rules, find_layer_blob-meta)
