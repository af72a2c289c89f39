-- ===== src/Snapshotter/Paths/Free.antt =====
-- The search for a layer's blob adds no faults.
use nexus_erofs.Prelude.{Bytes, List, [], ◌∷◌}
use nexus_erofs.Errors.{Error, Result, ok, err}
use nexus_erofs.Os.Tree.{Node}
use nexus_erofs.Os.Free.{Free, free_rules, Free-pure, Free-raise}
use nexus_erofs.Snapshotter.Types.{Config}
use nexus_erofs.Snapshotter.Paths.{glob_blobs, choose_blob, found_fallback, find_layer_blob}

module _ {Meta : Type 0} where
  glob_blobs-Free : (dir prefix : Bytes) → Free {Meta = Meta} (glob_blobs dir prefix)
  unfolding glob_blobs
  glob_blobs-Free dir prefix = search free_rules

  found_fallback-Free :
      (p : Bytes) (e : Error) (r : Result Node) → Free {Meta = Meta} (found_fallback p e r)
  unfolding find_layer_blob
  found_fallback-Free p e (ok _) = Free-pure p
  found_fallback-Free p e (err _) = Free-raise e

  choose_blob-Free :
      (s : Config) (id : Bytes) (blobs : List Bytes) → Free {Meta = Meta} (choose_blob s id blobs)
  unfolding choose_blob
  choose_blob-Free s id [] = search (free_rules, found_fallback-Free)
  choose_blob-Free s id (b ∷ bs) = Free-pure b

  pub find_layer_blob-Free : (s : Config) (id : Bytes) → Free {Meta = Meta} (find_layer_blob s id)
  unfolding find_layer_blob
  find_layer_blob-Free s id = search (free_rules, glob_blobs-Free, choose_blob-Free)
