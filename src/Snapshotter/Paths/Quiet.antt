-- ===== src/Snapshotter/Paths/Quiet.antt =====
-- The search for a layer's blob only reads.
use nexus_erofs.Prelude.{Bytes, List, [], ◌∷◌}
use nexus_erofs.Errors.{Error, Result, ok, err}
use nexus_erofs.Os.Tree.{Node}
use nexus_erofs.Os.Quiet.{Quiet, quiet_rules, Quiet-pure, Quiet-raise}
use nexus_erofs.Snapshotter.Types.{Config}
use nexus_erofs.Snapshotter.Paths.{glob_blobs, choose_blob, found_fallback, find_layer_blob}

module _ {Meta : Type 0} where
  glob_blobs-Quiet : (dir prefix : Bytes) → Quiet {Meta = Meta} (glob_blobs dir prefix)
  unfolding glob_blobs
  glob_blobs-Quiet dir prefix = search quiet_rules

  found_fallback-Quiet :
      (p : Bytes) (e : Error) (r : Result Node) → Quiet {Meta = Meta} (found_fallback p e r)
  unfolding find_layer_blob
  found_fallback-Quiet p e (ok _) = Quiet-pure p
  found_fallback-Quiet p e (err _) = Quiet-raise e

  choose_blob-Quiet :
      (s : Config) (id : Bytes) (blobs : List Bytes) → Quiet {Meta = Meta} (choose_blob s id blobs)
  unfolding choose_blob
  choose_blob-Quiet s id [] = search (quiet_rules, found_fallback-Quiet)
  choose_blob-Quiet s id (b ∷ bs) = Quiet-pure b

  pub find_layer_blob-Quiet : (s : Config) (id : Bytes) → Quiet {Meta = Meta} (find_layer_blob s id)
  unfolding find_layer_blob
  find_layer_blob-Quiet s id = search (quiet_rules, glob_blobs-Quiet, choose_blob-Quiet)
