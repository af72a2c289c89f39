-- ===== src/Snapshotter/FsMeta/Untouched.antt =====
-- A generation of merged metadata leaves the metadata store alone: generateFsMeta of
-- internal/snapshotter/commit.go works on files only.
use nexus_erofs.Prelude.{◌≡◌, refl, arith, Bool, true, false, List, [], ◌∷◌, Bytes, Option}
use nexus_erofs.Errors.{Result, ok, err}
use nexus_erofs.Os.Keeps.{
  Keeps, the_meta, meta_rules, system_call-meta, Keeps-pure, Keeps-raise, Keeps-bind,
}
use nexus_erofs.Os.Tree.{Node}
use nexus_erofs.Os.{World, wrapping, read_file, system_call}
use nexus_erofs.Storage.{External, run_mkfs_erofs}
use nexus_erofs.Erofs.BlockSize.{can_merge_fsmeta, get_block_size}
use nexus_erofs.Snapshotter.Types.{Config}
use nexus_erofs.Snapshotter.Paths.Untouched.{find_layer_blob-meta}
use nexus_erofs.Snapshotter.FsMeta.{
  fix_vmdk_paths, write_digests, write_layer_manifest, collect_blobs, require_merge, check_merge,
  renamed_or_undo, generate, conclude, locked, unless_generated, generate_fsmeta,
}

module _ {Meta : Type 0} where
  get_block_size-state : (p : Bytes) (w : World Meta) → (get_block_size p w).1.meta ≡ w.meta
  unfolding get_block_size wrapping read_file system_call
  get_block_size-state p w = ground arith

  can_merge-state :
      (paths : List Bytes) (w : World Meta) → (can_merge_fsmeta paths w).1.meta ≡ w.meta
  unfolding can_merge_fsmeta
  can_merge-state [] w = refl
  can_merge-state (p ∷ paths) w =
      ground (arith, get_block_size-state p w, can_merge-state paths (get_block_size p w).1)

  check_merge-meta : (blobs : List Bytes) → Keeps {Meta = Meta} the_meta (check_merge blobs)
  unfolding check_merge
  check_merge-meta blobs = record { at = can_merge-state blobs }

  collect_blobs-meta :
      (s : Config) (ids : List Bytes) → Keeps {Meta = Meta} the_meta (collect_blobs s ids)
  unfolding collect_blobs
  collect_blobs-meta s [] = Keeps-pure _
  collect_blobs-meta s (id ∷ ids) =
      Keeps-bind _ _ (find_layer_blob-meta s id)
        λ blob. Keeps-bind _ _ (collect_blobs-meta s ids) λ rest. Keeps-pure _

  require_merge-meta : (b : Bool) → Keeps {Meta = Meta} the_meta (require_merge b)
  unfolding generate
  require_merge-meta true = Keeps-pure _
  require_merge-meta false = Keeps-raise _

  fix_vmdk_paths-meta : (f o n : Bytes) → Keeps {Meta = Meta} the_meta (fix_vmdk_paths f o n)
  unfolding fix_vmdk_paths
  fix_vmdk_paths-meta f o n = search meta_rules

  write_digests-meta :
      (f : Bytes) (ds : List Bytes) → Keeps {Meta = Meta} the_meta (write_digests f ds)
  unfolding write_layer_manifest
  write_digests-meta f [] = Keeps-pure _
  write_digests-meta f (d ∷ ds) = search meta_rules

  write_layer_manifest-meta :
      (parse : Bytes → Option Bytes) (f : Bytes) (blobs : List Bytes)
      → Keeps {Meta = Meta} the_meta (write_layer_manifest parse f blobs)
  unfolding write_layer_manifest
  write_layer_manifest-meta parse f blobs = write_digests-meta f _

  renamed_or_undo-meta :
      (f : Bytes) (r : Result (Unit {0})) → Keeps {Meta = Meta} the_meta (renamed_or_undo f r)
  unfolding generate
  renamed_or_undo-meta f (ok _) = Keeps-pure _
  renamed_or_undo-meta f (err e) = search meta_rules

module _ (E : External) (s : Config) where
  mkfs_erofs-meta : (args : List Bytes) → Keeps the_meta (run_mkfs_erofs E args)
  unfolding run_mkfs_erofs
  mkfs_erofs-meta args = system_call-meta _ (record { at = λ w. ground arith })

  generate-meta :
      (newest : Bytes) (parent_ids : List Bytes) → Keeps the_meta (generate E s newest parent_ids)
  unfolding generate
  generate-meta newest parent_ids =
      search
        (
          meta_rules, collect_blobs-meta, check_merge-meta, require_merge-meta, mkfs_erofs-meta,
          fix_vmdk_paths-meta, renamed_or_undo-meta,
        )
        depth 20

  conclude-meta :
      (newest : Bytes) (r : Result (List Bytes)) → Keeps the_meta (conclude E s newest r)
  unfolding generate_fsmeta
  conclude-meta newest (ok blobs) = search (meta_rules, write_layer_manifest-meta)
  conclude-meta newest (err e) = search meta_rules

  locked-meta :
      (newest : Bytes) (parent_ids : List Bytes) (r : Result (Unit {0}))
      → Keeps the_meta (locked E s newest parent_ids r)
  unfolding generate_fsmeta
  locked-meta newest parent_ids (ok _) = search (meta_rules, generate-meta, conclude-meta)
  locked-meta newest parent_ids (err e) = search meta_rules

  unless_generated-meta :
      (newest : Bytes) (parent_ids : List Bytes) (r : Result Node)
      → Keeps the_meta (unless_generated E s newest parent_ids r)
  unfolding generate_fsmeta
  unless_generated-meta newest parent_ids (ok _) = Keeps-pure _
  unless_generated-meta newest parent_ids (err e) = search (meta_rules, locked-meta)

  pub generate_fsmeta-meta : (chain : List Bytes) → Keeps the_meta (generate_fsmeta E s chain)
  unfolding generate_fsmeta
  generate_fsmeta-meta [] = Keeps-pure _
  generate_fsmeta-meta (newest ∷ others) = search (meta_rules, unless_generated-meta)
