-- ===== src/Snapshotter/FsMeta/Release.antt =====
-- The lock of a generation is released.
use nexus_erofs.Prelude.{
  ◌≡◌, refl, ap, ◌∙◌, Bool, true, false, Bytes, List, [], ◌∷◌, Option, none, arith, eq_refl,
  bytes_eq,
}
use nexus_erofs.Errors.{Result, ok, err}
use nexus_erofs.Os.{
  World, continue, pure, attempt, stat, create_exclusive, remove, system_call, ◌>>=◌,
}
use nexus_erofs.Os.Tree.{Node, lookup, lookup-erase}
use nexus_erofs.Os.Free.{
  Free, free_rules, Free-pure, Free-raise, Free-bind, stat-Free, create_exclusive-Free,
}
use nexus_erofs.Storage.{External}
use nexus_erofs.Erofs.BlockSize.Merge.{faults-can_merge_fsmeta}
use nexus_erofs.Snapshotter.Types.{Config}
use nexus_erofs.Snapshotter.Paths.{fsmeta_path}
use nexus_erofs.Snapshotter.Paths.Free.{find_layer_blob-Free}
use nexus_erofs.Storage.Untouched.{run_mkfs_erofs-Free}
use nexus_erofs.Snapshotter.FsMeta.{
  generate_fsmeta, unless_generated, locked, lock_path, generate, conclude, collect_blobs,
  check_merge, require_merge, renamed_or_undo, fix_vmdk_paths, write_layer_manifest, write_digests,
}

module _ {Meta : Type 0} where
  -- Behind a removal that is not refused, nothing stands at the path.
  remove-gone : (p : Bytes) (w : World Meta) → w.faults ≡ [] → lookup p (remove p w).1.files ≡ none
  unfolding remove system_call
  remove-gone p w h = ground (arith, lookup-erase p p w.files, eq_refl p)

  collect_blobs-Free : (s : Config) (ids : List Bytes) → Free {Meta = Meta} (collect_blobs s ids)
  unfolding collect_blobs
  collect_blobs-Free s [] = Free-pure []
  collect_blobs-Free s (id ∷ ids) =
      Free-bind _ _ (find_layer_blob-Free s id)
        λ blob. Free-bind _ _ (collect_blobs-Free s ids) λ rest. Free-pure _

  check_merge-Free : (blobs : List Bytes) → Free {Meta = Meta} (check_merge blobs)
  unfolding check_merge
  check_merge-Free blobs = record { at = faults-can_merge_fsmeta blobs }

  require_merge-Free : (b : Bool) → Free {Meta = Meta} (require_merge b)
  unfolding generate
  require_merge-Free true = Free-pure tt
  require_merge-Free false = Free-raise _

  renamed_or_undo-Free :
      (p : Bytes) (r : Result (Unit {0})) → Free {Meta = Meta} (renamed_or_undo p r)
  unfolding generate
  renamed_or_undo-Free p (ok _) = Free-pure tt
  renamed_or_undo-Free p (err e) = search free_rules

  fix_vmdk_paths-Free : (file old new : Bytes) → Free {Meta = Meta} (fix_vmdk_paths file old new)
  unfolding fix_vmdk_paths
  fix_vmdk_paths-Free file old new = search free_rules

  write_digests-Free : (file : Bytes) (ds : List Bytes) → Free {Meta = Meta} (write_digests file ds)
  unfolding write_layer_manifest
  write_digests-Free file [] = Free-pure tt
  write_digests-Free file (d ∷ ds) = search free_rules

  write_layer_manifest-Free :
      (parse : Bytes → Option Bytes) (file : Bytes) (blobs : List Bytes)
      → Free {Meta = Meta} (write_layer_manifest parse file blobs)
  unfolding write_layer_manifest
  write_layer_manifest-Free parse file blobs = write_digests-Free file _

module _ {Meta : Type 0} where
  create_exclusive-new :
      (p : Bytes) (w : World Meta)
      → w.faults ≡ []
      → lookup p w.files ≡ none
      → (create_exclusive p w).0 ≡ ok tt
  unfolding create_exclusive system_call
  create_exclusive-new p w h absent = ground arith

  stat-files : (p : Bytes) (w : World Meta) → (stat p w).1.files ≡ w.files
  unfolding stat system_call
  stat-files p w = ground arith

  behind-remove :
      (p : Bytes) (r : Result (Unit {0})) (v : World Meta)
      → v.faults ≡ []
      → r ≡ ok tt
      → lookup p (continue r (λ _. attempt (remove p) >>= λ _. pure tt) v).1.files ≡ none
  unfolding ◌>>=◌ attempt
  behind-remove p (ok _) v h e = remove-gone p v h
  behind-remove p (err d) v h e = absurd cc

module _ (E : External) (s : Config) where
  generate-Free : (newest : Bytes) (ids : List Bytes) → Free (generate E s newest ids)
  unfolding generate
  generate-Free newest ids =
      search
        (
          free_rules, collect_blobs-Free, check_merge-Free, require_merge-Free,
          renamed_or_undo-Free, fix_vmdk_paths-Free, run_mkfs_erofs-Free,
        )
        depth 20

  conclude-Free : (newest : Bytes) (r : Result (List Bytes)) → Free (conclude E s newest r)
  unfolding generate_fsmeta
  conclude-Free newest (ok blobs) = search (free_rules, write_layer_manifest-Free)
  conclude-Free newest (err e) = search free_rules

  conclude-ok :
      (newest : Bytes) (r : Result (List Bytes)) (v : World E.Meta)
      → (conclude E s newest r v).0 ≡ ok tt
  unfolding generate_fsmeta ◌>>=◌ attempt
  conclude-ok newest (ok blobs) v = refl
  conclude-ok newest (err e) v = refl

  locked-release :
      (newest : Bytes) (ids : List Bytes) (r : Result (Unit {0})) (v : World E.Meta)
      → v.faults ≡ []
      → r ≡ ok tt
      → lookup (lock_path s newest) (locked E s newest ids r v).1.files ≡ none
  unfolding locked ◌>>=◌ attempt
  locked-release newest ids (ok _) v h e =
      let (outcome, u) = generate E s newest ids v in
      behind-remove (lock_path s newest) (conclude E s newest outcome u).0
        (conclude E s newest outcome u).1
        ((conclude-Free newest outcome).at u ((generate-Free newest ids).at v h))
        (conclude-ok newest outcome u)
  locked-release newest ids (err d) v h e = absurd cc

  unless_generated-release :
      (newest : Bytes) (ids : List Bytes) (found : Result Node) (v : World E.Meta)
      → v.faults ≡ []
      → lookup (lock_path s newest) v.files ≡ none
      → lookup (lock_path s newest) (unless_generated E s newest ids found v).1.files ≡ none
  unfolding generate_fsmeta ◌>>=◌ attempt
  unless_generated-release newest ids (ok m) v h absent = absent
  unless_generated-release newest ids (err e) v h absent =
      locked-release newest ids _ _ ((create_exclusive-Free (lock_path s newest)).at v h)
        (create_exclusive-new (lock_path s newest) v h absent)

  -- While no call is refused, a generation that starts without a lock file leaves none behind,
  -- whether it succeeds or fails at any of its steps.
  pub generate_fsmeta-release :
      (newest : Bytes) (others : List Bytes) (w : World E.Meta)
      → w.faults ≡ []
      → lookup (lock_path s newest) w.files ≡ none
      → lookup (lock_path s newest) (generate_fsmeta E s (newest ∷ others) w).1.files ≡ none
  unfolding generate_fsmeta ◌>>=◌ attempt
  generate_fsmeta-release newest others w h absent =
      unless_generated-release newest (newest ∷ others) _ _
        ((stat-Free (fsmeta_path s newest)).at w h)
        (ap (lookup (lock_path s newest)) (stat-files (fsmeta_path s newest) w) ∙ absent)
