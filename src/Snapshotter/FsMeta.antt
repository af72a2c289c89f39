-- ===== src/Snapshotter/FsMeta.antt =====
-- internal/snapshotter/commit.go: generateFsMeta, fixVmdkPaths and writeLayerManifest.
pub mod Lock
pub mod Untouched
pub mod Release
pub mod DeviceOrder
use nexus_erofs.Prelude.{
  ℕ, Bool, true, false, not, List, [], ◌∷◌, ◌++◌, map, Option, none, some, Bytes, codes, ◌==◌,
  bytes_eq, if◌then◌else◌,
}
use nexus_erofs.Strings.{replace_all, join}
use nexus_erofs.Errors.{Error, Result, ok, err, message}
use nexus_erofs.Os.{
  World, Exec, pure, raise, attempt, wrapping, stat, create_exclusive, remove, rename, read_file,
  write_file, ◌>>=◌,
}
use nexus_erofs.Os.Tree.{Node}
use nexus_erofs.Storage.{External, run_mkfs_erofs}
use nexus_erofs.LayerOrder.{reverse_strings}
use nexus_erofs.Erofs.Blob.{digest_from_layer_blob_path}
use nexus_erofs.Erofs.BlockSize.{can_merge_fsmeta}
use nexus_erofs.Snapshotter.Types.{Config}
use nexus_erofs.Snapshotter.Paths.{fsmeta_path, vmdk_path, manifest_path, find_layer_blob}

abbrev newline : Bytes
newline = b'\n' ∷ []

-- the digests that writeLayerManifest collects
unfoldable pub manifest_digests : (Bytes → Option Bytes) → List Bytes → List Bytes
manifest_digests parse [] = []
manifest_digests parse (blob ∷ blobs) =
    let rest = manifest_digests parse blobs in
    let d = digest_from_layer_blob_path parse blob in if not (d == []) then d ∷ rest else rest

-- strings.Join(lines, "\n") + "\n"
unfoldable pub manifest_content : List Bytes → Bytes
unfolding join
manifest_content digests = join digests newline ++ newline

module _ {Meta : Type 0} where
  -- fixVmdkPaths
  unfoldable pub fix_vmdk_paths : Bytes → Bytes → Bytes → Exec Meta (Unit {0})
  fix_vmdk_paths vmdk_file old_path new_path = do
    content ← wrapping "read vmdk" (read_file vmdk_file)
    wrapping "write vmdk" (write_file vmdk_file (replace_all content old_path new_path))

  write_digests : Bytes → List Bytes → Exec Meta (Unit {0})
  unfolding manifest_content
  write_digests manifest_file [] = pure tt
  write_digests manifest_file (d ∷ ds) = write_file manifest_file (manifest_content (d ∷ ds))

  -- writeLayerManifest
  unfoldable pub write_layer_manifest :
      (Bytes → Option Bytes) → Bytes → List Bytes → Exec Meta (Unit {0})
  unfolding write_digests manifest_digests
  write_layer_manifest parse manifest_file blobs =
      write_digests manifest_file (manifest_digests parse blobs)

  -- the loop over `ociOrder`
  unfoldable pub collect_blobs : Config → List Bytes → Exec Meta (List Bytes)
  collect_blobs s [] = pure []
  collect_blobs s (id ∷ ids) = do
    blob ← find_layer_blob s id
    rest ← collect_blobs s ids
    pure (blob ∷ rest)

  require_merge : Bool → Exec Meta (Unit {0})
  require_merge true = pure tt
  require_merge false = raise (message "incompatible block sizes")

  unfoldable pub check_merge : List Bytes → Exec Meta Bool
  check_merge blobs w = let (mergeable, w') = can_merge_fsmeta blobs w in (ok mergeable, w')

  -- what is done when the descriptor could not be renamed
  renamed_or_undo : Bytes → Result (Unit {0}) → Exec Meta (Unit {0})
  renamed_or_undo merged (ok _) = pure tt
  renamed_or_undo merged (err e) = do _ ← attempt (remove merged); raise e

-- The files of a generation, for the newest snapshot of the chain.
abbrev pub lock_path : Config → Bytes → Bytes
lock_path s newest = fsmeta_path s newest ++ codes ".lock"

abbrev pub tmp_meta_path : Config → Bytes → Bytes
tmp_meta_path s newest = fsmeta_path s newest ++ codes ".tmp"

abbrev pub tmp_vmdk_path : Config → Bytes → Bytes
tmp_vmdk_path s newest = vmdk_path s newest ++ codes ".tmp"

-- the arguments of mkfs.erofs
unfoldable pub fsmeta_args : Config → Bytes → List Bytes → List Bytes
fsmeta_args s newest blobs =
    codes "--quiet"
    ∷ (codes "--vmdk-desc=" ++ tmp_vmdk_path s newest)
    ∷ tmp_meta_path s newest
    ∷ blobs

module _ (E : External) (s : Config) where
  -- From the temporary names to the two renames; an early return is an error here.
  unfoldable pub generate : Bytes → List Bytes → Exec E.Meta (List Bytes)
  unfolding require_merge renamed_or_undo
  generate newest parent_ids = do
    blobs ← collect_blobs s (reverse_strings parent_ids)
    mergeable ← check_merge blobs
    _ ← require_merge mergeable
    _ ← run_mkfs_erofs E (fsmeta_args s newest blobs)
    _ ← fix_vmdk_paths (tmp_vmdk_path s newest) (tmp_meta_path s newest) (fsmeta_path s newest)
    _ ← rename (tmp_meta_path s newest) (fsmeta_path s newest)
    renamed ← attempt (rename (tmp_vmdk_path s newest) (vmdk_path s newest))
    _ ← renamed_or_undo (fsmeta_path s newest) renamed
    pure blobs

  -- With success the manifest is written; without it the temporary files are removed.
  conclude : Bytes → Result (List Bytes) → Exec E.Meta (Unit {0})
  conclude newest (ok blobs) = do
    _ ← attempt (write_layer_manifest E.parse_digest (manifest_path s newest) blobs)
    pure tt
  conclude newest (err _) = do
    _ ← attempt (remove (tmp_meta_path s newest))
    _ ← attempt (remove (tmp_vmdk_path s newest))
    pure tt

  -- behind the attempt to create the lock file
  locked : Bytes → List Bytes → Result (Unit {0}) → Exec E.Meta (Unit {0})
  unfolding conclude
  locked newest parent_ids (ok _) = do
    outcome ← attempt (generate newest parent_ids)
    _ ← conclude newest outcome
    _ ← attempt (remove (lock_path s newest))
    pure tt
  locked newest parent_ids (err _) = do _ ← attempt (stat (fsmeta_path s newest)); pure tt

  -- behind the test whether the merged metadata stands there
  unless_generated : Bytes → List Bytes → Result Node → Exec E.Meta (Unit {0})
  unfolding locked
  unless_generated newest parent_ids (ok _) = pure tt
  unless_generated newest parent_ids (err _) = do
    lock ← attempt (create_exclusive (lock_path s newest))
    locked newest parent_ids lock

  -- generateFsMeta
  unfoldable pub generate_fsmeta : List Bytes → Exec E.Meta (Unit {0})
  unfolding unless_generated
  generate_fsmeta [] = pure tt
  generate_fsmeta (newest ∷ others) = do
    found ← attempt (stat (fsmeta_path s newest))
    unless_generated newest (newest ∷ others) found
