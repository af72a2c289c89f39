-- ===== src/Snapshotter/Paths.antt =====
-- internal/snapshotter/paths.go: where the files of a snapshot stand, and the search for its layer.
pub mod Parents
pub mod Free
pub mod Quiet
pub mod Untouched
use nexus_erofs.Prelude.{
  ℕ, ◌+◌, Bool, true, false, ◌&&◌, List, [], ◌∷◌, ◌++◌, Option, none, some, Bytes, codes, length,
  leb, ◌==◌, bytes_eq, if◌then◌else◌,
}
use nexus_erofs.Strings.{has_prefix, has_suffix}
use nexus_erofs.FilePath.{join_path}
use nexus_erofs.Errors.{Error, Result, ok, err, layer_blob_not_found, wrap}
use nexus_erofs.Os.{World, Exec, pure, raise, attempt, wrapping, stat, read_dir, ◌>>=◌}
use nexus_erofs.Os.Tree.{Node}
use nexus_erofs.Snapshotter.Types.{Config}

abbrev pub snapshots_dir_name : Bytes
snapshots_dir_name = codes "snapshots"

abbrev pub fs_dir_name : Bytes
fs_dir_name = codes "fs"

abbrev pub rw_layer_filename : Bytes
rw_layer_filename = codes "rwlayer.img"

abbrev pub rw_dir_name : Bytes
rw_dir_name = codes "rw"

abbrev pub upper_dir_name : Bytes
upper_dir_name = codes "upper"

abbrev pub lower_dir_name : Bytes
lower_dir_name = codes "lower"

abbrev pub fsmeta_filename : Bytes
fsmeta_filename = codes "fsmeta.erofs"

abbrev pub vmdk_filename : Bytes
vmdk_filename = codes "merged.vmdk"

abbrev pub manifest_filename : Bytes
manifest_filename = codes "layers.manifest"

abbrev pub fallback_layer_prefix : Bytes
fallback_layer_prefix = codes "snapshot-"

module _ (s : Config) where
  abbrev in_snapshot : Bytes → Bytes → Bytes
  in_snapshot id name = join_path (s.root ∷ snapshots_dir_name ∷ id ∷ name ∷ [])

  unfoldable pub upper_path : Bytes → Bytes
  upper_path id = in_snapshot id fs_dir_name

  unfoldable pub writable_path : Bytes → Bytes
  writable_path id = in_snapshot id rw_layer_filename

  unfoldable pub block_rw_mount_path : Bytes → Bytes
  block_rw_mount_path id = in_snapshot id rw_dir_name

  unfoldable pub block_upper_path : Bytes → Bytes
  block_upper_path id = join_path (block_rw_mount_path id ∷ upper_dir_name ∷ [])

  unfoldable pub fallback_layer_blob_path : Bytes → Bytes
  fallback_layer_blob_path id = in_snapshot id (fallback_layer_prefix ++ (id ++ codes ".erofs"))

  unfoldable pub fsmeta_path : Bytes → Bytes
  fsmeta_path id = in_snapshot id fsmeta_filename

  unfoldable pub vmdk_path : Bytes → Bytes
  vmdk_path id = in_snapshot id vmdk_filename

  unfoldable pub manifest_path : Bytes → Bytes
  manifest_path id = in_snapshot id manifest_filename

  unfoldable pub view_lower_path : Bytes → Bytes
  view_lower_path id = in_snapshot id lower_dir_name

  unfoldable pub snapshot_dir : Bytes → Bytes
  snapshot_dir id = join_path (s.root ∷ snapshots_dir_name ∷ id ∷ [])

  unfoldable pub snapshots_dir : Bytes
  snapshots_dir = join_path (s.root ∷ snapshots_dir_name ∷ [])

-- Does the name match the pattern `prefix*.erofs`?
unfoldable pub matches_blob : Bytes → Bytes → Bool
matches_blob prefix name =
    has_prefix name prefix
    && (has_suffix name (codes ".erofs") && leb (length prefix + 6) (length name))

matching : Bytes → Bytes → List Bytes → List Bytes
unfolding matches_blob
matching dir prefix [] = []
matching dir prefix (name ∷ names) =
    let rest = matching dir prefix names in
    if matches_blob prefix name then join_path (dir ∷ name ∷ []) ∷ rest else rest

glob_result : Bytes → Bytes → Result (List Bytes) → List Bytes
unfolding matching
glob_result dir prefix (ok names) = matching dir prefix names
glob_result dir prefix (err e) = []

module _ {Meta : Type 0} where
  -- filepath.Glob of `prefix*.erofs` in a directory: a directory that cannot be read has no
  -- matches.
  unfoldable pub glob_blobs : Bytes → Bytes → Exec Meta (List Bytes)
  unfolding glob_result
  glob_blobs dir prefix = do names ← attempt (read_dir dir); pure (glob_result dir prefix names)

  found_fallback : Bytes → Error → Result Node → Exec Meta Bytes
  found_fallback path e (ok _) = pure path
  found_fallback path e (err _) = raise e

  choose_blob : Config → Bytes → List Bytes → Exec Meta Bytes
  unfolding found_fallback fallback_layer_blob_path snapshot_dir
  choose_blob s id (blob ∷ _) = pure blob
  choose_blob s id [] = do
    found ← attempt (stat (fallback_layer_blob_path s id))
    found_fallback (fallback_layer_blob_path s id) (layer_blob_not_found id (snapshot_dir s id))
        found

  -- findLayerBlob
  unfoldable pub find_layer_blob : Config → Bytes → Exec Meta Bytes
  unfolding choose_blob
  find_layer_blob s id = do
    matches ← glob_blobs (snapshot_dir s id) (codes "sha256-")
    choose_blob s id matches

  -- lowerPath
  unfoldable pub lower_path : Config → Bytes → Exec Meta Bytes
  lower_path s id = wrapping "failed to find valid erofs layer blob" (find_layer_blob s id)
