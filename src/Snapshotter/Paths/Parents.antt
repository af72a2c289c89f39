-- ===== src/Snapshotter/Paths/Parents.antt =====
-- The files of a snapshot stand in its directory, whatever the root is.
use nexus_erofs.Prelude.{◌≡◌, refl, ◌∙◌, [], ◌∷◌, Bytes, bytes_beq}
use nexus_erofs.Strings.{has_byte}
use nexus_erofs.FilePath.{dir, base, clean}
use nexus_erofs.FilePath.Clean.{IsName}
use nexus_erofs.FilePath.Nest.{
  is_name, is_name→IsName, dir-join_path, base-join_path, dir-join_path_one, clean-join_path,
}
use nexus_erofs.Snapshotter.Types.{Config}
use nexus_erofs.Snapshotter.Paths.{
  snapshots_dir_name, rw_layer_filename, rw_dir_name, upper_dir_name, writable_path,
  block_rw_mount_path, block_upper_path, snapshot_dir,
}

snapshots-IsName : IsName snapshots_dir_name
snapshots-IsName = is_name→IsName snapshots_dir_name (unfold is_name has_byte bytes_beq in refl)

module _ (s : Config) (id : Bytes) where
  pub dir-writable_path : dir (writable_path s id) ≡ snapshot_dir s id
  unfolding writable_path snapshot_dir
  dir-writable_path =
      dir-join_path s.root snapshots_dir_name (id ∷ []) rw_layer_filename snapshots-IsName
        (is_name→IsName rw_layer_filename (unfold is_name has_byte bytes_beq in refl))

  rw-IsName : IsName rw_dir_name
  rw-IsName = is_name→IsName rw_dir_name (unfold is_name has_byte bytes_beq in refl)

  pub dir-block_rw_mount_path : dir (block_rw_mount_path s id) ≡ snapshot_dir s id
  unfolding block_rw_mount_path snapshot_dir
  dir-block_rw_mount_path =
      dir-join_path s.root snapshots_dir_name (id ∷ []) rw_dir_name snapshots-IsName rw-IsName

  pub base-block_rw_mount_path : base (block_rw_mount_path s id) ≡ rw_dir_name
  unfolding block_rw_mount_path
  base-block_rw_mount_path =
      base-join_path s.root snapshots_dir_name (id ∷ []) rw_dir_name snapshots-IsName rw-IsName

  clean-block_rw_mount_path : clean (block_rw_mount_path s id) ≡ block_rw_mount_path s id
  unfolding block_rw_mount_path
  clean-block_rw_mount_path =
      clean-join_path s.root snapshots_dir_name (id ∷ rw_dir_name ∷ []) snapshots-IsName

  pub dir-block_upper_path : dir (block_upper_path s id) ≡ block_rw_mount_path s id
  unfolding block_upper_path
  dir-block_upper_path =
      dir-join_path_one (block_rw_mount_path s id) upper_dir_name
        (is_name→IsName upper_dir_name (unfold is_name has_byte bytes_beq in refl))
      ∙ clean-block_rw_mount_path
