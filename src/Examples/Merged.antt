-- ===== src/Examples/Merged.antt =====
-- The theorems on merged metadata, at a chain of two snapshots.
use nexus_erofs.Prelude.{
  ℕ, zero, suc, ◌++◌, ◌≡◌, refl, true, List, [], ◌∷◌, some, Bytes, codes, bytes_beq, bytes_eq,
}
use nexus_erofs.Errors.{ok}
use nexus_erofs.Mount.{Mount}
use nexus_erofs.FilePath.{join_path, clean, dir, base}
use nexus_erofs.Strings.{has_prefix, has_suffix, replace_all}
use nexus_erofs.Os.{
  World, ◌>>=◌, pure, attempt, wrapping, system_call, stat, read_dir, read_file, write_file, rename,
}
use nexus_erofs.Os.Tree.{Files, file, folder, lookup, names_in, insert, rename_tree}
use nexus_erofs.Storage.{External, run_mkfs_erofs}
use nexus_erofs.LayerOrder.{reverse_strings}
use nexus_erofs.Erofs.BlockSize.{
  can_merge_fsmeta, get_block_size, block_size, is_mergeable, int_lt, shift_one, little_endian,
}
use nexus_erofs.Snapshotter.Paths.{
  snapshot_dir, fsmeta_path, vmdk_path, find_layer_blob, glob_blobs, matches_blob,
}
use nexus_erofs.Snapshotter.Mounts.{mount_fsmeta, device_options, fsmeta_mount}
use nexus_erofs.Snapshotter.FsMeta.{
  collect_blobs, check_merge, fsmeta_args, fix_vmdk_paths, generate,
}
use nexus_erofs.Snapshotter.FsMeta.DeviceOrder.{
  IsOrdered, IsMerged, mount_fsmeta-IsOrdered, generate-IsMerged,
}
use nexus_erofs.Examples.Host.{host, config, world_with}

-- An EROFS image with blocks of 4096 bytes, as far as it is read.
zeros : ℕ → Bytes
zeros zero = []
zeros (suc n) = 0 ∷ zeros n

abbrev image : Bytes
image = zeros 1024 ++ 0xE2 ∷ 0xE1 ∷ 0xF5 ∷ 0xE0 ∷ (zeros 8 ++ 12 ∷ 0 ∷ 0 ∷ 0 ∷ [])

abbrev layers : Files
layers =
    (codes "/r/snapshots/1", folder)
    ∷ (codes "/r/snapshots/1/sha256-a.erofs", file image)
    ∷ (codes "/r/snapshots/2", folder)
    ∷ (codes "/r/snapshots/2/sha256-b.erofs", file image)
    ∷ []

abbrev merged_world : World (List Bytes)
merged_world = world_with (
    (codes "/r/snapshots/2/fsmeta.erofs", file [])
    ∷ (codes "/r/snapshots/2/merged.vmdk", file [])
    ∷ layers)

abbrev merged_mount : Mount
merged_mount = record {
  kind = codes "format/erofs";
  source = codes "/r/snapshots/2/fsmeta.erofs";
  target = [];
  options =
      codes "ro"
      ∷ codes "loop"
      ∷ codes "device=/r/snapshots/1/sha256-a.erofs"
      ∷ codes "device=/r/snapshots/2/sha256-b.erofs"
      ∷ [];
}

merged_mounted :
    (mount_fsmeta config (codes "2" ∷ codes "1" ∷ []) merged_world).0 ≡ ok (some merged_mount)
unfolding mount_fsmeta device_options fsmeta_mount find_layer_blob glob_blobs matches_blob
    snapshot_dir ◌>>=◌ pure attempt system_call stat read_dir lookup names_in bytes_beq join_path
    clean dir base has_prefix has_suffix fsmeta_path vmdk_path
merged_mounted = refl

mount_fsmeta-IsOrdered_example :
    IsOrdered config merged_world refl (codes "2") (codes "1" ∷ []) merged_mount
mount_fsmeta-IsOrdered_example =
    mount_fsmeta-IsOrdered config merged_world refl (codes "2") (codes "1" ∷ []) merged_mount
      merged_mounted

-- mkfs.erofs leaves the merged metadata and the descriptor under their temporary names.
abbrev merging : External
merging = record host {
  mkfs_erofs = λ args files. (
    true,
    insert (codes "/r/snapshots/2/fsmeta.erofs.tmp") (file [])
        (insert (codes "/r/snapshots/2/merged.vmdk.tmp") (file []) files),
  );
}

abbrev layer_world : World (List Bytes)
layer_world = world_with layers

generated :
    (generate merging config (codes "2") (codes "2" ∷ codes "1" ∷ []) layer_world).0
    ≡ ok (codes "/r/snapshots/1/sha256-a.erofs" ∷ codes "/r/snapshots/2/sha256-b.erofs" ∷ [])
unfolding generate collect_blobs check_merge fsmeta_args fix_vmdk_paths reverse_strings
    find_layer_blob glob_blobs matches_blob snapshot_dir ◌>>=◌ pure attempt wrapping system_call
    stat read_dir read_file write_file rename lookup names_in insert rename_tree bytes_beq join_path
    clean dir base has_prefix has_suffix fsmeta_path vmdk_path zeros can_merge_fsmeta get_block_size
    block_size is_mergeable int_lt shift_one little_endian run_mkfs_erofs replace_all
generated = refl

generate-IsMerged_example :
    IsMerged merging config layer_world refl (codes "2") (codes "2" ∷ codes "1" ∷ [])
generate-IsMerged_example =
    generate-IsMerged merging config layer_world refl (codes "2") (codes "2" ∷ codes "1" ∷ [])
      (codes "/r/snapshots/1/sha256-a.erofs" ∷ codes "/r/snapshots/2/sha256-b.erofs" ∷ []) generated
