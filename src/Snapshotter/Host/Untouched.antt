-- ===== src/Snapshotter/Host/Untouched.antt =====
-- The calls of the host leave the metadata alone.
use nexus_erofs.Prelude.{Bool, true, false, Bytes, List, [], ◌∷◌, arith}
use nexus_erofs.Errors.{Result, ok, err}
use nexus_erofs.Os.{system_call}
use nexus_erofs.Os.Keeps.{Keeps, the_meta, meta_rules, Keeps-pure, Keeps-bind}
use nexus_erofs.Storage.{External}
use nexus_erofs.Storage.Untouched.{run_mkfs_erofs-meta, unmount-meta, mount_at-meta}
use nexus_erofs.Erofs.Convert.{convert_erofs}
use nexus_erofs.Snapshotter.Types.{Config}
use nexus_erofs.Snapshotter.Host.{
  set_immutable, set_flag, write_flag, read_flag, sync_file, remove_entries, unmount_again,
  unmount_all, convert_dir_to_erofs, upper_directory_permission, made_or_unmount,
  mount_block_rw_layer,
}

module _ {Meta : Type 0} where
  read_flag-meta : (p : Bytes) → Keeps {Meta = Meta} the_meta (read_flag p)
  unfolding read_flag system_call
  read_flag-meta p = record { at = λ w. ground arith }

  write_flag-meta : (p : Bytes) (enable : Bool) → Keeps {Meta = Meta} the_meta (write_flag p enable)
  unfolding write_flag system_call
  write_flag-meta p true = record { at = λ w. ground arith }
  write_flag-meta p false = record { at = λ w. ground arith }

  set_flag-meta :
      (p : Bytes) (enable flagged : Bool) → Keeps {Meta = Meta} the_meta (set_flag p enable flagged)
  unfolding set_flag
  set_flag-meta p true true = Keeps-pure tt
  set_flag-meta p true false = write_flag-meta p true
  set_flag-meta p false true = write_flag-meta p false
  set_flag-meta p false false = Keeps-pure tt

  pub set_immutable-meta :
      (p : Bytes) (enable : Bool) → Keeps {Meta = Meta} the_meta (set_immutable p enable)
  unfolding set_immutable
  set_immutable-meta p enable = search (meta_rules, read_flag-meta, set_flag-meta)

  sync-meta : Keeps {Meta = Meta} the_meta (system_call (λ w. (ok tt, w)))
  unfolding system_call
  sync-meta = record { at = λ w. ground arith }

  sync_file-meta : (p : Bytes) → Keeps {Meta = Meta} the_meta (sync_file p)
  unfolding sync_file
  sync_file-meta p = search (meta_rules, sync-meta)

  remove_entries-meta :
      (dir : Bytes) (ds : List Bytes) → Keeps {Meta = Meta} the_meta (remove_entries dir ds)
  unfolding remove_entries
  remove_entries-meta dir [] = Keeps-pure tt
  remove_entries-meta dir (d ∷ ds) =
      Keeps-bind _ _ (search meta_rules) λ _. remove_entries-meta dir ds

module _ (E : External) where
  unmount_again-meta :
      (target : Bytes) (r : Result (Unit {0})) → Keeps the_meta (unmount_again E target r)
  unfolding unmount_again
  unmount_again-meta target (ok _) = Keeps-pure tt
  unmount_again-meta target (err e) = search (meta_rules, unmount-meta)

  pub unmount_all-meta : (target : Bytes) → Keeps the_meta (unmount_all E target)
  unfolding unmount_all
  unmount_all-meta target = search (meta_rules, unmount-meta, unmount_again-meta)

  convert_erofs-meta :
      (blob upper : Bytes) (opts : List Bytes) → Keeps the_meta (convert_erofs E blob upper opts)
  unfolding convert_erofs
  convert_erofs-meta blob upper opts = search (meta_rules, run_mkfs_erofs-meta)

  pub convert_dir_to_erofs-meta :
      (blob upper : Bytes) → Keeps the_meta (convert_dir_to_erofs E blob upper)
  unfolding convert_dir_to_erofs
  convert_dir_to_erofs-meta blob upper =
      search (meta_rules, convert_erofs-meta, sync_file-meta, remove_entries-meta)

  pub upper_directory_permission-meta :
      (p parent : Bytes) → Keeps the_meta (upper_directory_permission E p parent)
  unfolding upper_directory_permission
  upper_directory_permission-meta p parent = search meta_rules

  made_or_unmount-meta :
      (s : Config) (id : Bytes) (r : Result (Unit {0})) → Keeps the_meta (made_or_unmount E s id r)
  unfolding mount_block_rw_layer
  made_or_unmount-meta s id (ok _) = Keeps-pure tt
  made_or_unmount-meta s id (err e) = search (meta_rules, unmount_all-meta)

  pub mount_block_rw_layer-meta :
      (s : Config) (id : Bytes) → Keeps the_meta (mount_block_rw_layer E s id)
  unfolding mount_block_rw_layer
  mount_block_rw_layer-meta s id = search (meta_rules, mount_at-meta, made_or_unmount-meta) depth 12
