-- ===== src/MountUtils/Host/Kept.antt =====
-- MountAll and MountExt4 of internal/mountutils/erofs_linux.go leave the metadata alone, and so do
-- the functions that they return for the cleanup.
use nexus_erofs.Prelude.{refl, List, [], ◌∷◌, Option, none, some, Bytes}
use nexus_erofs.Errors.{Result, ok, err}
use nexus_erofs.Mount.{Mount}
use nexus_erofs.Os.{Exec}
use nexus_erofs.Os.Keeps.{Keeps, the_meta, meta_rules, system_call-meta, Keeps-bind, Keeps-at}
use nexus_erofs.Loop.Types.{Device}
use nexus_erofs.Loop.Kept.{detach-meta, setup-meta}
use nexus_erofs.MountUtils.Host.{
  MountTools, Cleanup, nop_cleanup, unmount_mounts_of, cleanup_loops, unmount_then_loops,
  unmount_ext4, detach_loop, detach_loops, run_mount, run_umount, mount_plainly, unmount_plainly,
  run_cleanup, setup_behind, setup_each, mount_devices, with_main, mount_found, mount_all,
}
use nexus_erofs.MountUtils.Host.Ext4.{check_file_not_in_use, mounted_or_detach, mount_ext4}

module _ {Meta : Type 0} where
  detach_loop-meta : (ds : List Device) → Keeps {Meta = Meta} the_meta (detach_loop ds)
  unfolding detach_loop
  detach_loop-meta [] = search meta_rules
  detach_loop-meta (d ∷ ds) =
      Keeps-bind _ _ (search (meta_rules, detach-meta))
        λ r. Keeps-bind _ _ (detach_loop-meta ds) λ es. search meta_rules

  detach_loops-meta : (ds : List Device) → Keeps {Meta = Meta} the_meta (detach_loops ds)
  unfolding detach_loops
  detach_loops-meta ds = search (meta_rules, detach_loop-meta)

module _ (T : MountTools) {Meta : Type 0} where
  check_file_not_in_use-meta :
      (p : Bytes) → Keeps {Meta = Meta} the_meta (check_file_not_in_use T p)
  unfolding check_file_not_in_use
  check_file_not_in_use-meta p = search (meta_rules, system_call-meta, Keeps-at) depth 12

  run_mount-meta : (args : List Bytes) → Keeps {Meta = Meta} the_meta (run_mount T args)
  unfolding run_mount
  run_mount-meta args = system_call-meta _ (record { at = λ w. refl })

  run_umount-meta : (target : Bytes) → Keeps {Meta = Meta} the_meta (run_umount T target)
  unfolding run_umount
  run_umount-meta target = system_call-meta _ (record { at = λ w. refl })

  mount_plainly-meta :
      (ms : List Mount) (target : Bytes) → Keeps {Meta = Meta} the_meta (mount_plainly T ms target)
  unfolding mount_plainly
  mount_plainly-meta ms target = record { at = λ w. refl }

  unmount_plainly-meta :
      (ms : List Mount) (target : Bytes)
      → Keeps {Meta = Meta} the_meta (unmount_plainly T ms target)
  unfolding unmount_plainly
  unmount_plainly-meta ms target = record { at = λ w. refl }

  pub run_cleanup-meta : (c : Cleanup) → Keeps {Meta = Meta} the_meta (run_cleanup T c)
  unfolding run_cleanup
  run_cleanup-meta nop_cleanup = search meta_rules
  run_cleanup-meta (unmount_mounts_of ms target) = unmount_plainly-meta ms target
  run_cleanup-meta (cleanup_loops ds) = detach_loops-meta ds
  run_cleanup-meta (unmount_then_loops target ds) =
      search (meta_rules, run_umount-meta, detach_loops-meta)
  run_cleanup-meta (unmount_ext4 target d) = search (meta_rules, run_umount-meta, detach-meta)

  setup_behind-meta :
      (rest : Exec Meta (List Device × Result (Unit {0}))) (r : Result Device)
      → Keeps the_meta rest
      → Keeps the_meta (setup_behind T rest r)
  unfolding setup_behind
  setup_behind-meta rest (err e) h = search meta_rules
  setup_behind-meta rest (ok d) h = Keeps-bind _ _ h λ others. search meta_rules

  setup_each-meta : (blobs : List Bytes) → Keeps {Meta = Meta} the_meta (setup_each T blobs)
  unfolding setup_each
  setup_each-meta [] = search meta_rules
  setup_each-meta (b ∷ blobs) =
      Keeps-bind _ _ (search (meta_rules, setup-meta))
        λ r. setup_behind-meta _ r (setup_each-meta blobs)

  mount_devices-meta :
      (options : List Bytes) (target : Bytes) (main : Device)
      (set : List Device × Result (Unit {0}))
      → Keeps {Meta = Meta} the_meta (mount_devices T options target main set)
  unfolding mount_devices
  mount_devices-meta options target main (ds, err e) = search meta_rules
  mount_devices-meta options target main (ds, ok _) = search (meta_rules, run_mount-meta)

  with_main-meta :
      (m : Mount) (target : Bytes) (r : Result Device)
      → Keeps {Meta = Meta} the_meta (with_main T m target r)
  unfolding with_main
  with_main-meta m target (err e) = search meta_rules
  with_main-meta m target (ok main) = search (meta_rules, setup_each-meta, mount_devices-meta)

  mount_found-meta :
      (ms : List Mount) (target : Bytes) (found : Option Mount)
      → Keeps {Meta = Meta} the_meta (mount_found T ms target found)
  unfolding mount_found
  mount_found-meta ms target none = search (meta_rules, mount_plainly-meta)
  mount_found-meta ms target (some m) = search (meta_rules, setup-meta, with_main-meta)

  pub mount_all-meta :
      (ms : List Mount) (target : Bytes) → Keeps {Meta = Meta} the_meta (mount_all T ms target)
  unfolding mount_all
  mount_all-meta ms target = mount_found-meta ms target _

  mounted_or_detach-meta :
      (target : Bytes) (d : Device) (r : Result (Unit {0}))
      → Keeps {Meta = Meta} the_meta (mounted_or_detach T target d r)
  unfolding mounted_or_detach
  mounted_or_detach-meta target d (ok _) = search meta_rules
  mounted_or_detach-meta target d (err e) = search (meta_rules, detach-meta)

  pub mount_ext4-meta :
      (source target : Bytes) → Keeps {Meta = Meta} the_meta (mount_ext4 T source target)
  unfolding mount_ext4
  mount_ext4-meta source target =
      search
        (meta_rules, check_file_not_in_use-meta, setup-meta, run_mount-meta, mounted_or_detach-meta)
        depth 16
