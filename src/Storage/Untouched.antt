-- ===== src/Storage/Untouched.antt =====
-- The commands and the mounts leave the metadata alone.
use nexus_erofs.Os.Free.{Free, system_call-Free}
use nexus_erofs.Prelude.{◌∙◌}
use nexus_erofs.Prelude.{◌≡◌, refl, Bool, true, false, Bytes, List}
use nexus_erofs.Errors.{Result}
use nexus_erofs.Mount.{Mount}
use nexus_erofs.Os.{World}
use nexus_erofs.Os.Keeps.{Keeps, the_meta, system_call-meta}
use nexus_erofs.Os.Tree.{Files}
use nexus_erofs.Storage.{
  External, query, command_result, run_mkfs_erofs, run_mkfs_ext4, unmount, mount_at,
}

module _ (E : External) where
  pub query-meta : {A : Type 0} (op : E.Meta → Result A) → Keeps the_meta (query E op)
  unfolding query
  query-meta op = record { at = λ w. refl }

  command-meta :
      (outcome : Bool × Files) (w : World E.Meta) → (command_result E outcome w).1.meta ≡ w.meta
  unfolding run_mkfs_erofs
  command-meta (true, files) w = refl
  command-meta (false, files) w = refl

  pub run_mkfs_erofs-meta : (args : List Bytes) → Keeps the_meta (run_mkfs_erofs E args)
  unfolding run_mkfs_erofs
  run_mkfs_erofs-meta args =
      system_call-meta _ (record { at = λ w. command-meta (E.mkfs_erofs args w.files) w })

  pub run_mkfs_ext4-meta : (args : List Bytes) → Keeps the_meta (run_mkfs_ext4 E args)
  unfolding run_mkfs_ext4
  run_mkfs_ext4-meta args =
      system_call-meta _ (record { at = λ w. command-meta (E.mkfs_ext4 args w.files) w })

  pub unmount-meta : (target : Bytes) (lazily : Bool) → Keeps the_meta (unmount E target lazily)
  unfolding unmount
  unmount-meta target lazily = record { at = λ w. refl }

  pub mount_at-meta : (m : Mount) (target : Bytes) → Keeps the_meta (mount_at E m target)
  unfolding mount_at
  mount_at-meta m target = record { at = λ w. refl }

  command-faults :
      (outcome : Bool × Files) (w : World E.Meta) → (command_result E outcome w).1.faults ≡ w.faults
  unfolding run_mkfs_erofs
  command-faults (true, files) w = refl
  command-faults (false, files) w = refl

  pub run_mkfs_erofs-Free : (args : List Bytes) → Free (run_mkfs_erofs E args)
  unfolding run_mkfs_erofs
  run_mkfs_erofs-Free args =
      system_call-Free _ (record { at = λ w h. command-faults (E.mkfs_erofs args w.files) w ∙ h })

  pub run_mkfs_ext4-Free : (args : List Bytes) → Free (run_mkfs_ext4 E args)
  unfolding run_mkfs_ext4
  run_mkfs_ext4-Free args =
      system_call-Free _ (record { at = λ w h. command-faults (E.mkfs_ext4 args w.files) w ∙ h })

  pub unmount-Free : (target : Bytes) (lazily : Bool) → Free (unmount E target lazily)
  unfolding unmount
  unmount-Free target lazily = record { at = λ w h. h }

  pub mount_at-Free : (m : Mount) (target : Bytes) → Free (mount_at E m target)
  unfolding mount_at
  mount_at-Free m target = record { at = λ w h. h }
