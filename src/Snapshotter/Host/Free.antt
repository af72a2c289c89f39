-- ===== src/Snapshotter/Host/Free.antt =====
-- The calls of the host that make a snapshot leave an empty schedule of faults empty.
use nexus_erofs.Prelude.{Bytes}
use nexus_erofs.Errors.{Result, ok, err}
use nexus_erofs.Os.Free.{Free, free_rules, Free-pure}
use nexus_erofs.Storage.{External}
use nexus_erofs.Storage.Untouched.{unmount-Free, mount_at-Free}
use nexus_erofs.Snapshotter.Types.{Config}
use nexus_erofs.Snapshotter.Host.{
  unmount_again, unmount_all, upper_directory_permission, made_or_unmount, mount_block_rw_layer,
}

module _ (E : External) where
  unmount_again-Free : (target : Bytes) (r : Result (Unit {0})) → Free (unmount_again E target r)
  unfolding unmount_again
  unmount_again-Free target (ok _) = Free-pure tt
  unmount_again-Free target (err e) = search (free_rules, unmount-Free)

  unmount_all-Free : (target : Bytes) → Free (unmount_all E target)
  unfolding unmount_all
  unmount_all-Free target = search (free_rules, unmount-Free, unmount_again-Free)

  pub upper_directory_permission-Free :
      (p parent : Bytes) → Free (upper_directory_permission E p parent)
  unfolding upper_directory_permission
  upper_directory_permission-Free p parent = search free_rules

  made_or_unmount-Free :
      (s : Config) (id : Bytes) (r : Result (Unit {0})) → Free (made_or_unmount E s id r)
  unfolding mount_block_rw_layer
  made_or_unmount-Free s id (ok _) = Free-pure tt
  made_or_unmount-Free s id (err e) = search (free_rules, unmount_all-Free)

  pub mount_block_rw_layer-Free : (s : Config) (id : Bytes) → Free (mount_block_rw_layer E s id)
  unfolding mount_block_rw_layer
  mount_block_rw_layer-Free s id = search (free_rules, mount_at-Free, made_or_unmount-Free) depth 12
