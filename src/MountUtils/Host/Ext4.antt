-- ===== src/MountUtils/Host/Ext4.antt =====
-- MountExt4 and checkFileNotInUse of internal/mountutils/erofs_linux.go.
use nexus_erofs.Prelude.{false, [], ◌∷◌, Bytes, codes, bytes_eq}
use nexus_erofs.Errors.{Result, ok, err, os_error, message, ewouldblock, wrap}
use nexus_erofs.Os.{Exec, pure, raise, lift, attempt, wrapping, system_call, stat, ◌>>=◌}
use nexus_erofs.Loop.{setup, detach}
use nexus_erofs.Loop.Types.{LoopConfig, Device}
use nexus_erofs.MountUtils.Host.{MountTools, Cleanup, unmount_ext4, run_mount}

abbrev writable_config : LoopConfig
writable_config = record {
  read_only = false;
  direct_io = false;
  serial = [];
  offset = 0;
  size_limit = 0;
}

lock_result : Result (Unit {0}) → Result (Unit {0})
lock_result (ok _) = ok tt
lock_result (err (os_error ewouldblock)) =
    err (message "container is still running: stop the container before committing")
lock_result (err e) = err (wrap "failed to check if file is in use" e)

module _ (T : MountTools) {Meta : Type 0} where
  -- checkFileNotInUse: an exclusive lock that is given back at once. A lock that another process
  -- holds is a refusal with EWOULDBLOCK.
  unfoldable pub check_file_not_in_use : Bytes → Exec Meta (Unit {0})
  unfolding lock_result
  check_file_not_in_use path = do
    _ ← wrapping "failed to open" (stat path)
    locked ← attempt (system_call λ w. (ok tt, w))
    _ ← lift (lock_result locked)
    _ ← attempt (system_call λ w. (ok tt, w))
    pure tt

  unfoldable pub mounted_or_detach : Bytes → Device → Result (Unit {0}) → Exec Meta Cleanup
  mounted_or_detach target d (ok _) = pure (unmount_ext4 target d)
  mounted_or_detach target d (err e) = do
    _ ← attempt (detach d)
    raise (wrap "failed to mount ext4" e)

  -- MountExt4, whose cleanup does nothing beside an error
  unfoldable pub mount_ext4 : Bytes → Bytes → Exec Meta Cleanup
  unfolding mounted_or_detach
  mount_ext4 source target = do
    _ ← check_file_not_in_use source
    d ←
        wrapping "failed to setup loop device for ext4"
          (setup T.loop_control source writable_config)
    done ← attempt (run_mount T (codes "-t" ∷ codes "ext4" ∷ d.path ∷ target ∷ []))
    mounted_or_detach target d done
