-- ===== src/MountUtils/Host.antt =====
-- internal/mountutils/erofs_linux.go: EROFS images of several devices, and ext4 images, mounted on
-- the host. The commands `mount` and `umount` and the package `mount` of containerd are parameters.
pub mod SetUp
pub mod Ext4
pub mod Release
pub mod Kept
use nexus_erofs.Prelude.{
  ℕ, Bool, true, false, not, String, ◌&&◌, List, [], ◌∷◌, ◌++◌, Option, none, some, Bytes, codes,
  ◌==◌, bytes_eq, if◌then◌else◌,
}
use nexus_erofs.Strings.{has_prefix, trim_prefix, join}
use nexus_erofs.Errors.{Error, Result, ok, err, os_error, Errno, message, ewouldblock, wrap}
use nexus_erofs.Mount.{Mount}
use nexus_erofs.Os.{World, Exec, pure, raise, lift, attempt, wrapping, system_call, stat, ◌>>=◌}
use nexus_erofs.Loop.{LoopControl, setup, detach}
use nexus_erofs.Loop.Types.{LoopConfig, Device}
use nexus_erofs.MountUtils.{fs_type_erofs, device_prefix, type_suffix, has_device_option}

pub record MountTools : Type 0 where
  -- mount.All and mount.UnmountMounts, on the mount points
  pub mount_all : List Mount → Bytes → List Bytes → Result (Unit {0}) × List Bytes
  pub unmount_mounts : List Mount → Bytes → List Bytes → Result (Unit {0}) × List Bytes
  -- the commands: whether the exit status is 0, and the mount points behind the run
  pub run_mount : List Bytes → List Bytes → Bool × List Bytes
  pub run_umount : Bytes → List Bytes → Bool × List Bytes
  pub loop_control : LoopControl

-- The functions that MountAll and MountExt4 return for the cleanup.
pub data Cleanup : Type 0 where
  nop_cleanup : Cleanup
  unmount_mounts_of : List Mount → Bytes → Cleanup
  cleanup_loops : List Device → Cleanup
  unmount_then_loops : Bytes → List Device → Cleanup
  unmount_ext4 : Bytes → Device → Cleanup

-- the search for the mount with devices
find_multi_device : List Mount → Option Mount
find_multi_device [] = none
find_multi_device (m ∷ ms) =
    let rest = find_multi_device ms in
    if type_suffix m.kind == fs_type_erofs && has_device_option m.options then some m else rest

-- the devices, and the other options but for `loop`
devices_in : List Bytes → List Bytes
devices_in [] = []
devices_in (opt ∷ opts) =
    let rest = devices_in opts in
    if has_prefix opt device_prefix then trim_prefix opt device_prefix ∷ rest else rest

others_in : List Bytes → List Bytes
others_in [] = []
others_in (opt ∷ opts) =
    let rest = others_in opts in
    if has_prefix opt device_prefix
    then rest
    else if not (opt == codes "loop")
    then opt ∷ rest
    else rest

abbrev read_only_config : LoopConfig
read_only_config = record {
  read_only = true;
  direct_io = false;
  serial = [];
  offset = 0;
  size_limit = 0;
}

abbrev option_of : Device → Bytes
option_of d = device_prefix ++ d.path

options_of : List Device → List Bytes
options_of [] = []
options_of (d ∷ ds) = option_of d ∷ options_of ds

-- the arguments of `mount` for an image of several devices
unfoldable pub multi_device_args : List Bytes → List Device → Device → Bytes → List Bytes
unfolding options_of join others_in
multi_device_args options devices main target =
    codes "-t"
    ∷ codes "erofs"
    ∷ codes "-o"
    ∷ join (others_in options ++ options_of devices) (codes ",")
    ∷ main.path
    ∷ target
    ∷ []

-- Each device is detached, and a failure does not stop the loop.
errors_of : Result (Unit {0}) → List Error → List Error
errors_of (ok _) es = es
errors_of (err e) es = e ∷ es

detach_result : List Error → Result (Unit {0})
detach_result [] = ok tt
detach_result (e ∷ es) = err (message "failed to detach loop devices")

status : String → Bool → Result (Unit {0})
status text true = ok tt
status text false = err (message text)

with_device : Device → List Device × Result (Unit {0}) → List Device × Result (Unit {0})
with_device d (ds, r) = (d ∷ ds, r)

mounted_or_loops : Bytes → List Device → Result (Unit {0}) → Cleanup × Result (Unit {0})
mounted_or_loops target ds (ok _) = (unmount_then_loops target ds, ok tt)
mounted_or_loops target ds (err e) =
    (cleanup_loops ds, err (wrap "failed to mount multi-device EROFS" e))

plainly_mounted : List Mount → Bytes → Result (Unit {0}) → Cleanup × Result (Unit {0})
plainly_mounted ms target (ok _) = (unmount_mounts_of ms target, ok tt)
plainly_mounted ms target (err e) = (nop_cleanup, err e)

module _ {Meta : Type 0} where
  points : Result (Unit {0}) × List Bytes → World Meta → Result (Unit {0}) × World Meta
  points (r, mounted) w = (r, record w { mounted = mounted })

  detach_loop : List Device → Exec Meta (List Error)
  unfolding errors_of
  detach_loop [] = pure []
  detach_loop (d ∷ ds) = do
    done ← attempt (detach d)
    errors ← detach_loop ds
    pure (errors_of done errors)

  -- cleanupLoops
  unfoldable pub detach_loops : List Device → Exec Meta (Unit {0})
  unfolding detach_loop detach_result
  detach_loops ds = do errors ← detach_loop ds; lift (detach_result errors)

module _ (T : MountTools) {Meta : Type 0} where
  -- exec.Command("mount", args...).CombinedOutput(), which may fail to start
  unfoldable pub run_mount : List Bytes → Exec Meta (Unit {0})
  unfolding points status
  run_mount args = system_call λ w.
      let (success, mounted) = T.run_mount args w.mounted in
      points (status "failed to mount" success, mounted) w

  unfoldable pub run_umount : Bytes → Exec Meta (Unit {0})
  unfolding points status
  run_umount target = system_call λ w.
      let (success, mounted) = T.run_umount target w.mounted in
      points (status "failed to unmount" success, mounted) w

  unfoldable pub mount_plainly : List Mount → Bytes → Exec Meta (Unit {0})
  unfolding points
  mount_plainly ms target w = points (T.mount_all ms target w.mounted) w

  unmount_plainly : List Mount → Bytes → Exec Meta (Unit {0})
  unfolding points
  unmount_plainly ms target w = points (T.unmount_mounts ms target w.mounted) w

  -- a call of a function that was returned for the cleanup
  unfoldable pub run_cleanup : Cleanup → Exec Meta (Unit {0})
  unfolding unmount_plainly
  run_cleanup nop_cleanup = pure tt
  run_cleanup (unmount_mounts_of ms target) = unmount_plainly ms target
  run_cleanup (cleanup_loops ds) = detach_loops ds
  run_cleanup (unmount_then_loops target ds) = do _ ← run_umount target; detach_loops ds
  run_cleanup (unmount_ext4 target d) = do
    _ ← run_umount target
    wrapping "failed to detach loop device" (detach d)

  setup_behind :
      Exec Meta (List Device × Result (Unit {0}))
      → Result Device
      → Exec Meta (List Device × Result (Unit {0}))
  unfolding with_device
  setup_behind rest (err e) = pure ([], err (wrap "failed to setup loop device" e))
  setup_behind rest (ok d) = do others ← rest; pure (with_device d others)

  -- The loop over the blobs: the devices that were set up, and whether all were.
  unfoldable pub setup_each : List Bytes → Exec Meta (List Device × Result (Unit {0}))
  unfolding setup_behind
  setup_each [] = pure ([], ok tt)
  setup_each (blob ∷ blobs) = do
    device ← attempt (setup T.loop_control blob read_only_config)
    setup_behind (setup_each blobs) device

  mount_devices :
      List Bytes
      → Bytes
      → Device
      → List Device × Result (Unit {0})
      → Exec Meta (Cleanup × Result (Unit {0}))
  unfolding mounted_or_loops
  mount_devices options target main (ds, err e) = pure (cleanup_loops (main ∷ ds), err e)
  mount_devices options target main (ds, ok _) = do
    done ← attempt (run_mount (multi_device_args options ds main target))
    pure (mounted_or_loops target (main ∷ ds) done)

  with_main : Mount → Bytes → Result Device → Exec Meta (Cleanup × Result (Unit {0}))
  unfolding mount_devices devices_in
  with_main m target (err e) = pure (cleanup_loops [], err (wrap "failed to setup loop device" e))
  with_main m target (ok main) = do
    ds ← setup_each (devices_in m.options)
    mount_devices m.options target main ds

  mount_found : List Mount → Bytes → Option Mount → Exec Meta (Cleanup × Result (Unit {0}))
  unfolding with_main plainly_mounted
  mount_found ms target none = do
    done ← attempt (mount_plainly ms target)
    pure (plainly_mounted ms target done)
  mount_found ms target (some m) = do
    main ← attempt (setup T.loop_control m.source read_only_config)
    with_main m target main

  -- MountAll: the function for the cleanup is returned beside an error too.
  unfoldable pub mount_all : List Mount → Bytes → Exec Meta (Cleanup × Result (Unit {0}))
  unfolding mount_found find_multi_device
  mount_all ms target = mount_found ms target (find_multi_device ms)
