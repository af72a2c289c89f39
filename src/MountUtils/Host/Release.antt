-- ===== src/MountUtils/Host/Release.antt =====
-- Which loop devices are left behind MountAll of internal/mountutils/erofs_linux.go and the function
-- for the cleanup that it returns, while no call is refused.
use nexus_erofs.Prelude.{◌≡◌, refl, ap, ◌∙◌, true, List, [], ◌∷◌, Option, none, some, Bytes}
use nexus_erofs.Errors.{Result, ok, err, os_error, enoent, wrap}
use nexus_erofs.Mount.{Mount}
use nexus_erofs.Os.{World, Exec, pure, attempt, system_call, ◌>>=◌}
use nexus_erofs.Os.Tree.{Node, lookup}
use nexus_erofs.Os.Devices.{Loops, detached_all}
use nexus_erofs.Loop.{IsFreeNumber}
use nexus_erofs.Loop.Types.{Device}
use nexus_erofs.Loop.Retry.{device_at, device_in_table}
use nexus_erofs.Loop.Balance.{calm, paths_of, setup-calm, setup-missing}
use nexus_erofs.MountUtils.Host.{
  MountTools, Cleanup, status, mounted_or_loops, plainly_mounted, with_main, cleanup_loops,
  read_only_config, find_multi_device, devices_in, run_mount, run_umount, mount_plainly,
  unmount_plainly, run_cleanup, mount_devices, mount_found, mount_all, multi_device_args,
}
use nexus_erofs.MountUtils.Host.SetUp.{SetsUp, first_undone, sets_up, detach_loops-calm}

-- umount(8) succeeds on every mount point
pub record Unmounts (T : MountTools) : Type 0 where
  pub unmounts : (target : Bytes) (points : List Bytes) → (T.run_umount target points).0 ≡ true

module _ (T : MountTools) (free : IsFreeNumber T.loop_control) (umounts : Unmounts T)
    {Meta : Type 0} where
  -- Behind the action, a call of the function for the cleanup gives the table `ls` back.
  record Releases (m : Exec Meta (Cleanup × Result (Unit {0}))) (w : World Meta) (start ls : Loops)
      (ms : List Bytes) : Type 0 where
    cleanup : Cleanup
    outcome : Result (Unit {0})
    table : Loops
    points_behind : List Bytes
    runs : m (calm w start ms) ≡ (ok (cleanup, outcome), calm w table points_behind)
    released : (run_cleanup T cleanup (calm w table points_behind)).1.loops ≡ ls

  run_cleanup-mounted :
      (target : Bytes) (ds : List Device) (r : Result (Unit {0})) (w : World Meta)
      (table ls : Loops) (ms : List Bytes)
      → detached_all (paths_of ds) table ≡ ls
      → (run_cleanup T (mounted_or_loops target ds r).0 (calm w table ms)).1.loops ≡ ls
  unfolding mounted_or_loops run_cleanup run_umount system_call ◌>>=◌
  run_cleanup-mounted target ds (ok _) w table ls ms undone =
      rw (umounts.unmounts target ms, detach_loops-calm ds w table (T.run_umount target ms).1)
        undone
  run_cleanup-mounted target ds (err e) w table ls ms undone =
      rw (detach_loops-calm ds w table ms) undone

  run_cleanup-plain :
      (mounts : List Mount) (target : Bytes) (r : Result (Unit {0})) (w : World Meta) (ls : Loops)
      (ms : List Bytes)
      → (run_cleanup T (plainly_mounted mounts target r).0 (calm w ls ms)).1.loops ≡ ls
  unfolding plainly_mounted run_cleanup unmount_plainly pure
  run_cleanup-plain mounts target (ok _) w ls ms = refl
  run_cleanup-plain mounts target (err e) w ls ms = refl

  devices_release :
      (options : List Bytes) (target : Bytes) (main : Device) (ds : List Device)
      (r : Result (Unit {0})) (w : World Meta) (table ls : Loops) (ms : List Bytes)
      → detached_all (paths_of (main ∷ ds)) table ≡ ls
      → Releases (mount_devices T options target main (ds, r)) w table ls ms
  unfolding mount_devices run_mount system_call ◌>>=◌ attempt pure run_cleanup
  devices_release options target main ds (err e) w table ls ms undone = record {
    cleanup = cleanup_loops (main ∷ ds);
    outcome = err e;
    table = table;
    points_behind = ms;
    runs = refl;
    released = rw (detach_loops-calm (main ∷ ds) w table ms) undone;
  }
  devices_release options target main ds (ok _) w table ls ms undone = record {
    cleanup = _;
    outcome = _;
    table = table;
    points_behind = _;
    runs = refl;
    released =
        run_cleanup-mounted target (main ∷ ds)
          (status "failed to mount" (T.run_mount (multi_device_args options ds main target) ms).0) w
          table ls _ undone;
  }

  with_main-Releases :
      (m : Mount) (target : Bytes) (w : World Meta) (ls : Loops) (ms : List Bytes)
      → SetsUp T free
          (devices_in m.options)
          w
          (device_in_table T.loop_control m.source read_only_config (T.loop_control.free_number ls)
            ∷ ls)
          ms
      → Releases
          (with_main T m target (ok (device_at (T.loop_control.free_number ls))))
          w
          (device_in_table T.loop_control m.source read_only_config (T.loop_control.free_number ls)
            ∷ ls)
          ls
          ms
  unfolding with_main ◌>>=◌
  with_main-Releases m target w ls ms set = record {
    cleanup = rest.cleanup;
    outcome = rest.outcome;
    table = rest.table;
    points_behind = rest.points_behind;
    runs = rw set.runs rest.runs;
    released = rest.released;
  }
    where
      rest :
          Releases
            (mount_devices T m.options target
              (device_at (T.loop_control.free_number ls))
              (set.devices, set.outcome))
            w
            set.table
            ls
            ms
      rest =
          devices_release m.options target (device_at (T.loop_control.free_number ls)) set.devices
            set.outcome w set.table ls ms
            (first_undone T free m.source read_only_config ls set.table set.devices set.undone)

  mount_found-Releases-some :
      (mounts : List Mount) (m : Mount) (target : Bytes) (w : World Meta) (ls : Loops)
      (ms : List Bytes) (n : Option Node)
      → lookup m.source w.files ≡ n
      → Releases (mount_found T mounts target (some m)) w ls ls ms
  unfolding mount_found with_main ◌>>=◌ attempt pure run_cleanup detached_all
  mount_found-Releases-some mounts m target w ls ms none missing = record {
    cleanup = cleanup_loops [];
    outcome =
        err (
          wrap "failed to setup loop device"
            (wrap "failed to open backing file" (os_error enoent)));
    table = ls;
    points_behind = ms;
    runs = rw (setup-missing T.loop_control free m.source read_only_config w ls ms missing) refl;
    released = rw (detach_loops-calm [] w ls ms) refl;
  }
  mount_found-Releases-some mounts m target w ls ms (some n) found = record {
    cleanup = rest.cleanup;
    outcome = rest.outcome;
    table = rest.table;
    points_behind = rest.points_behind;
    runs =
        rw (setup-calm T.loop_control free m.source read_only_config w ls ms n refl found)
          rest.runs;
    released = rest.released;
  }
    where
      rest :
          Releases
            (with_main T m target (ok (device_at (T.loop_control.free_number ls))))
            w
            (device_in_table T.loop_control m.source read_only_config
                (T.loop_control.free_number ls)
              ∷ ls)
            ls
            ms
      rest = with_main-Releases m target w ls ms (sets_up T free (devices_in m.options) w _ ms)

  mount_found-Releases :
      (mounts : List Mount) (found : Option Mount) (target : Bytes) (w : World Meta) (ls : Loops)
      (ms : List Bytes)
      → Releases (mount_found T mounts target found) w ls ls ms
  unfolding mount_found mount_plainly ◌>>=◌ attempt pure
  mount_found-Releases mounts none target w ls ms = record {
    cleanup = _;
    outcome = _;
    table = ls;
    points_behind = _;
    runs = refl;
    released = run_cleanup-plain mounts target (T.mount_all mounts target ms).0 w ls _;
  }
  mount_found-Releases mounts (some m) target w ls ms =
      mount_found-Releases-some mounts m target w ls ms (lookup m.source w.files) refl

  -- While no call is refused and umount succeeds, a call of MountAll and then of the function that it
  -- returned for the cleanup leaves the table of loop devices as it was, whatever MountAll returned:
  -- also when a backing file is missing, or when the command `mount` fails.
  pub run_cleanup-mount_all :
      (mounts : List Mount) (target : Bytes) (w : World Meta)
      → w.faults ≡ []
      → ((mount_all T mounts target >>= λ (returned : Cleanup × Result (Unit {0})).
            run_cleanup T returned.0)
          w).1.loops
        ≡ w.loops
  unfolding mount_all ◌>>=◌
  run_cleanup-mount_all mounts target w quiet =
      ap
        (λ fs.
          ((mount_all T mounts target >>= λ (returned : Cleanup × Result (Unit {0})).
          run_cleanup T returned.0)
            (record w { faults = fs })).1.loops)
        quiet
      ∙ rw all.runs all.released
    where
      all :
          Releases
            (mount_found T mounts target (find_multi_device mounts))
            w
            w.loops
            w.loops
            w.mounted
      all = mount_found-Releases mounts (find_multi_device mounts) target w w.loops w.mounted
