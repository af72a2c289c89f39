-- ===== src/Examples/Devices.antt =====
-- The theorems on loop devices, on a host whose control device hands out a number that is longer
-- than every path in the table.
use nexus_erofs.Prelude.{
  ℕ, zero, suc, ◌+◌, ◌*◌, ◌/◌, ◌%◌, ◌≤◌, ◌<◌, ◌≡◌, refl, ap, arith, true, false, Bool-cases, inl,
  inr, List, [], ◌∷◌, some, Bytes, codes, length, length-append, ◌==◌, nat_eq, bytes_eq, bytes_beq,
  eq_iff,
}
use nexus_erofs.Strings.{has_byte}
use nexus_erofs.Errors.{Result, ok, err, os_error, ebusy, wrap}
use nexus_erofs.Mount.{Mount}
use nexus_erofs.Os.{World, ◌>>=◌}
use nexus_erofs.Os.Tree.{Node, file, lookup}
use nexus_erofs.Os.Devices.{Loops, is_attached}
use nexus_erofs.Loop.{LoopControl, IsFreeNumber, device_path, setup, detach}
use nexus_erofs.Loop.Types.{
  LoopConfig, decimal, digits, backing_file, copied_name, backing_file-copied_name,
}
use nexus_erofs.Loop.Retry.{
  setup_rounds, seen, device_at, device_in_table, setup-retries, setup-gives_up,
}
use nexus_erofs.Loop.Balance.{detach-setup}
use nexus_erofs.MountUtils.Host.{MountTools, Cleanup, mount_all, run_cleanup}
use nexus_erofs.MountUtils.Host.Release.{Unmounts, run_cleanup-mount_all}
use nexus_erofs.Examples.Host.{world_with}

longest : Loops → ℕ
longest [] = 0
longest (d ∷ ds) = length d.path + longest ds

abbrev power : ℕ → ℕ
power zero = 1
power (suc k) = 10 * power k

power_pos : (k : ℕ) → 1 ≤ power k
power_pos zero = omega arith
power_pos (suc k) = omega (arith, power_pos k)

quotient_long : (k n : ℕ) → power (suc k) ≤ n → power k ≤ n / 10
quotient_long k n h = omega (arith, h)

digits_long : (k fuel n : ℕ) → power k ≤ n → k < fuel → k < length (digits fuel n)
unfolding digits
digits_long k zero n h f = omega (arith, f)
digits_long zero (suc fuel) n h f = elim (Bool-cases (n / 10 == 0)) [
  | inl small ↦ rw small (omega arith)
  | inr large ↦
      rw large (omega (arith, length-append (digits fuel (n / 10)) ((b'0' + n % 10) ∷ [])))
]
digits_long (suc k) (suc fuel) n h f = elim (Bool-cases (n / 10 == 0)) [
  | inl small ↦
      absurd (omega (arith, quotient_long k n h, power_pos k, (eq_iff (n / 10) 0).0 small))
  | inr large ↦ rw large (
      omega (
        arith,
        length-append (digits fuel (n / 10)) ((b'0' + n % 10) ∷ []),
        digits_long k fuel (n / 10) (quotient_long k n h) (omega (arith, f)),
      ))
]

power_long : (k : ℕ) → k < power k
power_long zero = omega arith
power_long (suc k) = omega (arith, power_long k)

decimal_long : (k : ℕ) → k < length (decimal (power k))
unfolding decimal
decimal_long k = digits_long k (power k + 1) (power k) (omega arith) (omega (arith, power_long k))

pub longer-unequal : (p q : Bytes) → length p < length q → (p == q) ≡ false
longer-unequal p q h = elim (Bool-cases (p == q)) [
  | inl same ↦ absurd (omega (arith, h, ap length ((eq_iff p q).0 same)))
  | inr other ↦ other
]

unattached : (ds : Loops) (q : Bytes) → longest ds < length q → is_attached q ds ≡ false
unfolding longest is_attached
unattached [] q h = refl
unattached (d ∷ ds) q h =
    rw (longer-unequal d.path q (omega (arith, h)), unattached ds q (omega (arith, h))) refl

control : LoopControl
control = record {
  free_number = λ ds. power (longest ds);
  -- LO_FLAGS_READ_ONLY and LO_FLAGS_DIRECT_IO cannot be set by a status.
  stored = λ i. record {
    offset = i.offset;
    size_limit = i.size_limit;
    flags = 0;
    file_name = i.file_name;
  };
}

control-Free : IsFreeNumber control
unfolding control
control-Free = record {
  is_free = λ ds. unattached ds (device_path (power (longest ds))) (
      omega (
        arith,
        length-append (codes "/dev/loop") (decimal (power (longest ds))),
        decimal_long (longest ds),
      ));
}

abbrev image : Bytes
image = codes "/r/img"

abbrev device_files : List (Bytes × Node)
device_files = (image, file []) ∷ (codes "/r/blob", file []) ∷ []

abbrev a_config : LoopConfig
a_config = record {
  read_only = true;
  direct_io = true;
  serial = codes "s1";
  offset = 512;
  size_limit = 4096;
}

abbrev plain_config : LoopConfig
plain_config = record {
  read_only = true;
  direct_io = false;
  serial = [];
  offset = 0;
  size_limit = 0;
}

abbrev quiet_world : World (List Bytes)
quiet_world = world_with device_files

abbrev busy_world : ℕ → World (List Bytes)
busy_world k = record quiet_world { faults = setup_rounds k }

image_found : lookup image device_files ≡ some (file [])
unfolding lookup bytes_beq
image_found = refl

setup-retries_example : seen (setup control image a_config (busy_world 4)) ≡ (
  ok (device_at (control.free_number [])),
  device_in_table control image a_config (control.free_number []) ∷ [],
)
setup-retries_example =
    setup-retries control control-Free image a_config (busy_world 4) (file []) 4 image_found refl
      (omega arith)

setup-gives_up_example :
    ((setup control image a_config (busy_world 5)).0
      ≡ err (wrap "LOOP_SET_FD failed" (os_error ebusy)))
    × ((setup control image a_config (busy_world 5)).1 ≡ quiet_world)
setup-gives_up_example =
    setup-gives_up control control-Free image a_config (busy_world 5) (file []) image_found refl

detach-setup_example :
    (setup control image plain_config >>= detach) quiet_world ≡ (ok tt, quiet_world)
detach-setup_example =
    detach-setup control control-Free image plain_config quiet_world (file []) refl refl image_found

-- A host where the command `mount` fails, and `umount` succeeds.
pub failing_tools : MountTools
failing_tools = record {
  mount_all = λ ms target points. (ok tt, target ∷ points);
  unmount_mounts = λ ms target points. (ok tt, []);
  run_mount = λ args points. (false, points);
  run_umount = λ target points. (true, []);
  loop_control = control;
}

failing_tools-Unmounts : Unmounts failing_tools
unfolding failing_tools
failing_tools-Unmounts = record { unmounts = λ target points. refl }

failing_tools-Free : IsFreeNumber failing_tools.loop_control
unfolding failing_tools
failing_tools-Free = control-Free

abbrev merged_mounts : List Mount
merged_mounts =
    record {
      kind = codes "erofs";
      source = image;
      target = [];
      options = codes "ro" ∷ codes "device=/r/blob" ∷ codes "loop" ∷ [];
    }
    ∷ []

run_cleanup-mount_all_example :
    ((mount_all failing_tools merged_mounts (codes "/mnt")
        >>= λ (returned : Cleanup × Result (Unit {0})). run_cleanup failing_tools returned.0)
      quiet_world).1.loops
    ≡ []
run_cleanup-mount_all_example =
    run_cleanup-mount_all failing_tools failing_tools-Free failing_tools-Unmounts merged_mounts
      (codes "/mnt") quiet_world refl

no_zero : has_byte image 0 ≡ false
unfolding has_byte
no_zero = refl

backing_file_example :
    backing_file (record { offset = 0; size_limit = 0; flags = 1; file_name = copied_name image })
    ≡ image
backing_file_example =
    backing_file-copied_name image
      (record { offset = 0; size_limit = 0; flags = 1; file_name = copied_name image }) no_zero refl
