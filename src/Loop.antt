-- ===== src/Loop.antt =====
-- internal/loop: loop devices. An open of a device node and each ioctl is a system call, which the
-- schedule of faults may refuse; a node that is missing is a refusal with ENOENT. Which free number
-- the kernel hands out is a parameter.
pub mod Types
pub mod Find
pub mod Retry
pub mod Balance
pub mod Kept
use nexus_erofs.Prelude.{
  ℕ, zero, suc, ◌+◌, ◌≡◌, Bool, true, false, not, List, [], ◌∷◌, ◌++◌, Bytes, codes, String, ◌==◌,
  bytes_eq, if◌then◌else◌,
}
use nexus_erofs.Errors.{Error, Result, ok, err, os_error, Errno, enoent, ebusy, enxio, wrap}
use nexus_erofs.Os.{
  World, Exec, pure, raise, lift, attempt, wrapping, system_call, stat, write_file, read_file,
  ◌>>=◌,
}
use nexus_erofs.Os.Tree.{Node}
use nexus_erofs.Os.Devices.{LoopDevice, LoopInfo, Loops, is_attached, detached, configured}
use nexus_erofs.Loop.Types.{
  LoopConfig, Device, decimal, lo_flags_read_only, lo_flags_direct_io, copied_name, no_info,
}

-- What the kernel decides: the number that LOOP_CTL_GET_FREE answers, and what LOOP_SET_STATUS64 keeps
-- of the status that it is given.
pub record LoopControl : Type 0 where
  pub free_number : Loops → ℕ
  pub stored : LoopInfo → LoopInfo

abbrev pub device_path : ℕ → Bytes
device_path n = codes "/dev/loop" ++ decimal n

pub record IsFreeNumber (K : LoopControl) : Type 0 where
  pub is_free : (ds : Loops) → is_attached (device_path (K.free_number ds)) ds ≡ false

abbrev sysfs_serial_path : ℕ → Bytes
sysfs_serial_path n = codes "/sys/block/loop" ++ (decimal n ++ codes "/loop/serial")

-- errors.Is(err, ENOENT), as os.IsNotExist tests an errno
is_not_exist : Error → Bool
is_not_exist (os_error enoent) = true
is_not_exist e = false

is_busy : Error → Bool
is_busy (os_error ebusy) = true
is_busy e = false

is_unconfigured : Error → Bool
is_unconfigured (os_error enxio) = true
is_unconfigured e = false

text_or_empty : Result Bytes → Bytes
text_or_empty (ok text) = text
text_or_empty (err e) = []

info_in : Bytes → Loops → Result LoopInfo
info_in path [] = err (os_error enxio)
info_in path (d ∷ ds) = let rest = info_in path ds in if d.path == path then ok d.info else rest

abbrev flags_of : LoopConfig → ℕ
flags_of cfg =
    (if cfg.read_only then lo_flags_read_only else 0)
    + (if cfg.direct_io then lo_flags_direct_io else 0)

abbrev pub info_of : Bytes → LoopConfig → LoopInfo
info_of backing cfg = record {
  offset = cfg.offset;
  size_limit = cfg.size_limit;
  flags = flags_of cfg;
  file_name = copied_name backing;
}

abbrev pub max_retries_left : ℕ
max_retries_left = 4

module _ {Meta : Type 0} where
  -- unix.Open of a device node
  unfoldable pub open_device : Bytes → Exec Meta (Unit {0})
  open_device path = system_call λ w. (ok tt, w)

  set_in : Bool → LoopDevice → World Meta → Result (Unit {0}) × World Meta
  set_in true d w = (err (os_error ebusy), w)
  set_in false d w = (ok tt, record w { loops = d ∷ w.loops })

  -- LOOP_SET_FD
  unfoldable pub set_fd : Bytes → Bytes → Exec Meta (Unit {0})
  unfolding set_in is_attached
  set_fd path backing = system_call λ w.
      set_in (is_attached path w.loops) (record { path = path; backing = backing; info = no_info })
        w

  clear_in : Bool → Bytes → World Meta → Result (Unit {0}) × World Meta
  unfolding detached
  clear_in true path w = (ok tt, record w { loops = detached path w.loops })
  clear_in false path w = (err (os_error enxio), w)

  -- LOOP_CLR_FD
  unfoldable pub clear_fd : Bytes → Exec Meta (Unit {0})
  unfolding clear_in is_attached
  clear_fd path = system_call λ w. clear_in (is_attached path w.loops) path w

  -- SetSerial
  unfoldable pub set_serial : Device → Bytes → Exec Meta (Unit {0})
  set_serial d serial = write_file (sysfs_serial_path d.number) serial

  -- GetSerial
  unfoldable pub get_serial : Device → Exec Meta Bytes
  unfolding text_or_empty
  get_serial d = do
    content ← attempt (read_file (sysfs_serial_path d.number))
    pure (text_or_empty content)

  -- GetInfo
  unfoldable pub get_info : Device → Exec Meta LoopInfo
  unfolding info_in
  get_info d = do
    _ ← wrapping "failed to open loop device" (open_device d.path)
    wrapping "LOOP_GET_STATUS64 failed" (system_call λ w. (info_in d.path w.loops, w))

  cleared : Result (Unit {0}) → Exec Meta (Unit {0})
  unfolding is_unconfigured
  cleared (ok _) = pure tt
  cleared (err e) = if is_unconfigured e then pure tt else raise (wrap "LOOP_CLR_FD failed" e)

  opened : Bytes → Result (Unit {0}) → Exec Meta (Unit {0})
  unfolding cleared is_not_exist
  opened path (err e) =
      if is_not_exist e then pure tt else raise (wrap "failed to open loop device" e)
  opened path (ok _) = do done ← attempt (clear_fd path); cleared done

  open_and_clear : Bytes → Exec Meta (Unit {0})
  unfolding opened
  open_and_clear path = do done ← attempt (open_device path); opened path done

  -- Detach
  unfoldable pub detach : Device → Exec Meta (Unit {0})
  unfolding open_and_clear
  detach d = open_and_clear d.path

  if_found : Bytes → Result (Unit {0}) → Exec Meta (Unit {0})
  unfolding open_and_clear
  if_found path (err e) = if is_not_exist e then pure tt else open_and_clear path
  if_found path (ok _) = open_and_clear path

  -- DetachPath: a stat of the node, and what Detach does
  unfoldable pub detach_path : Bytes → Exec Meta (Unit {0})
  unfolding if_found
  detach_path [] = pure tt
  detach_path (c ∷ cs) = do found ← attempt (open_device (c ∷ cs)); if_found (c ∷ cs) found

module _ (K : LoopControl) {Meta : Type 0} where
  -- LOOP_SET_STATUS64
  unfoldable pub set_status : Bytes → LoopInfo → Exec Meta (Unit {0})
  unfolding configured
  set_status path info =
      system_call λ w. (ok tt, record w { loops = configured path (K.stored info) w.loops })

  -- LOOP_CTL_GET_FREE, the open of the device, and what LOOP_SET_FD returns
  grab : Bytes → Exec Meta (ℕ × Result (Unit {0}))
  grab backing = do
    number ← wrapping "LOOP_CTL_GET_FREE failed" (system_call λ w. (ok (K.free_number w.loops), w))
    _ ← wrapping "failed to open loop device" (open_device (device_path number))
    done ← attempt (set_fd (device_path number) backing)
    pure (number, done)

  -- The device is busy, and there are rounds left.
  next_round : Exec Meta ℕ → ℕ × Result (Unit {0}) → Exec Meta ℕ
  unfolding is_busy
  next_round again (number, ok _) = pure number
  next_round again (number, err e) =
      if is_busy e then again else raise (wrap "LOOP_SET_FD failed" e)

  last_round : ℕ × Result (Unit {0}) → Exec Meta ℕ
  last_round (number, ok _) = pure number
  last_round (number, err e) = raise (wrap "LOOP_SET_FD failed" e)

  -- the retry loop, with the rounds that are left behind this one
  unfoldable pub acquire : ℕ → Bytes → Exec Meta ℕ
  unfolding grab next_round last_round
  acquire zero backing = do grabbed ← grab backing; last_round grabbed
  acquire (suc left) backing = do
    let again = acquire left backing
    grabbed ← grab backing
    next_round again grabbed

  status_or_clear : Bytes → Result (Unit {0}) → Exec Meta (Unit {0})
  status_or_clear path (ok _) = pure tt
  status_or_clear path (err e) = do
    _ ← attempt (clear_fd path)
    raise (wrap "LOOP_SET_STATUS64 failed" e)

  serial_if : Device → Bytes → Exec Meta (Unit {0})
  serial_if d [] = pure tt
  serial_if d (c ∷ cs) = do _ ← attempt (set_serial d (c ∷ cs)); pure tt

  -- Setup
  unfoldable pub setup : Bytes → LoopConfig → Exec Meta Device
  unfolding status_or_clear serial_if
  setup backing cfg = do
    _ ← wrapping "failed to open backing file" (stat backing)
    _ ← wrapping "failed to open /dev/loop-control" (open_device (codes "/dev/loop-control"))
    number ← acquire max_retries_left backing
    done ← attempt (set_status (device_path number) (info_of backing cfg))
    _ ← status_or_clear (device_path number) done
    let device : Device = record { path = device_path number; number = number }
    _ ← serial_if device cfg.serial
    pure device
