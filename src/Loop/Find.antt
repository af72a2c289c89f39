-- ===== src/Loop/Find.antt =====
-- internal/loop/loop_linux.go: the searches through /sys/block, and CleanupBySerialPrefix.
use nexus_erofs.Prelude.{
  ℕ, ◌+◌, ◌-◌, ◌*◌, Bool, ◌||◌, ◌&&◌, not, List, [], ◌∷◌, ◌++◌, Option, none, some, Bytes, codes,
  length, drop, leb, ◌==◌, bytes_eq, nat_eq, if◌then◌else◌,
}
use nexus_erofs.Strings.{has_prefix, trim_suffix}
use nexus_erofs.FilePath.{join_path}
use nexus_erofs.Errors.{Result, ok, err, wrap}
use nexus_erofs.Os.{Exec, pure, attempt, wrapping, read_file, read_dir, ◌>>=◌}
use nexus_erofs.Loop.{detach}
use nexus_erofs.Loop.Types.{Device}

abbrev loop_device_prefix : Bytes
loop_device_prefix = codes "loop"

abbrev sys_block : Bytes
sys_block = codes "/sys/block"

-- fmt.Sscanf(name, "loop%d", &devNum): the digits behind the prefix, or 0 where there are none
is_digit : ℕ → Bool
is_digit c = leb b'0' c && leb c b'9'

scan_digits : ℕ → Bytes → ℕ
unfolding is_digit
scan_digits n [] = n
scan_digits n (c ∷ s) =
    let rest = scan_digits (n * 10 + (c - b'0')) s in if is_digit c then rest else n

unfoldable pub device_number : Bytes → ℕ
unfolding scan_digits
device_number name = scan_digits 0 (drop (length loop_device_prefix) name)

abbrev device_of : Bytes → Device
device_of name = record { path = codes "/dev/" ++ name; number = device_number name }

-- a byte at the end of a text that sysfs ends in a newline
abbrev sysfs_text : Bytes → Bytes
sysfs_text content = trim_suffix content (10 ∷ [])

abbrev attribute_path : Bytes → Bytes → Bytes
attribute_path name attribute = join_path (sys_block ∷ name ∷ codes "loop" ∷ attribute ∷ [])

-- one round of the loop that collects
keep : (Bytes → Bool) → Bytes → Result Bytes → List Device → List Device
keep test name (err _) devices = devices
keep test name (ok content) devices =
    if test (sysfs_text content) then device_of name ∷ devices else devices

module _ {Meta : Type 0} where
  module _ (attribute : Bytes) (test : Bytes → Bool) where
    first_or : Bytes → Exec Meta (Option Device) → Result Bytes → Exec Meta (Option Device)
    first_or name next (err _) = next
    first_or name next (ok content) =
        if test (sysfs_text content) then pure (some (device_of name)) else next

    -- the loop that returns at the first match
    unfoldable pub find_first : List Bytes → Exec Meta (Option Device)
    unfolding first_or
    find_first [] = pure none
    find_first (name ∷ names) =
        let next = find_first names in
        if not (has_prefix name loop_device_prefix) then next else do
          content ← attempt (read_file (attribute_path name attribute))
          first_or name next content

    -- the loop that collects the matches
    unfoldable pub find_all : List Bytes → Exec Meta (List Device)
    unfolding keep
    find_all [] = pure []
    find_all (name ∷ names) =
        let next = find_all names in
        if not (has_prefix name loop_device_prefix) then next else do
          content ← attempt (read_file (attribute_path name attribute))
          rest ← next
          pure (keep test name content rest)

  -- FindByBackingFile; the first argument is what filepath.Abs makes of the path.
  unfoldable pub find_by_backing_file : Bytes → Bytes → Exec Meta (Option Device)
  find_by_backing_file absolute backing = do
    names ← wrapping "failed to read /sys/block" (read_dir sys_block)
    find_first (codes "backing_file") (λ text. text == absolute || text == backing) names

  -- FindBySerial
  unfoldable pub find_by_serial : Bytes → Exec Meta (Option Device)
  find_by_serial serial = do
    names ← wrapping "failed to read /sys/block" (read_dir sys_block)
    find_first (codes "serial") (λ text. text == serial) names

  -- FindBySerialPrefix
  unfoldable pub find_by_serial_prefix : Bytes → Exec Meta (List Device)
  find_by_serial_prefix prefix = do
    names ← wrapping "failed to read /sys/block" (read_dir sys_block)
    find_all (codes "serial") (λ text. has_prefix text prefix) names

  -- The number that is returned beside an error counts the devices that were detached before it.
  counted :
      ℕ
      → Result (Unit {0})
      → (ℕ → Exec Meta (ℕ × Result (Unit {0})))
      → Exec Meta (ℕ × Result (Unit {0}))
  counted n (ok _) next = next (n + 1)
  counted n (err e) next = pure (n, err (wrap "failed to detach" e))

  unfoldable pub detach_each : List Device → ℕ → Exec Meta (ℕ × Result (Unit {0}))
  unfolding counted
  detach_each [] n = pure (n, ok tt)
  detach_each (d ∷ ds) n = do done ← attempt (detach d); counted n done (λ m. detach_each ds m)

  found_devices : Result (List Device) → Exec Meta (ℕ × Result (Unit {0}))
  unfolding detach_each
  found_devices (err e) = pure (0, err e)
  found_devices (ok devices) = detach_each devices 0

  -- CleanupBySerialPrefix
  unfoldable pub cleanup_by_serial_prefix : Bytes → Exec Meta (ℕ × Result (Unit {0}))
  unfolding found_devices
  cleanup_by_serial_prefix prefix = do
    devices ← attempt (find_by_serial_prefix prefix)
    found_devices devices
