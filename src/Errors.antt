-- ===== src/Errors.antt =====
-- Go's `error` results. An error that wraps another keeps it, as `%w` does, with the fixed words of
-- its message; the values that are formatted into a message are left out, but for those of the two
-- structured types of internal/snapshotter/errors.go.
use nexus_erofs.Prelude.{ℕ, String, Bool, true, false, Bytes}

-- The numbers of system calls that the code tests for; `eother` stands for the others.
pub data Errno : Type 0 where
  enoent eexist einval ebusy enxio ewouldblock : Errno
  eother : ℕ → Errno

pub data Error : Type 0 where
  os_error : Errno → Error
  not_implemented : Error
  failed_precondition : Error
  message : String → Error
  -- an error of code outside the repository
  foreign : ℕ → Error
  layer_blob_not_found : Bytes → Bytes → Error
  commit_conversion : Bytes → Bytes → Error → Error
  wrap : String → Error → Error

pub data Result {ℓ} (A : Type ℓ) : Type ℓ where
  ok : A → Result A
  err : Error → Result A

infixl 10 ◌>>=◌
abbrev pub ◌>>=◌ {ℓ κ} : {A : Type ℓ} {B : Type κ} → Result A → (A → Result B) → Result B
ok a >>= f = f a
err e >>= f = err e

-- fmt.Errorf("...: %w", err)
abbrev pub wrapped {ℓ} : {A : Type ℓ} → String → Result A → Result A
wrapped text (ok a) = ok a
wrapped text (err e) = err (wrap text e)

-- errdefs.IsNotImplemented, and errors.Is for an errno: both look through wrapped errors.
unfoldable pub is_not_implemented : Error → Bool
is_not_implemented not_implemented = true
is_not_implemented (wrap text e) = is_not_implemented e
is_not_implemented (commit_conversion id upper e) = is_not_implemented e
is_not_implemented e = false

abbrev is_unmounted : Errno → Bool
is_unmounted einval = true
is_unmounted enoent = true
is_unmounted e = false

-- isNotMountError of internal/snapshotter/snapshotter_linux.go
unfoldable pub is_not_mount_error : Error → Bool
is_not_mount_error (os_error e) = is_unmounted e
is_not_mount_error (wrap text e) = is_not_mount_error e
is_not_mount_error (commit_conversion id upper e) = is_not_mount_error e
is_not_mount_error e = false
