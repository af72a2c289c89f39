-- ===== src/Preflight.antt =====
-- internal/preflight/preflight_linux.go: versions of the kernel. An `int` is a number at most
-- `max_int`; a negative one does not occur, since the text is cut at its first `-`.
pub mod Order
use nexus_erofs.Prelude.{
  ℕ, String, ◌+◌, ◌-◌, ◌*◌, ◌^◌, Bool, true, false, not, ◌&&◌, ◌||◌, List, [], ◌∷◌, ◌++◌, ◌≡◌, refl,
  Bytes, codes, ltb, leb, ◌==◌, nat_eq, bytes_beq, bytes_eq, if◌then◌else◌,
}
use nexus_erofs.Strings.{contains, split, first_part}
use nexus_erofs.Errors.{Error, Result, ok, err, message, wrap, wrapped, ◌>>=◌}

abbrev pub max_int : ℕ
max_int = 2 ^ 63 - 1

abbrev max_uint : ℕ
max_uint = 2 ^ 64 - 1

-- MinKernelVersion
unfoldable pub min_kernel_version : Bytes
min_kernel_version = codes "6.10"

abbrev is_digit : ℕ → Bool
is_digit c = leb b'0' c && leb c b'9'

-- What strconv.Atoi returns: the number, and whether the error is nil. At a byte that is no digit
-- the number is 0, and past the range it is `max_int`; a number past uint64 stops the reading.
digits_from : ℕ → Bytes → ℕ × Bool
digits_from n [] = if ltb max_int n then (max_int, false) else (n, true)
digits_from n (c ∷ s) =
    let next = n * 10 + (c - b'0') in
    let rest = digits_from next s in
    if not (is_digit c) then (0, false) else if ltb max_uint next then (max_int, false) else rest

atoi_digits : Bytes → ℕ × Bool
atoi_digits [] = (0, false)
atoi_digits (c ∷ s) = digits_from 0 (c ∷ s)

-- strconv.Atoi, of a text without a minus sign
unfoldable pub atoi : Bytes → ℕ × Bool
unfolding digits_from atoi_digits
atoi [] = (0, false)
atoi (c ∷ s) = if c == b'+' then atoi_digits s else atoi_digits (c ∷ s)

-- The loop that cuts `patchStr` at its first byte that is no digit.
leading_digits : Bytes → Bytes
leading_digits [] = []
leading_digits (c ∷ s) = let rest = leading_digits s in if is_digit c then c ∷ rest else []

patch_prefix : Bytes → ℕ → ℕ
unfolding atoi
patch_prefix [] patch = patch
patch_prefix (c ∷ s) patch = (atoi (c ∷ s)).0

patch_number : Bytes → ℕ × Bool → ℕ
unfolding leading_digits patch_prefix
patch_number text (patch, true) = patch
patch_number text (patch, false) = patch_prefix (leading_digits text) patch

parse_patch : List Bytes → ℕ
unfolding patch_number atoi
parse_patch [] = 0
parse_patch (text ∷ rest) = patch_number text (atoi text)

parse_int : String → ℕ × Bool → Result ℕ
parse_int text (n, true) = ok n
parse_int text (n, false) = err (message text)

pub record Version : Type 0 where
  pub major : ℕ
  pub minor : ℕ
  pub patch : ℕ

parse_numbers : List Bytes → Result Version
unfolding parse_int atoi parse_patch
parse_numbers (major_text ∷ minor_text ∷ rest) = do
  major ← parse_int "invalid major version" (atoi major_text)
  minor ← parse_int "invalid minor version" (atoi minor_text)
  ok (record { major = major; minor = minor; patch = parse_patch rest })
parse_numbers _ = err (message "invalid version format")

-- parseVersion
unfoldable pub parse_version : Bytes → Result Version
unfolding parse_numbers first_part split
parse_version version = parse_numbers (split (first_part (split version b'-')) b'.')

-- The sign that CompareVersions returns: -1, 0 or 1.
pub data Sign : Type 0 where
  less same greater : Sign

unfoldable pub compare_parsed : Version → Version → Sign
compare_parsed v w =
    if not (v.major == w.major)
    then if ltb v.major w.major then less else greater
    else if not (v.minor == w.minor)
    then if ltb v.minor w.minor then less else greater
    else if not (v.patch == w.patch)
    then if ltb v.patch w.patch then less else greater
    else same

-- CompareVersions
unfoldable pub compare_versions : Bytes → Bytes → Result Sign
compare_versions v1 v2 = do v ← parse_version v1; w ← parse_version v2; ok (compare_parsed v w)

check_sign : Sign → Result (Unit {0})
check_sign less = err (message "kernel version is less than required")
check_sign same = ok tt
check_sign greater = ok tt

-- CheckKernelVersion; the first argument is what KernelVersion returns.
unfoldable pub check_kernel_version : Result Bytes → Bytes → Result (Unit {0})
unfolding compare_versions check_sign
check_kernel_version running min_version = do
  current ← running
  cmp ← wrapped "failed to compare versions" (compare_versions current min_version)
  check_sign cmp

-- isErofsRegistered; the argument is what reading /proc/filesystems returns.
unfoldable pub is_erofs_registered : Result Bytes → Bool
is_erofs_registered (err e) = false
is_erofs_registered (ok text) = contains text (codes "\terofs\n")

-- CheckErofsSupport; the first argument says whether exec.LookPath finds mkfs.erofs.
unfoldable pub check_erofs_support : Bool → Result Bytes → Result (Unit {0})
unfolding is_erofs_registered
check_erofs_support found filesystems =
    if not found
    then err (message "mkfs.erofs not found in PATH, please install erofs-utils")
    else if not (is_erofs_registered filesystems)
    then err (message "EROFS filesystem not available, please run: modprobe erofs")
    else ok tt

-- Check
unfoldable pub check : Result Bytes → Bool → Result Bytes → Result (Unit {0})
unfolding check_kernel_version check_erofs_support min_kernel_version
check running found filesystems = do
  _ ← check_kernel_version running min_kernel_version
  check_erofs_support found filesystems

-- the cases of the package's own tests
parse_tests :
    (parse_version (codes "6.16.0-rc1") ≡ ok (record { major = 6; minor = 16; patch = 0 }))
    × (parse_version (codes "6.10") ≡ ok (record { major = 6; minor = 10; patch = 0 }))
    × (parse_version (codes "6.8.12+b") ≡ ok (record { major = 6; minor = 8; patch = 12 }))
    × (parse_version (codes "6") ≡ err (message "invalid version format"))
unfolding parse_version
parse_tests = (refl, refl, refl, refl)
