-- ===== src/Loop/Types.antt =====
-- internal/loop/types.go: configurations, devices, and the name of the backing file in the status.
use nexus_erofs.Prelude.{
  ℕ, zero, suc, ◌+◌, ◌-◌, ◌/◌, ◌%◌, ◌≡◌, refl, ap, ◌∙◌, Bool, false, [], ◌∷◌, ◌++◌, Bytes, length,
  take, ◌==◌, nat_eq, if◌then◌else◌, arith,
}
use nexus_erofs.Strings.{has_byte}
use nexus_erofs.Os.Devices.{LoopInfo}

pub record LoopConfig : Type 0 where
  pub read_only : Bool
  pub direct_io : Bool
  pub serial : Bytes
  pub offset : ℕ
  pub size_limit : ℕ

pub record Device : Type 0 where
  pub path : Bytes
  pub number : ℕ

-- LoFlagsReadOnly and LoFlagsDirectIO: different bits, so that `|=` is a sum
abbrev pub lo_flags_read_only : ℕ
lo_flags_read_only = 1

abbrev pub lo_flags_direct_io : ℕ
lo_flags_direct_io = 16

abbrev pub no_info : LoopInfo
no_info = record { offset = 0; size_limit = 0; flags = 0; file_name = [] }

-- The digits of a number, as `%d` prints them; a number has fewer digits than the fuel.
unfoldable pub digits : ℕ → ℕ → Bytes
digits zero n = []
digits (suc fuel) n =
    let more = digits fuel (n / 10) ++ (b'0' + n % 10) ∷ [] in
    if n / 10 == 0 then (b'0' + n % 10) ∷ [] else more

unfoldable pub decimal : ℕ → Bytes
unfolding digits
decimal n = digits (n + 1) n

-- `FileName [64]byte`
abbrev pub file_name_size : ℕ
file_name_size = 64

pub zeros : ℕ → Bytes
zeros zero = []
zeros (suc n) = 0 ∷ zeros n

-- copy(info.FileName[:], backingFile), into 64 zero bytes
unfoldable pub copied_name : Bytes → Bytes
unfolding zeros
copied_name name = take file_name_size name ++ zeros (file_name_size - length name)

-- BackingFile, up to the first zero byte
until_zero : Bytes → Bytes
until_zero [] = []
until_zero (c ∷ s) = let rest = until_zero s in if c == 0 then [] else c ∷ rest

unfoldable pub backing_file : LoopInfo → Bytes
unfolding until_zero
backing_file info = until_zero info.file_name

until_zero-append : (s : Bytes) (n : ℕ) → has_byte s 0 ≡ false → until_zero (s ++ zeros n) ≡ s
unfolding until_zero zeros has_byte
until_zero-append [] zero h = refl
until_zero-append [] (suc n) h = refl
until_zero-append (c ∷ s) n h = ground (arith, until_zero-append s n)

has_byte-take : (s : Bytes) (k n : ℕ) → has_byte s k ≡ false → has_byte (take n s) k ≡ false
unfolding has_byte
has_byte-take s k zero h = refl
has_byte-take [] k (suc n) h = refl
has_byte-take (c ∷ s) k (suc n) h = ground (arith, has_byte-take s k n)

-- The name that Setup stores for a file whose path holds no zero byte is read back up to 64 bytes;
-- a longer path fills the field and has no zero byte at its end.
pub backing_file-copied_name :
    (name : Bytes) (info : LoopInfo)
    → has_byte name 0 ≡ false
    → info.file_name ≡ copied_name name
    → backing_file info ≡ take file_name_size name
unfolding backing_file copied_name
backing_file-copied_name name info h e =
    ap until_zero e
    ∙ until_zero-append (take 64 name) (64 - length name) (has_byte-take name 0 64 h)
