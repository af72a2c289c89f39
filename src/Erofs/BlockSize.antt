-- ===== src/Erofs/BlockSize.antt =====
-- GetBlockSize and CanMergeFsmeta: the superblock of an EROFS image.
pub mod Merge
use Prim.Native.Nat.{bit_or}
use nexus_erofs.Prelude.{
  ℕ, zero, suc, ◌+◌, ◌*◌, ◌%◌, ◌^◌, ◌≤◌, ◌<◌, Bool, true, false, not, ◌&&◌, ◌||◌, ◌≡◌, refl, List,
  [], ◌∷◌, Option, none, some, Bytes, length, take, drop, ltb, leb, get_elem?, ◌==◌, nat_eq,
  if◌then◌else◌, arith,
}
use nexus_erofs.Errors.{Error, Result, ok, err, message, ◌>>=◌}
use nexus_erofs.Os.{World, Exec, wrapping, attempt, read_file}

abbrev pub erofs_min_block_size_for_fsmeta : ℕ
erofs_min_block_size_for_fsmeta = 4096

abbrev pub erofs_superbloc_offset : ℕ
erofs_superbloc_offset = 1024

abbrev pub erofs_magic : ℕ
erofs_magic = 0xE0F5E1E2

abbrev pub erofs_blksz_bits_offset : ℕ
erofs_blksz_bits_offset = 12

-- buf[i]; the buffer holds 16 bytes at every call
unfoldable pub byte_at : Bytes → ℕ → ℕ
byte_at [] i = 0
byte_at (c ∷ s) zero = c
byte_at (c ∷ s) (suc i) = byte_at s i

-- The four bytes as a little-endian uint32. A byte shifted by 24 bits stays below 2^32.
unfoldable pub little_endian : Bytes → ℕ
unfolding byte_at
little_endian buf =
    bit_or (bit_or (bit_or (byte_at buf 0) (byte_at buf 1 * 2 ^ 8)) (byte_at buf 2 * 2 ^ 16))
      (byte_at buf 3 * 2 ^ 24)

-- `1 << bits` as an int of 64 bits: its bit pattern.
unfoldable pub shift_one : ℕ → ℕ
shift_one bits = 2 ^ bits % 2 ^ 64

-- a < b for ints, given by their bit patterns, where b is not negative
unfoldable pub int_lt : ℕ → ℕ → Bool
int_lt a b = leb (2 ^ 63) a || ltb a b

-- GetBlockSize of what the file holds. ReadAt fails when the 16 bytes at the offset are not there.
unfoldable pub block_size : Bytes → Result ℕ
unfolding little_endian shift_one byte_at
block_size content =
    let buf = take 16 (drop erofs_superbloc_offset content) in
    let magic = little_endian buf in
    if ltb (length buf) 16
    then err (message "failed to read EROFS superblock")
    else if not (magic == erofs_magic)
    then err (message "invalid EROFS magic")
    else ok (shift_one (byte_at buf erofs_blksz_bits_offset))

-- the two tests in the loop of CanMergeFsmeta
unfoldable pub is_mergeable : Result ℕ → Bool
unfolding int_lt
is_mergeable (err e) = false
is_mergeable (ok size) = not (int_lt size erofs_min_block_size_for_fsmeta)

module _ {Meta : Type 0} where
  -- GetBlockSize
  unfoldable pub get_block_size : Bytes → Exec Meta ℕ
  get_block_size path w =
      let (content, w') = wrapping "failed to open EROFS file" (read_file path) w in
      (content >>= block_size, w')

  can_merge_step : Result ℕ × World Meta → (World Meta → Bool × World Meta) → Bool × World Meta
  can_merge_step (size, w) rest = if is_mergeable size then rest w else (false, w)

  -- CanMergeFsmeta, with the reads that it makes
  unfoldable pub can_merge_fsmeta : List Bytes → World Meta → Bool × World Meta
  unfolding can_merge_step
  can_merge_fsmeta [] w = (true, w)
  can_merge_fsmeta (path ∷ paths) w =
      can_merge_step (get_block_size path w) (λ w'. can_merge_fsmeta paths w')
