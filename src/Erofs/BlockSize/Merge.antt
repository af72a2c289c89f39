-- ===== src/Erofs/BlockSize/Merge.antt =====
-- Which layers CanMergeFsmeta accepts.
use nexus_erofs.Prelude.{
  false, ℕ, zero, suc, ◌<◌, ◌%◌, ◌^◌, ltb, length, take, drop, Bool, true, not, ◌&&◌, ◌≡◌, refl,
  List, [], ◌∷◌, some, Bytes, leb, nat_eq, ◌==◌, if◌then◌else◌, arith, All, Bool-cases, inl, inr,
}
use mathlib.Core.Bool.{false≢true}
use nexus_erofs.Errors.{Result, ok, err, message, ◌>>=◌, wrapped}
use nexus_erofs.Os.{World, wrapping, read_file, system_call}
use nexus_erofs.Os.Tree.{Files, file, lookup}
use nexus_erofs.Erofs.BlockSize.{
  block_size, little_endian, byte_at, is_mergeable, shift_one, int_lt, get_block_size,
  can_merge_fsmeta,
}

-- a test at each number below a bound
holds_up_to : (ℕ → Bool) → ℕ → Bool
holds_up_to test zero = true
holds_up_to test (suc bound) = if test bound then holds_up_to test bound else false

holds_up_to_lem :
    (test : ℕ → Bool) (bound i : ℕ) → i < bound → holds_up_to test bound ≡ true → test i ≡ true
unfolding holds_up_to
holds_up_to_lem test zero i below table = absurd (omega arith)
holds_up_to_lem test (suc bound) i below table = ground (arith, holds_up_to_lem test bound i)

abbrev same_answer : ℕ → Bool
same_answer b =
    if leb 12 b && leb b 62
    then is_mergeable (ok (shift_one b))
    else not (is_mergeable (ok (shift_one b)))

mergeable_table : holds_up_to same_answer 256 ≡ true
unfolding holds_up_to is_mergeable shift_one int_lt
mergeable_table = refl

-- For every byte in the field of the block size: the size is accepted exactly from 2^12 up to
-- 2^62. A larger shift leaves the range of an int, and is refused as well.
pub is_mergeable-shift_one :
    (bits : ℕ) → bits < 256 → is_mergeable (ok (shift_one bits)) ≡ (leb 12 bits && leb bits 62)
is_mergeable-shift_one bits h =
    ground (arith, holds_up_to_lem same_answer 256 bits h mergeable_table)

-- The 16 bytes at offset 1024 of an image: they are all there, the magic number is that of EROFS, and
-- the shift in the byte at 12 gives a block size from 4096 up, as an int of 64 bits.
pub record IsSuperblock (buf : Bytes) : Type 0 where
  pub whole : ltb (length buf) 16 ≡ false
  pub magic : little_endian buf ≡ 0xE0F5E1E2
  pub at_least : ltb (2 ^ byte_at buf 12 % 2 ^ 64) 4096 ≡ false
  pub in_range : leb (2 ^ 63) (2 ^ byte_at buf 12 % 2 ^ 64) ≡ false

-- A file with such a superblock stands at the path.
pub record IsMergeableLayer (files : Files) (path : Bytes) : Type 0 where
  pub content : Bytes
  pub present : lookup path files ≡ some (file content)
  pub superblock : IsSuperblock (take 16 (drop 1024 content))

-- the tests of GetBlockSize and CanMergeFsmeta on the values that they read
checked_values :
    (short : Bool) (magic size : ℕ)
    → is_mergeable (
        if short
        then err (message "failed to read EROFS superblock")
        else if not (magic == 0xE0F5E1E2)
        then err (message "invalid EROFS magic")
        else ok size)
      ≡ true
    → (short ≡ false) × (magic ≡ 0xE0F5E1E2) × (ltb size 4096 ≡ false) × (leb (2 ^ 63) size ≡ false)
unfolding is_mergeable int_lt
checked_values true magic size h = absurd cc
checked_values false magic size h = ground arith

block_size-IsSuperblock :
    (content : Bytes)
    → is_mergeable (block_size content) ≡ true
    → IsSuperblock (take 16 (drop 1024 content))
unfolding block_size shift_one
block_size-IsSuperblock content h =
    let buf = take 16 (drop 1024 content) in
    let checks =
      checked_values (ltb (length buf) 16) (little_endian buf) (2 ^ byte_at buf 12 % 2 ^ 64) h in
    record { whole = checks.0; magic = checks.1; at_least = checks.2; in_range = checks.3 }

module _ {Meta : Type 0} where
  files-get_block_size : (p : Bytes) (w : World Meta) → (get_block_size p w).1.files ≡ w.files
  unfolding get_block_size wrapping read_file system_call
  files-get_block_size p w = ground arith

  read_file-ok :
      (p : Bytes) (w : World Meta) (c : Bytes)
      → (read_file p w).0 ≡ ok c
      → lookup p w.files ≡ some (file c)
  unfolding read_file system_call
  read_file-ok p w c h = ground arith

  mergeable_content :
      (p : Bytes) (w : World Meta) (r : Result Bytes)
      → (read_file p w).0 ≡ r
      → is_mergeable (wrapped "failed to open EROFS file" r >>= block_size) ≡ true
      → IsMergeableLayer w.files p
  mergeable_content p w (err e) q h = absurd (unfold is_mergeable in false≢true h)
  mergeable_content p w (ok c) q h = record {
    content = c;
    present = read_file-ok p w c q;
    superblock = block_size-IsSuperblock c h;
  }

  get_block_size_sound :
      (p : Bytes) (w : World Meta)
      → is_mergeable (get_block_size p w).0 ≡ true
      → IsMergeableLayer w.files p
  unfolding get_block_size wrapping
  get_block_size_sound p w h = mergeable_content p w (read_file p w).0 refl h

  -- Whatever calls are refused: if the merge is allowed, every layer is a file that has at
  -- offset 1024 the 16 bytes of a superblock, with the magic number of EROFS and a block size of at
  -- least 4096 that is in the range of an int.
  pub can_merge_fsmeta_sound :
      (paths : List Bytes) (w : World Meta)
      → (can_merge_fsmeta paths w).0 ≡ true
      → All (IsMergeableLayer w.files) paths
  unfolding can_merge_fsmeta
  can_merge_fsmeta_sound [] w h = tt
  can_merge_fsmeta_sound (p ∷ paths) w h = elim (Bool-cases (is_mergeable (get_block_size p w).0)) [
    | inl merges ↦
        let rest : All (IsMergeableLayer (get_block_size p w).1.files) paths =
          can_merge_fsmeta_sound paths (get_block_size p w).1 (rw merges at h) in
        (get_block_size_sound p w merges, rw (files-get_block_size p w) at rest)
    | inr refused ↦ cc (rw refused at h)
  ]

  pub files-can_merge_fsmeta :
      (paths : List Bytes) (w : World Meta) → (can_merge_fsmeta paths w).1.files ≡ w.files
  unfolding can_merge_fsmeta
  files-can_merge_fsmeta [] w = refl
  files-can_merge_fsmeta (p ∷ paths) w =
      ground (arith, files-get_block_size p w, files-can_merge_fsmeta paths (get_block_size p w).1)

  faults-get_block_size :
      (p : Bytes) (w : World Meta) → w.faults ≡ [] → (get_block_size p w).1.faults ≡ []
  unfolding get_block_size wrapping read_file system_call
  faults-get_block_size p w h = ground arith

  pub faults-can_merge_fsmeta :
      (paths : List Bytes) (w : World Meta)
      → w.faults ≡ []
      → (can_merge_fsmeta paths w).1.faults ≡ []
  unfolding can_merge_fsmeta
  faults-can_merge_fsmeta [] w h = h
  faults-can_merge_fsmeta (p ∷ paths) w h =
      ground
        (arith, faults-get_block_size p w h, faults-can_merge_fsmeta paths (get_block_size p w).1)
