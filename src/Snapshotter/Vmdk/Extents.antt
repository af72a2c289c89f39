-- ===== src/Snapshotter/Vmdk/Extents.antt =====
-- internal/snapshotter/vmdk.go: the expression for the lines of flat extents, and ParseVMDK. The
-- expression `^RW\s+(\d+)\s+FLAT\s+"([^"]+)"\s+\d+` matches in at most one way, since what each of
-- its repetitions takes cannot begin what follows it.
pub mod Lines
use nexus_erofs.Prelude.{
  ℕ, ◌+◌, ◌-◌, ◌*◌, ◌^◌, Bool, true, false, not, ◌&&◌, ◌||◌, List, [], ◌∷◌, Option, none, some,
  Bytes, codes, length, drop, leb, ltb, ◌==◌, nat_eq, if◌then◌else◌,
}
use nexus_erofs.Strings.{has_prefix}

infixl 10 ◌>>=◌
abbrev pub ◌>>=◌ : {A B : Type 0} → Option A → (A → Option B) → Option B
none >>= f = none
some a >>= f = f a

-- `\s`
unfoldable pub is_blank : ℕ → Bool
is_blank c = c == 9 || (c == 10 || (c == 12 || (c == 13 || c == 32)))

unfoldable pub is_digit : ℕ → Bool
is_digit c = leb b'0' c && leb c b'9'

abbrev pub quote : ℕ
quote = b'"'

-- the longest part in front whose bytes pass the test, and the rest
unfoldable pub span : (ℕ → Bool) → Bytes → Bytes × Bytes
span test [] = ([], [])
span test (c ∷ s) = let rest = span test s in if test c then (c ∷ rest.0, rest.1) else ([], c ∷ s)

not_empty : Bytes × Bytes → Option (Bytes × Bytes)
not_empty ([], s) = none
not_empty (c ∷ taken, s) = some (c ∷ taken, s)

-- one or more bytes that pass the test
unfoldable pub some_of : (ℕ → Bool) → Bytes → Option (Bytes × Bytes)
unfolding not_empty span
some_of test s = not_empty (span test s)

unfoldable pub literal : Bytes → Bytes → Option Bytes
unfolding has_prefix
literal text s = if has_prefix s text then some (drop (length text) s) else none

-- layerPathRegex.FindStringSubmatch: the sectors and the path
unfoldable pub find_extent : Bytes → Option (Bytes × Bytes)
unfolding some_of literal is_blank is_digit
find_extent line = do
  s1 ← literal (codes "RW") line
  (_, s2) ← some_of is_blank s1
  (sectors, s3) ← some_of is_digit s2
  (_, s4) ← some_of is_blank s3
  s5 ← literal (codes "FLAT") s4
  (_, s6) ← some_of is_blank s5
  s7 ← literal (quote ∷ []) s6
  (path, s8) ← some_of (λ c. not (c == quote)) s7
  s9 ← literal (quote ∷ []) s8
  (_, s10) ← some_of is_blank s9
  _ ← some_of is_digit s10
  some (sectors, path)

value_of : ℕ → Bytes → ℕ
value_of n [] = n
value_of n (c ∷ s) = value_of (n * 10 + (c - b'0')) s

-- fmt.Sscanf of digits into an int64, and 0 where the number is out of its range
unfoldable pub sectors_of : Bytes → ℕ
unfolding value_of
sectors_of text = let n = value_of 0 text in if ltb n (2 ^ 63) then n else 0
