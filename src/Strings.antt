-- ===== src/Strings.antt =====
-- What the code uses of Go's `strings` and `bytes` packages, over lists of bytes. Separators are
-- single bytes, as they are at every call in the repository.
pub mod Affix
pub mod Split
pub mod Replace
use nexus_erofs.Prelude.{
  ℕ, zero, suc, ◌-◌, Bool, true, false, not, ◌&&◌, ◌||◌, List, [], ◌∷◌, ◌++◌, Option, none, some,
  Bytes, length, take, drop, leb, ◌==◌, nat_eq, bytes_eq, if◌then◌else◌,
}

-- strings.HasPrefix
unfoldable pub has_prefix : Bytes → Bytes → Bool
has_prefix s [] = true
has_prefix [] (p ∷ ps) = false
has_prefix (c ∷ s) (p ∷ ps) = c == p && has_prefix s ps

-- strings.HasSuffix: len(s) >= len(t) && s[len(s)-len(t):] == t
unfoldable pub has_suffix : Bytes → Bytes → Bool
has_suffix s t = leb (length t) (length s) && drop (length s - length t) s == t

-- strings.TrimPrefix
unfoldable pub trim_prefix : Bytes → Bytes → Bytes
unfolding has_prefix
trim_prefix s p = if has_prefix s p then drop (length p) s else s

-- strings.TrimSuffix
unfoldable pub trim_suffix : Bytes → Bytes → Bytes
unfolding has_suffix
trim_suffix s t = if has_suffix s t then take (length s - length t) s else s

-- strings.Contains
unfoldable pub contains : Bytes → Bytes → Bool
unfolding has_prefix
contains [] t = has_prefix [] t
contains (c ∷ s) t = has_prefix (c ∷ s) t || contains s t

-- Does the byte occur?
unfoldable pub has_byte : Bytes → ℕ → Bool
has_byte [] b = false
has_byte (c ∷ s) b = c == b || has_byte s b

-- A byte in front of the first part.
abbrev pub grow : ℕ → List Bytes → List Bytes
grow c [] = (c ∷ []) ∷ []
grow c (p ∷ ps) = (c ∷ p) ∷ ps

-- strings.Split
unfoldable pub split : Bytes → ℕ → List Bytes
split [] sep = [] ∷ []
split (c ∷ s) sep = let rest = split s sep in if c == sep then [] ∷ rest else grow c rest

-- strings.Join
unfoldable pub join : List Bytes → Bytes → Bytes
join [] sep = []
join (p ∷ []) sep = p
join (p ∷ q ∷ ps) sep = p ++ (sep ++ join (q ∷ ps) sep)

-- parts[len(parts)-1] and parts[0] of a split, which is never empty
unfoldable pub last_part : List Bytes → Bytes
last_part [] = []
last_part (p ∷ []) = p
last_part (p ∷ q ∷ ps) = last_part (q ∷ ps)

unfoldable pub first_part : List Bytes → Bytes
first_part [] = []
first_part (p ∷ ps) = p

-- strings.Cut, `none` where the separator is not found
abbrev extend : ℕ → Option (Bytes × Bytes) → Option (Bytes × Bytes)
extend c none = none
extend c (some (before, after)) = some (c ∷ before, after)

unfoldable pub cut : Bytes → ℕ → Option (Bytes × Bytes)
cut [] sep = none
cut (c ∷ s) sep = let rest = cut s sep in if c == sep then some ([], s) else extend c rest

-- strings.ReplaceAll, for a text `from` that is not empty. The number counts the bytes that are
-- still to be passed over behind a match.
replace_from : ℕ → Bytes → Bytes → Bytes → Bytes
replace_from skip [] from to = []
replace_from (suc skip) (c ∷ s) from to = replace_from skip s from to
replace_from zero (c ∷ s) from to = elim (has_prefix (c ∷ s) from) [
  | true ↦ to ++ replace_from (length from - 1) s from to
  | false ↦ c ∷ replace_from 0 s from to
]

unfoldable pub replace_all : Bytes → Bytes → Bytes → Bytes
unfolding replace_from has_prefix
replace_all s from to = replace_from 0 s from to

-- strings.Replace(s, from, to, 1), for single bytes
unfoldable pub replace_first : Bytes → ℕ → ℕ → Bytes
replace_first [] from to = []
replace_first (c ∷ s) from to =
    let rest = replace_first s from to in if c == from then to ∷ s else c ∷ rest
