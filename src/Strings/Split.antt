-- ===== src/Strings/Split.antt =====
-- Splitting and joining.
use nexus_erofs.Prelude.{
  ℕ, false, ◌||◌, List, [], ◌∷◌, ◌++◌, ◌≡◌, ◌≢◌, refl, ◌∙◌, arith, Bytes, ◌==◌, nat_eq, eq_refl,
  some, Bool-cases, inl, inr, All,
}
use nexus_erofs.Strings.{grow, split, join, has_byte, last_part, cut}

grow-ne-nil : (c : ℕ) (ps : List Bytes) → grow c ps ≢ []
grow-ne-nil c [] = cc
grow-ne-nil c (p ∷ ps) = cc

pub split-ne-nil : (s : Bytes) (sep : ℕ) → split s sep ≢ []
unfolding split
split-ne-nil [] sep = cc
split-ne-nil (c ∷ s) sep = ground (arith, grow-ne-nil c (split s sep))

grow-append : (c : ℕ) (ps qs : List Bytes) → ps ≢ [] → grow c (ps ++ qs) ≡ grow c ps ++ qs
grow-append c [] qs h = absurd (h refl)
grow-append c (p ∷ ps) qs h = refl

-- The text splits where two texts are joined by the separator.
pub split-append : (s t : Bytes) (sep : ℕ) → split (s ++ (sep ∷ t)) sep ≡ split s sep ++ split t sep
unfolding split
split-append [] t sep = ground (arith, eq_refl sep)
split-append (c ∷ s) t sep =
    ground
      (arith, split-append s t sep, grow-append c (split s sep) (split t sep) (split-ne-nil s sep))

-- A text without the separator is its own only part.
pub split_whole : (s : Bytes) (sep : ℕ) → has_byte s sep ≡ false → split s sep ≡ s ∷ []
unfolding split has_byte
split_whole [] sep h = refl
split_whole (c ∷ s) sep h = ground (arith, split_whole s sep)

-- No part of a split holds the separator.
grow-All :
    (c : ℕ) (sep : ℕ) (ps : List Bytes)
    → (c == sep) ≡ false
    → All (λ p. has_byte p sep ≡ false) ps
    → All (λ p. has_byte p sep ≡ false) (grow c ps)
unfolding has_byte
grow-All c sep [] h a = (ground arith, tt)
grow-All c sep (p ∷ ps) h (hp, a) = (ground arith, a)

pub split-All : (s : Bytes) (sep : ℕ) → All (λ p. has_byte p sep ≡ false) (split s sep)
unfolding split has_byte
split-All [] sep = (refl, tt)
split-All (c ∷ s) sep = elim (Bool-cases (c == sep)) [
  | inl same ↦ rw same (refl, split-All s sep)
  | inr other ↦ rw other (grow-All c sep (split s sep) other (split-All s sep))
]

-- Parts without the separator, joined by it, split into the same parts.
pub split-join :
    (p : Bytes) (ps : List Bytes) (sep : ℕ)
    → All (λ q. has_byte q sep ≡ false) (p ∷ ps)
    → split (join (p ∷ ps) (sep ∷ [])) sep ≡ p ∷ ps
unfolding join
split-join p [] sep (h, _) = split_whole p sep h
split-join p (q ∷ ps) sep (h, a) =
    split-append p (join (q ∷ ps) (sep ∷ [])) sep ∙ rw (split_whole p sep h, split-join q ps sep a)

pub last_part-append : (ps : List Bytes) (p : Bytes) → last_part (ps ++ p ∷ []) ≡ p
unfolding last_part
last_part-append [] p = refl
last_part-append (q ∷ []) p = refl
last_part-append (q ∷ r ∷ ps) p = last_part-append (r ∷ ps) p

-- The last part of a text that ends in a separator and a text without one.
pub last_part-split :
    (s t : Bytes) (sep : ℕ) → has_byte t sep ≡ false → last_part (split (s ++ (sep ∷ t)) sep) ≡ t
last_part-split s t sep h =
    rw (split-append, split_whole t sep h) (last_part-append (split s sep) t)

pub cut-append :
    (s t : Bytes) (sep : ℕ) → has_byte s sep ≡ false → cut (s ++ (sep ∷ t)) sep ≡ some (s, t)
unfolding cut has_byte
cut-append [] t sep h = ground (arith, eq_refl sep)
cut-append (c ∷ s) t sep h = ground (arith, cut-append s t sep)

pub has_byte-append : (s t : Bytes) (b : ℕ) → has_byte (s ++ t) b ≡ (has_byte s b || has_byte t b)
unfolding has_byte
has_byte-append [] t b = refl
has_byte-append (c ∷ s) t b = ground (arith, has_byte-append s t b)
