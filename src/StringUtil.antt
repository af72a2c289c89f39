-- ===== src/StringUtil.antt =====
-- internal/stringutil/truncate.go
use nexus_erofs.Prelude.{
  ℕ, ◌+◌, ◌≤◌, ◌≡◌, refl, ◌++◌, zero, suc, ap, [], ◌∷◌, inl, inr, Bytes, codes, length,
  length-append, take, leb, leb→le, le→leb, Bool-cases, if◌then◌else◌, arith,
}

unfoldable pub truncation_mark : Bytes
truncation_mark = codes "... (truncated)"

unfoldable pub truncate_output : Bytes → ℕ → Bytes
truncate_output out max_len =
    if leb (length out) max_len then out else take max_len out ++ truncation_mark

length-take-le : (n : ℕ) (s : Bytes) → length (take n s) ≤ n
length-take-le zero s = omega arith
length-take-le (suc n) [] = omega arith
length-take-le (suc n) (c ∷ s) = omega (arith, length-take-le n s)

take-take-append : (n : ℕ) (s t : Bytes) → n ≤ length s → take n (take n s ++ t) ≡ take n s
take-take-append zero s t h = refl
take-take-append (suc n) [] t h = absurd (omega arith)
take-take-append (suc n) (c ∷ s) t h =
    ap (λ (l : Bytes). c ∷ l) (take-take-append n s t (omega arith))

-- The result is at most the limit and the mark long, it begins with the first bytes of the output
-- up to the limit, and what is within the limit is returned whole.
pub truncate_output_bounds :
    (out : Bytes) (max_len : ℕ)
    → (length (truncate_output out max_len) ≤ max_len + 15)
      × (take max_len (truncate_output out max_len) ≡ take max_len out)
      × (truncate_output (take max_len out) max_len ≡ take max_len out)
unfolding truncate_output truncation_mark
truncate_output_bounds out max_len =
    let whole : truncate_output (take max_len out) max_len ≡ take max_len out =
      rw (le→leb (length (take max_len out)) max_len (length-take-le max_len out)) refl in
    elim (Bool-cases (leb (length out) max_len)) [
      | inl short ↦ rw short (omega (arith, leb→le (length out) max_len short), refl, whole)
      | inr long ↦ rw long (
        omega (
          arith,
          length-append (take max_len out) (codes "... (truncated)"),
          length-take-le max_len out,
        ),
        take-take-append max_len out _ (ground arith),
        whole,
      )
    ]
