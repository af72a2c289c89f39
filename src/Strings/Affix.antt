-- ===== src/Strings/Affix.antt =====
-- Prefixes and suffixes that are there are found, and trimmed off.
use nexus_erofs.Prelude.{
  ◌-◌, true, [], ◌∷◌, ◌++◌, ◌≡◌, refl, arith, Bytes, length, length-append, drop-length-append,
  take-length-append, eq_refl, nat_eq, bytes_eq, le→leb,
}
use nexus_erofs.Strings.{has_prefix, has_suffix, trim_prefix, trim_suffix, contains}

pub has_prefix-append : (p s : Bytes) → has_prefix (p ++ s) p ≡ true
unfolding has_prefix
has_prefix-append [] s = refl
has_prefix-append (c ∷ p) s = ground (arith, has_prefix-append p s)

pub trim_prefix-append : (p s : Bytes) → trim_prefix (p ++ s) p ≡ s
unfolding trim_prefix
trim_prefix-append p s = rw has_prefix-append (drop-length-append p s)

-- A text with a prefix is the prefix with what trimming leaves.
pub has_prefix-eq : (s p : Bytes) → has_prefix s p ≡ true → s ≡ p ++ trim_prefix s p
unfolding trim_prefix has_prefix
has_prefix-eq s [] h = refl
has_prefix-eq [] (c ∷ p) h = ground arith
has_prefix-eq (a ∷ s) (c ∷ p) h = ground (arith, has_prefix-eq s p)

length_gap : (s t : Bytes) → length (s ++ t) - length t ≡ length s
length_gap s t = omega (arith, length-append s t)

pub has_suffix-append : (s t : Bytes) → has_suffix (s ++ t) t ≡ true
unfolding has_suffix
has_suffix-append s t =
    rw
      (
        length_gap,
        drop-length-append,
        le→leb (length t) (length (s ++ t)) (omega (arith, length-append s t)),
      )
      (eq_refl t)

pub trim_suffix-append : (s t : Bytes) → trim_suffix (s ++ t) t ≡ s
unfolding trim_suffix
trim_suffix-append s t = rw (has_suffix-append, length_gap) (take-length-append s t)

-- A text that stands somewhere in another is found.
pub contains-append : (s t u : Bytes) → contains (s ++ (t ++ u)) t ≡ true
unfolding contains has_prefix
contains-append [] [] [] = refl
contains-append [] [] (c ∷ u) = refl
contains-append [] (c ∷ t) u = ground (arith, has_prefix-append (c ∷ t) u)
contains-append (c ∷ s) t u = ground (arith, contains-append s t u)
