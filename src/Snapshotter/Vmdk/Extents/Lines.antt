-- ===== src/Snapshotter/Vmdk/Extents/Lines.antt =====
-- Lines of flat extents: what the expression finds in them.
use nexus_erofs.Prelude.{
  ℕ, ◌≡◌, refl, arith, Bool, true, false, not, [], ◌∷◌, ◌++◌, some, Bytes, codes, ◌==◌, nat_eq, All,
}
use nexus_erofs.Snapshotter.Vmdk.Extents.{is_blank, is_digit, quote, span, some_of, find_extent}

-- the line of an extent, with any tail behind its offset
unfoldable pub extent_line : Bytes → Bytes → Bytes → Bytes
extent_line sectors path tail =
    codes "RW " ++ (sectors ++ (codes " FLAT \"" ++ (path ++ (codes "\" 0" ++ tail))))

span-append :
    (test : ℕ → Bool) (s t : Bytes) (c : ℕ)
    → All (λ d. test d ≡ true) s
    → test c ≡ false
    → span test (s ++ (c ∷ t)) ≡ (s, c ∷ t)
unfolding span
span-append test [] t c h hc = rw hc refl
span-append test (d ∷ s) t c (hd, h) hc = rw (hd, span-append test s t c h hc) refl

some_of-append :
    (test : ℕ → Bool) (d : ℕ) (s t : Bytes) (c : ℕ)
    → All (λ d. test d ≡ true) (d ∷ s)
    → test c ≡ false
    → some_of test ((d ∷ s) ++ (c ∷ t)) ≡ some (d ∷ s, c ∷ t)
unfolding some_of
some_of-append test d s t c h hc = rw (span-append test (d ∷ s) t c h hc) refl

digit-blank : (d : ℕ) → is_digit d ≡ true → is_blank d ≡ false
unfolding is_digit is_blank
digit-blank d h = ground (arith, h)

-- The line of an extent is recognized, with its sectors and its path, if the sectors are digits and
-- the path has no quote, and neither is empty.
pub find_extent-extent_line :
    (d : ℕ) (ds : Bytes) (p : ℕ) (ps tail : Bytes)
    → All (λ c. is_digit c ≡ true) (d ∷ ds)
    → All (λ c. not (c == quote) ≡ true) (p ∷ ps)
    → find_extent (extent_line (d ∷ ds) (p ∷ ps) tail) ≡ some (d ∷ ds, p ∷ ps)
unfolding find_extent extent_line
find_extent-extent_line d ds p ps tail digits unquoted =
    rw
      (
        digit-blank d digits.0,
        some_of-append is_digit d ds (codes "FLAT \"" ++ ((p ∷ ps) ++ (codes "\" 0" ++ tail))) b' '
            digits refl,
        some_of-append (λ c. not (c == quote)) p ps (codes " 0" ++ tail) quote unquoted refl,
      )
      refl
