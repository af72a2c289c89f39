-- ===== src/Strings/Replace.antt =====
-- Replacing a single byte everywhere, and its first occurrence.
use nexus_erofs.Prelude.{ℕ, false, [], ◌∷◌, ◌++◌, ◌≡◌, refl, ◌∙◌, arith, Bytes, nat_eq, eq_refl}
use nexus_erofs.Strings.{has_byte, replace_from, replace_all, replace_first}

replace_from_byte :
    (s t : Bytes) (from to : ℕ)
    → has_byte s from ≡ false
    → replace_from 0 (s ++ t) (from ∷ []) (to ∷ []) ≡ s ++ replace_from 0 t (from ∷ []) (to ∷ [])
unfolding replace_all has_byte
replace_from_byte [] t from to h = refl
replace_from_byte (c ∷ s) t from to h = ground (arith, replace_from_byte s t from to)

-- A text without the byte is left as it is.
replace_from_whole :
    (s : Bytes) (from to : ℕ) → has_byte s from ≡ false → replace_from 0 s (from ∷ []) (to ∷ []) ≡ s
unfolding replace_all has_byte
replace_from_whole [] from to h = refl
replace_from_whole (c ∷ s) from to h = ground (arith, replace_from_whole s from to)

replace_from_hit :
    (t : Bytes) (from to : ℕ)
    → replace_from 0 (from ∷ t) (from ∷ []) (to ∷ []) ≡ to ∷ replace_from 0 t (from ∷ []) (to ∷ [])
unfolding replace_all
replace_from_hit t from to = ground (arith, eq_refl from)

-- With one occurrence of the byte, that one is replaced.
pub replace_all-append :
    (s t : Bytes) (from to : ℕ)
    → has_byte s from ≡ false
    → has_byte t from ≡ false
    → replace_all (s ++ (from ∷ t)) (from ∷ []) (to ∷ []) ≡ s ++ (to ∷ t)
replace_all-append s t from to hs ht =
    unfold replace_all in
    (replace_from_byte s (from ∷ t) from to hs
      ∙ rw (replace_from_hit, replace_from_whole t from to ht))

pub replace_first-append :
    (s t : Bytes) (from to : ℕ)
    → has_byte s from ≡ false
    → replace_first (s ++ (from ∷ t)) from to ≡ s ++ (to ∷ t)
unfolding replace_first has_byte
replace_first-append [] t from to h = ground (arith, eq_refl from)
replace_first-append (c ∷ s) t from to h = ground (arith, replace_first-append s t from to)
