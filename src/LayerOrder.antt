-- ===== src/LayerOrder.antt =====
-- internal/snapshotter/layer_order.go: the order of a snapshot chain (newest first) turned into
-- the order of an image manifest (oldest first).
use mathlib.Core.List.{reverse-cons, reverse-reverse}
use nexus_erofs.Prelude.{
  ℕ, zero, suc, ◌+◌, ◌-◌, ◌≡◌, refl, sym, ap, ◌∙◌, List, [], ◌∷◌, ◌++◌, reverse, append-nil,
  append_assoc, arith, Bytes, length,
}

-- A write to an index of a slice.
set : List Bytes → ℕ → Bytes → List Bytes
set [] i v = []
set (x ∷ xs) zero v = v ∷ xs
set (x ∷ xs) (suc i) v = x ∷ set xs i v

-- make([]string, n)
blank : ℕ → List Bytes
blank zero = []
blank (suc n) = [] ∷ blank n

-- The loop over `ids` from index `i`, in a slice of length `n`.
fill : ℕ → ℕ → List Bytes → List Bytes → List Bytes
fill n i [] reversed = reversed
fill n i (id ∷ ids) reversed = fill n (i + 1) ids (set reversed (n - 1 - i) id)

unfoldable pub reverse_strings : List Bytes → List Bytes
unfolding fill set blank
reverse_strings [] = []
reverse_strings (id ∷ ids) = fill (length (id ∷ ids)) 0 (id ∷ ids) (blank (length (id ∷ ids)))

set_at :
    (xs ys : List Bytes) (x v : Bytes) (i : ℕ)
    → i ≡ length xs
    → set (xs ++ (x ∷ ys)) i v ≡ xs ++ (v ∷ ys)
unfolding set
set_at [] ys x v zero e = refl
set_at [] ys x v (suc i) e = absurd (omega arith)
set_at (y ∷ xs) ys x v zero e = absurd (omega arith)
set_at (y ∷ xs) ys x v (suc i) e = ap (λ l. y ∷ l) (set_at xs ys x v i (omega arith))

blank-suc : (n : ℕ) → blank (suc n) ≡ blank n ++ [] ∷ []
unfolding blank
blank-suc zero = refl
blank-suc (suc n) = ap (λ (l : List Bytes). [] ∷ l) (blank-suc n)

length-blank : (n : ℕ) → length (blank n) ≡ n
unfolding blank
length-blank zero = refl
length-blank (suc n) = ap suc (length-blank n)

set-blank :
    (m i : ℕ) (done : List Bytes) (v : Bytes)
    → i ≡ m
    → set (blank (suc m) ++ done) i v ≡ blank m ++ (v ∷ done)
set-blank m i done v e =
    rw (blank-suc m, append_assoc (blank m) ([] ∷ []) done)
      (set_at (blank m) done [] v i (e ∙ sym (length-blank m)))

fill-reverse :
    (n i : ℕ) (ids done : List Bytes)
    → n ≡ i + length ids
    → fill n i ids (blank (length ids) ++ done) ≡ reverse ids ++ done
unfolding fill
fill-reverse n i [] done e = unfold blank in refl
fill-reverse n i (id ∷ ids) done e =
    ap (fill n (i + 1) ids) (set-blank (length ids) (n - 1 - i) done id (omega arith))
    ∙ fill-reverse n (i + 1) ids (id ∷ done) (omega arith)
    ∙ rw reverse-cons (sym (append_assoc (reverse ids) (id ∷ []) done))

reverse_strings_cons :
    (id : Bytes) (ids : List Bytes)
    → reverse_strings (id ∷ ids)
      ≡ fill (length (id ∷ ids)) 0 (id ∷ ids) (blank (length (id ∷ ids)) ++ [])
reverse_strings_cons id ids = rw append-nil (unfold reverse_strings in refl)

-- The slice that the loop fills is the reversed list.
pub reverse_strings-reverse : (ids : List Bytes) → reverse_strings ids ≡ reverse ids
reverse_strings-reverse [] = unfold reverse_strings in refl
reverse_strings-reverse (id ∷ ids) =
    reverse_strings_cons id ids
    ∙ fill-reverse (length (id ∷ ids)) 0 (id ∷ ids) [] (omega arith)
    ∙ append-nil (reverse (id ∷ ids))

-- Reversing twice gives the chain back.
pub reverse_strings_involutive : (ids : List Bytes) → reverse_strings (reverse_strings ids) ≡ ids
reverse_strings_involutive ids =
    rw (reverse_strings-reverse, reverse_strings-reverse) (reverse-reverse ids)
