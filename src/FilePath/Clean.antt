-- ===== src/FilePath/Clean.antt =====
-- What a cleaned path is made of, and that cleaning it again changes nothing.
use mathlib.Core.List.{foldl-append, reverse-cons, concat-ne-nil}
use nexus_erofs.Prelude.{
  ◌≡◌, ◌≢◌, refl, sym, ◌∙◌, Bool, true, false, ◌⊎◌, inl, inr, List, [], ◌∷◌, ◌++◌, reverse, Bytes,
  ◌==◌, nat_eq, bytes_beq, bytes_eq, eq_iff, eq_refl, arith, All, All-append, Bool-cases,
}
use nexus_erofs.Strings.{split, join, has_byte}
use nexus_erofs.Strings.Split.{split-join, split-All}
use nexus_erofs.FilePath.{
  slash, dot, dot_dot, is_rooted, back_up, clean_step, clean_stack, render, clean,
}

pub List-cases : (l : List Bytes) → (l ≡ []) ⊎ ((p : Bytes) × (ps : List Bytes) × (l ≡ p ∷ ps))
List-cases [] = inl refl
List-cases (p ∷ ps) = inr (p, ps, refl)

-- An element that names a file or a directory.
pub record IsName (e : Bytes) : Type 0 where
  pub not_empty : e ≢ []
  pub not_dot : e ≢ dot
  pub not_dot_dot : e ≢ dot_dot
  pub no_slash : has_byte e slash ≡ false

abbrev pub IsElement : Bool → List Bytes → Bytes → Type 0
IsElement rooted st e =
    IsName e ⊎ ((e ≡ dot_dot) × (rooted ≡ false) × All (λ (d : Bytes). d ≡ dot_dot) st)

-- The elements of a clean path, the last one first: names, and `..` only at its front.
abbrev pub IsNormal : Bool → List Bytes → Type 0
IsNormal rooted [] = Unit
IsNormal rooted (e ∷ st) = IsElement rooted st e × IsNormal rooted st

pub step_name :
    (rooted : Bool) (st : List Bytes) (e : Bytes) → IsName e → clean_step rooted st e ≡ e ∷ st
unfolding clean_step
step_name rooted st e h = ground (arith, eq_iff e [], eq_iff e dot, eq_iff e dot_dot)

step_element :
    (rooted : Bool) (st : List Bytes) (e : Bytes)
    → IsElement rooted st e
    → clean_step rooted st e ≡ e ∷ st
unfolding clean_step bytes_beq
step_element rooted st e (inl h) = step_name rooted st e h
step_element rooted [] e (inr (d, r, a)) = rw (d, r)
step_element rooted (t ∷ st) e (inr (d, _, a)) = rw (d, a.0)

back_up-IsNormal :
    (rooted : Bool) (st : List Bytes) → IsNormal rooted st → IsNormal rooted (back_up rooted st)
back_up-IsNormal true [] n = tt
back_up-IsNormal false [] n = (inr (refl, refl, tt), tt)
back_up-IsNormal rooted (t ∷ st) (inl h, n) = elim (Bool-cases (t == dot_dot)) [
  | inl same ↦ absurd (h.not_dot_dot ((eq_iff t dot_dot).0 same))
  | inr other ↦ rw other n
]
back_up-IsNormal rooted (t ∷ st) (inr (d, r, a), n) =
    rw (d, eq_refl dot_dot) (inr (refl, r, (refl, a)), (inr (refl, r, a), n))

tests_of_names :
    (e : Bytes)
    → (e == []) ≡ false
    → (e == dot) ≡ false
    → (e == dot_dot) ≡ false
    → has_byte e slash ≡ false
    → IsName e
tests_of_names e a b c h = record {
  not_empty = λ p. cc ((eq_iff e []).1 p);
  not_dot = λ p. cc ((eq_iff e dot).1 p);
  not_dot_dot = λ p. cc ((eq_iff e dot_dot).1 p);
  no_slash = h;
}

-- One element keeps the elements normal.
step-IsNormal :
    (rooted : Bool) (st : List Bytes) (e : Bytes)
    → IsNormal rooted st
    → has_byte e slash ≡ false
    → IsNormal rooted (clean_step rooted st e)
unfolding clean_step
step-IsNormal rooted st e n h = elim (Bool-cases (e == [])) [
  | inl empty ↦ rw empty n
  | inr full ↦ elim (Bool-cases (e == dot)) [
    | inl here ↦ rw (full, here) n
    | inr other ↦ elim (Bool-cases (e == dot_dot)) [
      | inl up ↦ rw (full, other, up) (back_up-IsNormal rooted st n)
      | inr name ↦ rw (full, other, name) (inl (tests_of_names e full other name h), n)
    ]
  ]
]

pub clean_stack-IsNormal :
    (rooted : Bool) (st es : List Bytes)
    → IsNormal rooted st
    → All (λ e. has_byte e slash ≡ false) es
    → IsNormal rooted (clean_stack rooted st es)
unfolding clean_stack
clean_stack-IsNormal rooted st [] n h = n
clean_stack-IsNormal rooted st (e ∷ es) n (he, h) =
    clean_stack-IsNormal rooted (clean_step rooted st e) es (step-IsNormal rooted st e n he) h

pub clean_stack-append :
    (rooted : Bool) (st es fs : List Bytes)
    → clean_stack rooted st (es ++ fs) ≡ clean_stack rooted (clean_stack rooted st es) fs
clean_stack-append rooted st es fs =
    unfold clean_stack in (foldl-append (clean_step rooted) st es fs)

-- Normal elements are all kept.
refold :
    (rooted : Bool) (st : List Bytes) → IsNormal rooted st → clean_stack rooted [] (reverse st) ≡ st
refold rooted [] n = unfold clean_stack in refl
refold rooted (e ∷ st) (h, n) =
    rw (reverse-cons, clean_stack-append, refold rooted st n)
      (unfold clean_stack in step_element rooted st e h)

element_no_slash :
    (rooted : Bool) (st : List Bytes) (e : Bytes) → IsElement rooted st e → has_byte e slash ≡ false
element_no_slash rooted st e (inl h) = h.no_slash
element_no_slash rooted st e (inr (d, _, _)) = rw d (unfold has_byte in refl)

elements_no_slash :
    (rooted : Bool) (st : List Bytes)
    → IsNormal rooted st
    → All (λ e. has_byte e slash ≡ false) (reverse st)
elements_no_slash rooted [] n = tt
elements_no_slash rooted (e ∷ st) (h, n) = rw reverse-cons (
    All-append _ (reverse st) (e ∷ []) (elements_no_slash rooted st n)
      (element_no_slash rooted st e h, tt))

-- Empty elements and dots are skipped.
pub skip_empty :
    (rooted : Bool) (st es : List Bytes)
    → clean_stack rooted st ([] ∷ es) ≡ clean_stack rooted st es
unfolding clean_stack bytes_beq
skip_empty rooted st es = refl

-- The joined elements of a path split into the same elements.
split_elements :
    (rooted : Bool) (e : Bytes) (st : List Bytes)
    → IsNormal rooted (e ∷ st)
    → split (join (reverse (e ∷ st)) (slash ∷ [])) slash ≡ reverse (e ∷ st)
split_elements rooted e st n = elim (List-cases (reverse (e ∷ st))) [
  | inl empty ↦ absurd (concat-ne-nil e (reverse st) (sym (reverse-cons e st) ∙ empty))
  | inr (p, ps, q) ↦ rw q (split-join p ps slash (rw q at (elements_no_slash rooted (e ∷ st) n)))
]

split_rooted :
    (e : Bytes) (st : List Bytes)
    → split (render true (e ∷ st)) slash ≡ [] ∷ split (join (reverse (e ∷ st)) (slash ∷ [])) slash
unfolding render split
split_rooted e st = refl

split_relative :
    (e : Bytes) (st : List Bytes)
    → IsNormal false (e ∷ st)
    → split (render false (e ∷ st)) slash ≡ reverse (e ∷ st)
unfolding render
split_relative e st n = split_elements false e st n

-- Cleaning goes on behind a cleaned path from the elements of that path.
pub clean_stack-render :
    (rooted : Bool) (st : List Bytes)
    → IsNormal rooted st
    → clean_stack rooted [] (split (render rooted st) slash) ≡ st
clean_stack-render true [] n = unfold render clean_stack split bytes_beq in refl
clean_stack-render false [] n = unfold render clean_stack split bytes_beq in refl
clean_stack-render true (e ∷ st) n =
    rw (split_rooted, split_elements true e st n)
      (skip_empty true [] (reverse (e ∷ st)) ∙ refold true (e ∷ st) n)
clean_stack-render false (e ∷ st) n = rw (split_relative e st n) (refold false (e ∷ st) n)

pub is_rooted-append : (p q : Bytes) → p ≢ [] → is_rooted (p ++ q) ≡ is_rooted p
unfolding is_rooted
is_rooted-append [] q h = absurd (h refl)
is_rooted-append (c ∷ p) q h = refl

pub is_rooted_name : (e : Bytes) → has_byte e slash ≡ false → is_rooted e ≡ false
unfolding is_rooted has_byte
is_rooted_name [] h = refl
is_rooted_name (c ∷ e) h = ground arith

element_ne_nil : (rooted : Bool) (st : List Bytes) (e : Bytes) → IsElement rooted st e → e ≢ []
element_ne_nil rooted st e (inl h) = h.not_empty
element_ne_nil rooted st e (inr (d, _, _)) = cc d

elements_ne_nil :
    (rooted : Bool) (st : List Bytes) → IsNormal rooted st → All (λ e. e ≢ []) (reverse st)
elements_ne_nil rooted [] n = tt
elements_ne_nil rooted (e ∷ st) (h, n) = rw reverse-cons (
    All-append _ (reverse st) (e ∷ []) (elements_ne_nil rooted st n)
      (element_ne_nil rooted st e h, tt))

is_rooted-join :
    (p : Bytes) (ps : List Bytes)
    → p ≢ []
    → has_byte p slash ≡ false
    → is_rooted (join (p ∷ ps) (slash ∷ [])) ≡ false
unfolding join
is_rooted-join p [] ne h = is_rooted_name p h
is_rooted-join p (q ∷ ps) ne h = is_rooted-append p _ ne ∙ is_rooted_name p h

pub is_rooted-render :
    (rooted : Bool) (st : List Bytes) → IsNormal rooted st → is_rooted (render rooted st) ≡ rooted
is_rooted-render true st n = unfold is_rooted render in refl
is_rooted-render false [] n = unfold is_rooted render in refl
is_rooted-render false (e ∷ st) n = elim (List-cases (reverse (e ∷ st))) [
  | inl empty ↦ absurd (concat-ne-nil e (reverse st) (sym (reverse-cons e st) ∙ empty))
  | inr (p, ps, q) ↦
      unfold render in
      rw q (
        is_rooted-join p ps (rw q at (elements_ne_nil false (e ∷ st) n)).0
          (rw q at (elements_no_slash false (e ∷ st) n)).0)
]

-- The elements that cleaning keeps of a path, the last one first.
unfoldable pub elements : Bytes → List Bytes
elements p = clean_stack (is_rooted p) [] (split p slash)

pub elements-IsNormal : (p : Bytes) → IsNormal (is_rooted p) (elements p)
unfolding elements
elements-IsNormal p = clean_stack-IsNormal (is_rooted p) [] (split p slash) tt (split-All p slash)

pub clean-elements : (p : Bytes) → clean p ≡ render (is_rooted p) (elements p)
unfolding clean elements
clean-elements p = refl

pub clean-render :
    (rooted : Bool) (st : List Bytes)
    → IsNormal rooted st
    → clean (render rooted st) ≡ render rooted st
clean-render rooted st n =
    clean-elements (render rooted st)
    ∙ unfold elements in rw (is_rooted-render rooted st n, clean_stack-render rooted st n)

-- Cleaning a path twice is cleaning it once.
pub clean_idem : (p : Bytes) → clean (clean p) ≡ clean p
clean_idem p = rw (clean-elements p) (clean-render (is_rooted p) (elements p) (elements-IsNormal p))
