-- ===== src/FilePath/Layout.antt =====
-- Paths that are a directory with names below it: what Join makes of them, and that Dir and Base
-- take them apart again.
use mathlib.Core.List.{reverse-cons, concat-ne-nil}
use nexus_erofs.Prelude.{
  ℕ, ◌≡◌, ◌≢◌, refl, sym, ap, ◌∙◌, Bool, true, false, inl, inr, List, [], ◌∷◌, ◌++◌, reverse, Bytes,
  nat_eq, bytes_beq, bytes_eq, eq_iff, eq_refl, arith, append_assoc,
}
use nexus_erofs.Strings.{split, join, has_byte, last_part}
use nexus_erofs.Strings.Split.{split-append, split_whole, has_byte-append, last_part-split}
use nexus_erofs.FilePath.{
  slash, is_rooted, clean_stack, render, clean, up_to_slash, dir, strip_slashes, base_of, base,
}
use nexus_erofs.FilePath.Clean.{
  IsName, IsNormal, elements, elements-IsNormal, clean-elements, step_name, clean_stack-append,
  List-cases, is_rooted-append, is_rooted_name, is_rooted-render, clean_stack-render,
}

-- The elements of a path with a name behind it.
pub elements-name : (p n : Bytes) → IsName n → p ≢ [] → elements (p ++ (slash ∷ n)) ≡ n ∷ elements p
unfolding elements
elements-name p n h ne =
    rw
      (
        is_rooted-append p (slash ∷ n) ne,
        split-append,
        split_whole n slash h.no_slash,
        clean_stack-append,
      )
      (unfold clean_stack in step_name (is_rooted p) _ n h)

elements_one : (n : Bytes) → IsName n → elements n ≡ n ∷ []
unfolding elements
elements_one n h =
    rw (split_whole n slash h.no_slash) (unfold clean_stack in step_name (is_rooted n) [] n h)

-- The text of a path that Join is given, before it is cleaned.
abbrev pub below : Bytes → Bytes → Bytes
below [] n = n
below (c ∷ p) n = (c ∷ p) ++ (slash ∷ n)

pub elements-below : (p n : Bytes) → IsName n → elements (below p n) ≡ n ∷ elements p
elements-below [] n h = elements_one n h ∙ (unfold elements clean_stack split bytes_beq in refl)
elements-below (c ∷ p) n h = elements-name (c ∷ p) n h (λ e. cc)

pub is_rooted-below : (p n : Bytes) → IsName n → is_rooted (below p n) ≡ is_rooted p
is_rooted-below [] n h = is_rooted_name n h.no_slash ∙ (unfold is_rooted in refl)
is_rooted-below (c ∷ p) n h = is_rooted-append (c ∷ p) (slash ∷ n) (λ e. cc)

-- A clean path with a name behind it.
pub child : Bytes → Bytes → Bytes
child p n = render (is_rooted p) (n ∷ elements p)

child-IsNormal : (p n : Bytes) → IsName n → IsNormal (is_rooted p) (n ∷ elements p)
child-IsNormal p n h = (inl h, elements-IsNormal p)

pub clean-below : (p n : Bytes) → IsName n → clean (below p n) ≡ child p n
unfolding child
clean-below p n h = clean-elements (below p n) ∙ rw (is_rooted-below p n h, elements-below p n h)

join-append-one :
    (p : Bytes) (ps : List Bytes) (q : Bytes)
    → join ((p ∷ ps) ++ q ∷ []) (slash ∷ []) ≡ join (p ∷ ps) (slash ∷ []) ++ (slash ∷ q)
unfolding join
join-append-one p [] q = refl
join-append-one p (r ∷ ps) q =
    rw (join-append-one r ps q)
      (sym (append_assoc p (slash ∷ join (r ∷ ps) (slash ∷ [])) (slash ∷ q)))

join-reverse-cons :
    (n e : Bytes) (st : List Bytes)
    → join (reverse (n ∷ e ∷ st)) (slash ∷ []) ≡ join (reverse (e ∷ st)) (slash ∷ []) ++ (slash ∷ n)
join-reverse-cons n e st = elim (List-cases (reverse (e ∷ st))) [
  | inl empty ↦ absurd (concat-ne-nil e (reverse st) (sym (reverse-cons e st) ∙ empty))
  | inr (p, ps, q) ↦ rw (reverse-cons n (e ∷ st), q) (join-append-one p ps n)
]

-- A name is put behind a slash, but at the root and at the front of a relative path.
render-cons :
    (rooted : Bool) (n e : Bytes) (st : List Bytes)
    → render rooted (n ∷ e ∷ st) ≡ render rooted (e ∷ st) ++ (slash ∷ n)
unfolding render
render-cons true n e st = ap (λ (l : Bytes). slash ∷ l) (join-reverse-cons n e st)
render-cons false n e st = join-reverse-cons n e st

up_to_slash_name : (n : Bytes) → has_byte n slash ≡ false → up_to_slash n ≡ []
unfolding up_to_slash
up_to_slash_name [] h = refl
up_to_slash_name (c ∷ n) h = ground arith

up_to_slash-append :
    (s n : Bytes) → has_byte n slash ≡ false → up_to_slash (s ++ (slash ∷ n)) ≡ s ++ slash ∷ []
unfolding up_to_slash
up_to_slash-append [] n h = ground (arith, eq_refl slash, up_to_slash_name n h)
up_to_slash-append (c ∷ s) n h =
    ground (arith, eq_refl slash, up_to_slash-append s n h, has_byte-append s (slash ∷ n) slash)

-- A cleaned path with a slash behind it is cleaned to itself.
clean-slash :
    (rooted : Bool) (st : List Bytes)
    → IsNormal rooted st
    → render rooted st ≢ []
    → clean (render rooted st ++ slash ∷ []) ≡ render rooted st
clean-slash rooted st n ne =
    clean-elements (render rooted st ++ slash ∷ [])
    ∙ unfold elements in
      rw
        (
          is_rooted-append _ (slash ∷ []) ne,
          is_rooted-render rooted st n,
          split-append,
          clean_stack-append,
          clean_stack-render rooted st n,
        )
        (unfold clean_stack split bytes_beq in refl)

elements_of_empty : (rooted : Bool) → clean_stack rooted [] (split [] slash) ≡ []
unfolding clean_stack split bytes_beq
elements_of_empty rooted = refl

render-ne-nil :
    (rooted : Bool) (e : Bytes) (st : List Bytes)
    → IsNormal rooted (e ∷ st)
    → render rooted (e ∷ st) ≢ []
render-ne-nil rooted e st n empty = cc (
  elements_of_empty rooted,
  ap (λ (t : Bytes). clean_stack rooted [] (split t slash)) empty,
  clean_stack-render rooted (e ∷ st) n,
)

render_one : (n : Bytes) → render true (n ∷ []) ≡ slash ∷ n
unfolding render
render_one n = refl

render_one_relative : (n : Bytes) → render false (n ∷ []) ≡ n
unfolding render
render_one_relative n = refl

up_to_slash_rooted : (n : Bytes) → has_byte n slash ≡ false → up_to_slash (slash ∷ n) ≡ slash ∷ []
up_to_slash_rooted n h = up_to_slash-append [] n h

dir_lem : (p : Bytes) → dir p ≡ clean (up_to_slash p)
unfolding dir
dir_lem p = refl

dir-render :
    (rooted : Bool) (n : Bytes) (st : List Bytes)
    → IsName n
    → IsNormal rooted st
    → dir (render rooted (n ∷ st)) ≡ render rooted st
dir-render true n [] h k =
    rw (render_one, dir_lem, up_to_slash_rooted n h.no_slash) (unfold clean bytes_beq in refl)
dir-render false n [] h k =
    rw (render_one_relative, dir_lem, up_to_slash_name n h.no_slash)
      (unfold clean bytes_beq in refl)
dir-render rooted n (e ∷ st) h k =
    rw (render-cons, dir_lem, up_to_slash-append (render rooted (e ∷ st)) n h.no_slash)
      (clean-slash rooted (e ∷ st) k (render-ne-nil rooted e st k))

strip_slashes_whole : (n : Bytes) → has_byte n slash ≡ false → strip_slashes n ≡ n
unfolding base has_byte
strip_slashes_whole [] h = refl
strip_slashes_whole (c ∷ n) h = ground (arith, strip_slashes_whole n)

append-ne-nil : (s n : Bytes) → n ≢ [] → s ++ n ≢ []
append-ne-nil [] n ne = ne
append-ne-nil (c ∷ s) n ne = cc

strip_slashes-append :
    (s n : Bytes) → n ≢ [] → has_byte n slash ≡ false → strip_slashes (s ++ n) ≡ s ++ n
unfolding base
strip_slashes-append [] n ne h = strip_slashes_whole n h
strip_slashes-append (c ∷ s) n ne h =
    ground (arith, strip_slashes-append s n ne h, append-ne-nil s n ne, eq_iff (s ++ n) [])

base_cons : (c : ℕ) (s : Bytes) → base (c ∷ s) ≡ base_of (strip_slashes (c ∷ s))
unfolding base
base_cons c s = refl

base_of_cons : (c : ℕ) (s : Bytes) → base_of (c ∷ s) ≡ last_part (split (c ∷ s) slash)
unfolding base
base_of_cons c s = refl

base_whole : (t : Bytes) → t ≢ [] → strip_slashes t ≡ t → base t ≡ last_part (split t slash)
base_whole [] ne e = absurd (ne refl)
base_whole (c ∷ t) ne e = rw (base_cons, e) (base_of_cons c t)

pub base-append : (s n : Bytes) → IsName n → base (s ++ (slash ∷ n)) ≡ n
base-append s n h =
    base_whole (s ++ (slash ∷ n)) (append-ne-nil s (slash ∷ n) (λ e. cc)) (
      rw (sym (append_assoc s (slash ∷ []) n))
        (strip_slashes-append (s ++ slash ∷ []) n h.not_empty h.no_slash))
    ∙ last_part-split s n slash h.no_slash

pub base_name : (n : Bytes) → IsName n → base n ≡ n
base_name n h =
    base_whole n h.not_empty (strip_slashes_whole n h.no_slash)
    ∙ rw (split_whole n slash h.no_slash) (unfold last_part in refl)

base-render :
    (rooted : Bool) (n : Bytes) (st : List Bytes) → IsName n → base (render rooted (n ∷ st)) ≡ n
base-render true n [] h = rw render_one (base-append [] n h)
base-render false n [] h = rw render_one_relative (base_name n h)
base-render rooted n (e ∷ st) h = rw render-cons (base-append (render rooted (e ∷ st)) n h)

-- Dir and Base take a path below a directory apart.
pub dir-child : (p n : Bytes) → IsName n → dir (child p n) ≡ clean p
unfolding child
dir-child p n h =
    dir-render (is_rooted p) n (elements p) h (elements-IsNormal p) ∙ sym (clean-elements p)

pub base-child : (p n : Bytes) → IsName n → base (child p n) ≡ n
unfolding child
base-child p n h = base-render (is_rooted p) n (elements p) h
