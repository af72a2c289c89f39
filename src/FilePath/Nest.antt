-- ===== src/FilePath/Nest.antt =====
-- Names below a directory, as Join puts them there.
use nexus_erofs.Prelude.{
  ℕ, ◌≡◌, refl, sym, ap, ◌∙◌, Bool, true, not, ◌||◌, List, [], ◌∷◌, ◌++◌, Bytes, ◌==◌, nat_eq,
  bytes_eq, eq_iff, arith, append_assoc,
}
use nexus_erofs.Strings.{join, has_byte}
use nexus_erofs.FilePath.{slash, dot, dot_dot, clean, join_path, dir, base}
use nexus_erofs.FilePath.Clean.{IsName, clean_idem}
use nexus_erofs.FilePath.Layout.{below, child, dir-child, base-child, clean-below}

-- A path with names below it, one after another.
abbrev pub nest : Bytes → List Bytes → Bytes
nest p [] = p
nest p (n ∷ ns) = nest (below p n) ns

join-glue :
    (p q : Bytes) (ns : List Bytes)
    → join ((p ++ q) ∷ ns) (slash ∷ []) ≡ p ++ join (q ∷ ns) (slash ∷ [])
unfolding join
join-glue p q [] = refl
join-glue p q (n ∷ ns) = append_assoc p q _

join_two :
    (p n : Bytes) (ns : List Bytes)
    → join (p ∷ n ∷ ns) (slash ∷ []) ≡ join ((p ++ (slash ∷ n)) ∷ ns) (slash ∷ [])
unfolding join
join_two p n ns =
    sym (join-glue p (slash ∷ n) ns ∙ ap (λ (t : Bytes). p ++ t) (join-glue (slash ∷ []) n ns))

join-nest :
    (c : ℕ) (p : Bytes) (ns : List Bytes) → join ((c ∷ p) ∷ ns) (slash ∷ []) ≡ nest (c ∷ p) ns
join-nest c p [] = unfold join in refl
join-nest c p (n ∷ ns) = join_two (c ∷ p) n ns ∙ join-nest c (p ++ (slash ∷ n)) ns

-- Join of a directory, which may be empty, and names below it.
pub join_path-nest :
    (p n : Bytes) (ns : List Bytes) → IsName n → join_path (p ∷ n ∷ ns) ≡ clean (nest p (n ∷ ns))
join_path-nest [] [] ns h = absurd (h.not_empty refl)
join_path-nest [] (c ∷ n) ns h = unfold join_path in ap clean (join-nest c n ns)
join_path-nest (c ∷ p) n ns h = unfold join_path in ap clean (join-nest c p (n ∷ ns))

nest-append-one :
    (p : Bytes) (ns : List Bytes) (m : Bytes) → nest p (ns ++ m ∷ []) ≡ below (nest p ns) m
nest-append-one p [] m = refl
nest-append-one p (n ∷ ns) m = nest-append-one (below p n) ns m

-- Joining one more name to a directory is a child of the directory.
pub join_path-child :
    (p n : Bytes) (ns : List Bytes) (m : Bytes)
    → IsName n
    → IsName m
    → join_path (p ∷ n ∷ (ns ++ m ∷ [])) ≡ child (nest p (n ∷ ns)) m
join_path-child p n ns m h k =
    join_path-nest p n (ns ++ m ∷ []) h
    ∙ ap clean (nest-append-one p (n ∷ ns) m)
    ∙ clean-below (nest p (n ∷ ns)) m k

-- Dir undoes joining a name, whatever the directory is.
pub dir-join_path :
    (p n : Bytes) (ns : List Bytes) (m : Bytes)
    → IsName n
    → IsName m
    → dir (join_path (p ∷ n ∷ (ns ++ m ∷ []))) ≡ join_path (p ∷ n ∷ ns)
dir-join_path p n ns m h k =
    ap dir (join_path-child p n ns m h k)
    ∙ dir-child (nest p (n ∷ ns)) m k
    ∙ sym (join_path-nest p n ns h)

-- Base is the name that was joined.
pub base-join_path :
    (p n : Bytes) (ns : List Bytes) (m : Bytes)
    → IsName n
    → IsName m
    → base (join_path (p ∷ n ∷ (ns ++ m ∷ []))) ≡ m
base-join_path p n ns m h k =
    ap base (join_path-child p n ns m h k) ∙ base-child (nest p (n ∷ ns)) m k

-- A name as a test, for the names that the program fixes.
unfoldable pub is_name : Bytes → Bool
is_name e = not (e == [] || e == dot || e == dot_dot || has_byte e slash)

pub is_name→IsName : (e : Bytes) → is_name e ≡ true → IsName e
unfolding is_name
is_name→IsName e h = record {
  not_empty = λ p. ground (arith, eq_iff e []);
  not_dot = λ p. ground (arith, eq_iff e dot);
  not_dot_dot = λ p. ground (arith, eq_iff e dot_dot);
  no_slash = ground arith;
}

-- One name in a directory.
pub join_path_one : (p m : Bytes) → IsName m → join_path (p ∷ m ∷ []) ≡ child p m
join_path_one p m h = join_path-nest p m [] h ∙ clean-below p m h

pub base-join_path_one : (p m : Bytes) → IsName m → base (join_path (p ∷ m ∷ [])) ≡ m
base-join_path_one p m h = ap base (join_path_one p m h) ∙ base-child p m h

pub dir-join_path_one : (p m : Bytes) → IsName m → dir (join_path (p ∷ m ∷ [])) ≡ clean p
dir-join_path_one p m h = ap dir (join_path_one p m h) ∙ dir-child p m h

-- A joined path is clean.
pub clean-join_path :
    (p n : Bytes) (ns : List Bytes)
    → IsName n
    → clean (join_path (p ∷ n ∷ ns)) ≡ join_path (p ∷ n ∷ ns)
clean-join_path p n ns h = rw (join_path-nest p n ns h) (clean_idem (nest p (n ∷ ns)))
