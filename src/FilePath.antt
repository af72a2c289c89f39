-- ===== src/FilePath.antt =====
-- What the code uses of Go's `path` and `path/filepath` packages on Unix, where the two agree:
-- Clean, Join, Dir and Base, over lists of bytes.
pub mod Clean
pub mod Layout
pub mod Nest
use mathlib.Core.List.{foldl}
use nexus_erofs.Prelude.{
  ℕ, ◌≡◌, refl, Bool, true, false, ◌&&◌, ◌||◌, List, [], ◌∷◌, ◌++◌, reverse, Bytes, codes, ◌==◌,
  nat_eq, bytes_beq, bytes_eq, if◌then◌else◌,
}
use nexus_erofs.Strings.{split, join, has_byte, last_part}

abbrev pub slash : ℕ
slash = b'/'

abbrev pub dot : Bytes
dot = b'.' ∷ []

abbrev pub dot_dot : Bytes
dot_dot = b'.' ∷ b'.' ∷ []

unfoldable pub is_rooted : Bytes → Bool
is_rooted [] = false
is_rooted (c ∷ p) = c == slash

-- A `..` removes the element before it. At the root of a rooted path it is dropped, and at the
-- front of another path it is kept.
abbrev back_up : Bool → List Bytes → List Bytes
back_up true [] = []
back_up false [] = dot_dot ∷ []
back_up rooted (t ∷ st) = if t == dot_dot then dot_dot ∷ (t ∷ st) else st

-- One element of the path; the elements kept so far are a stack.
unfoldable pub clean_step : Bool → List Bytes → Bytes → List Bytes
clean_step rooted st e =
    if e == [] || e == dot then st else if e == dot_dot then back_up rooted st else e ∷ st

unfoldable pub clean_stack : Bool → List Bytes → List Bytes → List Bytes
unfolding clean_step
clean_stack rooted = foldl (clean_step rooted)

unfoldable pub render : Bool → List Bytes → Bytes
unfolding join
render true st = slash ∷ join (reverse st) (slash ∷ [])
render false [] = dot
render false (e ∷ st) = join (reverse (e ∷ st)) (slash ∷ [])

-- filepath.Clean. The empty path has one empty element, and is rendered as `.`.
unfoldable pub clean : Bytes → Bytes
unfolding is_rooted clean_stack render split
clean p = render (is_rooted p) (clean_stack (is_rooted p) [] (split p slash))

-- filepath.Join: empty elements in front are left out, and the rest is joined and cleaned.
unfoldable pub join_path : List Bytes → Bytes
unfolding clean join
join_path [] = []
join_path ([] ∷ es) = join_path es
join_path ((c ∷ e) ∷ es) = clean (join ((c ∷ e) ∷ es) (slash ∷ []))

-- path[:i+1] for the last slash at i
unfoldable pub up_to_slash : Bytes → Bytes
unfolding has_byte
up_to_slash [] = []
up_to_slash (c ∷ s) = let rest = up_to_slash s in if has_byte (c ∷ s) slash then c ∷ rest else []

-- filepath.Dir
unfoldable pub dir : Bytes → Bytes
unfolding up_to_slash clean
dir p = clean (up_to_slash p)

strip_slashes : Bytes → Bytes
strip_slashes [] = []
strip_slashes (c ∷ s) =
    let rest = strip_slashes s in if c == slash && rest == [] then [] else c ∷ rest

base_of : Bytes → Bytes
base_of [] = slash ∷ []
base_of (c ∷ s) = last_part (split (c ∷ s) slash)

-- filepath.Base
unfoldable pub base : Bytes → Bytes
unfolding strip_slashes base_of split last_part
base [] = dot
base (c ∷ s) = base_of (strip_slashes (c ∷ s))

-- tests against the documented results
clean_tests :
    (clean (codes "a//b/./c/..") ≡ codes "a/b")
    × (clean (codes "/../a/") ≡ codes "/a")
    × (clean (codes "../../a/..") ≡ codes "../..")
    × (clean [] ≡ codes ".")
    × (clean (codes "//") ≡ codes "/")
unfolding clean bytes_beq
clean_tests = (refl, refl, refl, refl, refl)

dir_tests :
    (dir (codes "/a/b/c") ≡ codes "/a/b")
    × (dir (codes "a") ≡ codes ".")
    × (dir (codes "/a") ≡ codes "/")
unfolding dir bytes_beq
dir_tests = (refl, refl, refl)

base_tests :
    (base (codes "/a/b.c") ≡ codes "b.c")
    × (base (codes "a/b//") ≡ codes "b")
    × (base (codes "//") ≡ codes "/")
unfolding base bytes_beq
base_tests = (refl, refl, refl)
