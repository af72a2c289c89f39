-- ===== src/Os/Tree.antt =====
-- The file system as a list of paths with what stands there; a path stands in it once.
use nexus_erofs.Prelude.{
  Bool, true, false, ◌&&◌, ◌||◌, List, [], ◌∷◌, ◌++◌, Option, none, some, ◌≡◌, arith, eq_iff,
  eq_refl, refl, Bytes, drop, length, ◌==◌, nat_eq, bytes_eq, ltb, if◌then◌else◌,
}
use nexus_erofs.Strings.{has_prefix}
use nexus_erofs.FilePath.{slash, base, dir as parent_dir}

pub data Node : Type 0 where
  file : Bytes → Node
  folder : Node

abbrev pub Files : Type 0
Files = List (Bytes × Node)

unfoldable pub lookup : Bytes → Files → Option Node
lookup p [] = none
lookup p ((q, n) ∷ fs) = if q == p then some n else lookup p fs

unfoldable pub erase : Bytes → Files → Files
erase p [] = []
erase p ((q, n) ∷ fs) = let rest = erase p fs in if q == p then rest else (q, n) ∷ rest

unfoldable pub insert : Bytes → Node → Files → Files
unfolding erase
insert p n fs = (p, n) ∷ erase p fs

-- The path itself, or one below it.
unfoldable pub is_below : Bytes → Bytes → Bool
unfolding has_prefix
is_below p q = q == p || has_prefix q (p ++ slash ∷ [])

unfoldable pub erase_tree : Bytes → Files → Files
unfolding is_below
erase_tree p [] = []
erase_tree p ((q, n) ∷ fs) =
    let rest = erase_tree p fs in if is_below p q then rest else (q, n) ∷ rest

move : Bytes → Bytes → Bytes → Bytes
unfolding is_below
move from to q = if is_below from q then to ++ drop (length from) q else q

move_all : Bytes → Bytes → Files → Files
unfolding move
move_all from to [] = []
move_all from to ((q, n) ∷ fs) = (move from to q, n) ∷ move_all from to fs

unfoldable pub rename_tree : Bytes → Bytes → Files → Files
unfolding move_all erase_tree
rename_tree from to fs = move_all from to (erase_tree to fs)

bytes_lt : Bytes → Bytes → Bool
bytes_lt s [] = false
bytes_lt [] (b ∷ t) = true
bytes_lt (a ∷ s) (b ∷ t) = ltb a b || a == b && bytes_lt s t

insert_sorted : Bytes → List Bytes → List Bytes
unfolding bytes_lt
insert_sorted n [] = n ∷ []
insert_sorted n (m ∷ ms) = if bytes_lt m n then m ∷ insert_sorted n ms else n ∷ (m ∷ ms)

-- The names in a directory, sorted as os.ReadDir and filepath.Glob sort them.
unfoldable pub names_in : Bytes → Files → List Bytes
unfolding insert_sorted parent_dir
names_in p [] = []
names_in p ((q, n) ∷ fs) =
    let rest = names_in p fs in if parent_dir q == p then insert_sorted (base q) rest else rest

unfoldable pub has_below : Bytes → List Bytes → Bool
unfolding is_below
has_below p [] = false
has_below p (q ∷ qs) = is_below p q || has_below p qs

pub lookup-erase :
    (j p : Bytes) (fs : Files) → lookup j (erase p fs) ≡ (if p == j then none else lookup j fs)
unfolding lookup erase
lookup-erase j p [] = ground arith
lookup-erase j p ((q, n) ∷ fs) =
    ground (arith, lookup-erase j p fs, eq_iff q p, eq_iff q j, eq_iff p j)

pub lookup-insert :
    (j p : Bytes) (n : Node) (fs : Files)
    → lookup j (insert p n fs) ≡ (if p == j then some n else lookup j fs)
unfolding lookup insert
lookup-insert j p n fs = ground (arith, lookup-erase j p fs)

pub lookup-insert_same : (p : Bytes) (n : Node) (fs : Files) → lookup p (insert p n fs) ≡ some n
lookup-insert_same p n fs = rw (lookup-insert p p n fs, eq_refl p) refl

pub lookup-erase_tree :
    (j p : Bytes) (fs : Files)
    → lookup j (erase_tree p fs) ≡ (if is_below p j then none else lookup j fs)
unfolding lookup erase_tree
lookup-erase_tree j p [] = ground arith
lookup-erase_tree j p ((q, n) ∷ fs) = ground (arith, lookup-erase_tree j p fs, eq_iff q j)
