-- ===== src/Os/Devices.antt =====
-- The table of loop devices: for each attached device its path, the file that it stands for, and
-- its status.
use nexus_erofs.Prelude.{
  ℕ, ◌≡◌, refl, Bool, false, ◌||◌, List, [], ◌∷◌, ◌++◌, Bytes, ◌==◌, bytes_eq, if◌then◌else◌, arith,
  eq_refl,
}

-- The fields of struct loop_info64 that the code sets; the others are zero.
pub record LoopInfo : Type 0 where
  pub offset : ℕ
  pub size_limit : ℕ
  pub flags : ℕ
  pub file_name : Bytes

pub record LoopDevice : Type 0 where
  pub path : Bytes
  pub backing : Bytes
  pub info : LoopInfo

abbrev pub Loops : Type 0
Loops = List LoopDevice

unfoldable pub is_attached : Bytes → Loops → Bool
is_attached p [] = false
is_attached p (d ∷ ds) = d.path == p || is_attached p ds

unfoldable pub detached : Bytes → Loops → Loops
detached p [] = []
detached p (d ∷ ds) = let rest = detached p ds in if d.path == p then rest else d ∷ rest

unfoldable pub configured : Bytes → LoopInfo → Loops → Loops
configured p info [] = []
configured p info (d ∷ ds) =
    let rest = configured p info ds in
    if d.path == p then record d { info = info } ∷ rest else d ∷ rest

-- All of the paths are detached.
unfoldable pub detached_all : List Bytes → Loops → Loops
detached_all [] ds = ds
detached_all (p ∷ ps) ds = detached_all ps (detached p ds)

pub detached-append :
    (p : Bytes) (ds es : Loops) → detached p (ds ++ es) ≡ detached p ds ++ detached p es
unfolding detached
detached-append p [] es = refl
detached-append p (d ∷ ds) es = ground (arith, detached-append p ds es)

pub detached-free : (p : Bytes) (ds : Loops) → is_attached p ds ≡ false → detached p ds ≡ ds
unfolding detached is_attached
detached-free p [] h = refl
detached-free p (d ∷ ds) h = ground (arith, detached-free p ds)

pub configured-free :
    (p : Bytes) (i : LoopInfo) (ds : Loops) → is_attached p ds ≡ false → configured p i ds ≡ ds
unfolding configured is_attached
configured-free p i [] h = refl
configured-free p i (d ∷ ds) h = ground (arith, configured-free p i ds)

pub configured-head :
    (d : LoopDevice) (i : LoopInfo) (ds : Loops)
    → is_attached d.path ds ≡ false
    → configured d.path i (d ∷ ds) ≡ record d { info = i } ∷ ds
unfolding configured
configured-head d i ds h = ground (arith, eq_refl d.path, configured-free d.path i ds h)
