-- ===== src/MountUtils/Laws.antt =====
-- The tests on mounts, said of the single mounts.
use nexus_erofs.Prelude.{
  Bool, true, false, ◌&&◌, ◌||◌, List, [], ◌∷◌, ◌≡◌, arith, Bytes, codes, ◌==◌, nat_eq, bytes_eq,
  eq_iff,
}
use nexus_erofs.Mount.{Mount}
use nexus_erofs.MountUtils.{type_suffix, fs_type_erofs, active_loop, has_active_snapshot_mounts}

-- Does a mount of the file system type stand in the list?
unfoldable pub has_type : Bytes → List Mount → Bool
has_type t [] = false
has_type t (m ∷ ms) = type_suffix m.kind == t || has_type t ms

active_loop_lem :
    (ms : List Mount) (e x : Bool)
    → active_loop ms e x ≡ ((e || has_type fs_type_erofs ms) && (x || has_type (codes "ext4") ms))
unfolding active_loop has_type
active_loop_lem [] e x = ground arith
active_loop_lem (m ∷ ms) e x = ground (
  arith,
  eq_iff (type_suffix m.kind) fs_type_erofs,
  eq_iff (type_suffix m.kind) (codes "ext4"),
  active_loop_lem ms true x,
  active_loop_lem ms e true,
  active_loop_lem ms e x,
)

-- The loop with its two flags finds an EROFS mount and an ext4 mount, wherever they stand.
pub has_active_snapshot_mounts_lem :
    (ms : List Mount)
    → has_active_snapshot_mounts ms ≡ (has_type fs_type_erofs ms && has_type (codes "ext4") ms)
unfolding has_active_snapshot_mounts
has_active_snapshot_mounts_lem ms = active_loop_lem ms false false
