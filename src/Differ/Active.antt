-- ===== src/Differ/Active.antt =====
-- internal/differ/compare_linux.go: mounts on the host for the time of a function, by the differ
-- itself. What a function writes to its writer is its result.
pub mod Kept
use nexus_erofs.Prelude.{
  ℕ, Bool, true, false, String, List, [], ◌∷◌, ◌++◌, Option, none, some, Bytes, codes, ◌==◌,
  bytes_eq, if◌then◌else◌,
}
use nexus_erofs.FilePath.{join_path}
use nexus_erofs.Errors.{Error, Result, ok, err, message, wrap}
use nexus_erofs.Mount.{Mount}
use nexus_erofs.Os.{
  World, Exec, pure, raise, attempt, deferred, wrapping, system_call, stat, mkdir_all, remove_all,
  ◌>>=◌,
}
use nexus_erofs.Os.Tree.{Node}
use nexus_erofs.MountUtils.{type_suffix}
use nexus_erofs.MountUtils.Host.{MountTools, Cleanup, mount_all, run_cleanup}
use nexus_erofs.MountUtils.Host.Ext4.{mount_ext4}
use nexus_erofs.Snapshotter.Create.{mkdir_temp}
use nexus_erofs.Differ.{Services}

-- the EROFS mounts, and the last ext4 mount
erofs_mounts : List Mount → List Mount
unfolding type_suffix
erofs_mounts [] = []
erofs_mounts (m ∷ ms) =
    let rest = erofs_mounts ms in if type_suffix m.kind == codes "erofs" then m ∷ rest else rest

last_ext4 : List Mount → Option Mount → Option Mount
unfolding type_suffix
last_ext4 [] found = found
last_ext4 (m ∷ ms) found =
    last_ext4 ms (if type_suffix m.kind == codes "ext4" then some m else found)

overlay_options : Bytes → Bytes → Bytes → Bytes
overlay_options lower upper work =
    codes "lowerdir=" ++ (lower ++ (codes ",upperdir=" ++ (upper ++ (codes ",workdir=" ++ work))))

module _ {Meta : Type 0} where
  -- MkdirAll of a directory, where os.Stat does not find it
  made_unless_found : String → Bytes → Result Node → Exec Meta (Unit {0})
  made_unless_found text path (ok _) = pure tt
  made_unless_found text path (err _) = wrapping text (mkdir_all path)

  ensure_dir : String → Bytes → Exec Meta (Unit {0})
  unfolding made_unless_found
  ensure_dir text path = do found ← attempt (stat path); made_unless_found text path found

  make_dirs : List Bytes → Exec Meta (Unit {0})
  make_dirs [] = pure tt
  make_dirs (d ∷ ds) = do _ ← wrapping "failed to create dir" (mkdir_all d); make_dirs ds

module _ (T : MountTools) {Meta : Type 0} (S : Services Meta) where
  unmount_overlay : Bytes → Exec Meta (Unit {0})
  unmount_overlay target =
      system_call
        λ w. let (r, points) = S.unmount target w.mounted in (r, record w { mounted = points })

  mount_overlay : Bytes → Bytes → Exec Meta (Unit {0})
  mount_overlay target options = system_call λ w.
      let (r, points) = S.mount_overlay target options w.mounted in
      (r, record w { mounted = points })

  -- The function for the cleanup is not called beside an error of MountAll.
  behind_mount_all : Exec Meta Bytes → Cleanup × Result (Unit {0}) → Exec Meta Bytes
  behind_mount_all body (cleanup, err e) = raise (wrap "failed to mount EROFS" e)
  behind_mount_all body (cleanup, ok _) = deferred (run_cleanup T cleanup) body

  -- withErofsTempMount
  unfoldable pub with_erofs_temp_mount : List Mount → (Bytes → Exec Meta Bytes) → Exec Meta Bytes
  unfolding behind_mount_all
  with_erofs_temp_mount mounts f = do
    dir ←
        wrapping "failed to create temp dir"
          (mkdir_temp S.temp_dir (codes "erofs-diff-") S.random_texts)
    deferred (remove_all dir)
        (do mounted ← mount_all T mounts dir; behind_mount_all (f dir) mounted)

  -- the overlay over the mounted layers, and the function on it
  on_overlay : Bytes → Bytes → Bytes → (Bytes → Exec Meta Bytes) → Exec Meta Bytes
  unfolding mount_overlay unmount_overlay ensure_dir overlay_options
  on_overlay erofs_dir ext4_dir overlay_dir f = do
    let upper = join_path (ext4_dir ∷ codes "upper" ∷ [])
    let work = join_path (ext4_dir ∷ codes "work" ∷ [])
    _ ← ensure_dir "failed to create upper dir" upper
    _ ← ensure_dir "failed to create work dir" work
    _ ←
        wrapping "failed to mount overlay"
          (mount_overlay overlay_dir (overlay_options erofs_dir upper work))
    deferred (unmount_overlay overlay_dir) (f overlay_dir)

  on_ext4 : Mount → Bytes → Bytes → Bytes → (Bytes → Exec Meta Bytes) → Exec Meta Bytes
  unfolding on_overlay
  on_ext4 ext4 erofs_dir ext4_dir overlay_dir f = do
    cleanup ← wrapping "failed to mount ext4" (mount_ext4 T ext4.source ext4_dir)
    deferred (run_cleanup T cleanup) (on_overlay erofs_dir ext4_dir overlay_dir f)

  in_temp_base : List Mount → Mount → Bytes → (Bytes → Exec Meta Bytes) → Exec Meta Bytes
  unfolding on_ext4 make_dirs behind_mount_all erofs_mounts
  in_temp_base mounts ext4 base f = do
    let erofs_dir = join_path (base ∷ codes "erofs" ∷ [])
    let ext4_dir = join_path (base ∷ codes "ext4" ∷ [])
    let overlay_dir = join_path (base ∷ codes "overlay" ∷ [])
    _ ← make_dirs (erofs_dir ∷ ext4_dir ∷ overlay_dir ∷ [])
    mounted ← mount_all T (erofs_mounts mounts) erofs_dir
    behind_mount_all (on_ext4 ext4 erofs_dir ext4_dir overlay_dir f) mounted

  with_ext4 : List Mount → Option Mount → (Bytes → Exec Meta Bytes) → Exec Meta Bytes
  unfolding in_temp_base
  with_ext4 mounts none f = raise (message "active snapshot mount missing ext4 writable layer")
  with_ext4 mounts (some ext4) f = do
    base ←
        wrapping "failed to create temp dir"
          (mkdir_temp S.temp_dir (codes "erofs-active-") S.random_texts)
    deferred (remove_all base) (in_temp_base mounts ext4 base f)

  -- withActiveSnapshotMount
  unfoldable pub with_active_snapshot_mount :
      List Mount → (Bytes → Exec Meta Bytes) → Exec Meta Bytes
  unfolding with_ext4 last_ext4
  with_active_snapshot_mount mounts f = with_ext4 mounts (last_ext4 mounts none) f
