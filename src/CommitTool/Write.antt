-- ===== src/CommitTool/Write.antt =====
-- writeToSnapshot of cmd/integration-commit/main.go.
pub mod Kept
use nexus_erofs.Prelude.{
  ◌≡◌, refl, Bool, true, false, List, [], ◌∷◌, ◌++◌, Bytes, codes, String, ◌==◌, bytes_eq,
  if◌then◌else◌,
}
use nexus_erofs.FilePath.{dir, join_path}
use nexus_erofs.Errors.{Result, ok, err, message}
use nexus_erofs.Mount.{Mount}
use nexus_erofs.Os.{
  World, Exec, pure, raise, lift, deferred, wrapping, mkdir_all, remove_all, write_file, ◌>>=◌,
}
use nexus_erofs.Differ.Mounted.{call}
use nexus_erofs.Snapshotter.Create.{mkdir_temp}
use nexus_erofs.CommitTool.{CommitTools}

-- the source of the first mount of type ext4, and an empty text without one
unfoldable pub ext4_source : List Mount → Bytes
ext4_source [] = []
ext4_source (m ∷ ms) =
    let rest = ext4_source ms in if m.kind == codes "ext4" then m.source else rest

exit_status : String → Bool → Result (Unit {0})
exit_status text true = ok tt
exit_status text false = err (message text)

module _ {Meta : Type 0} (T : CommitTools Meta) where
  -- time.Now().Format(time.RFC3339)
  unfoldable pub timestamp : Exec Meta Bytes
  unfolding call
  timestamp = call (λ m. let (text, m') = T.rfc3339 m in (ok text, m'))

  -- A command runs on the mount points, and its exit status is its outcome.
  mount_ext4 : Bytes → Bytes → Exec Meta (Unit {0})
  unfolding exit_status
  mount_ext4 source target w =
      let (done, points) = T.mount_loop source target w.mounted in
      (exit_status "mount ext4" done, record w { mounted = points })

  unmount_ext4 : Bytes → Exec Meta (Unit {0})
  unfolding exit_status
  unmount_ext4 target w =
      let (done, points) = T.umount target w.mounted in
      (exit_status "failed to unmount" done, record w { mounted = points })

  write_marker : Bytes → Bytes → Exec Meta (Unit {0})
  unfolding timestamp
  write_marker mount_point marker = do
    let path = join_path (mount_point ∷ marker ∷ [])
    _ ← wrapping "create parent dirs" (mkdir_all (dir path))
    now ← timestamp
    wrapping "write marker file" (write_file path (codes "Committed at " ++ now ++ codes "\n"))

  write_mounted : Bytes → Bytes → Exec Meta (Unit {0})
  unfolding mount_ext4 unmount_ext4 write_marker
  write_mounted source marker = do
    mount_point ←
        wrapping "create mount point"
          (mkdir_temp T.temp_dir (codes "snapshot-mount-") T.random_texts)
    deferred (remove_all mount_point) (do
      _ ← mount_ext4 source mount_point
      deferred (unmount_ext4 mount_point) (write_marker mount_point marker))

  write_from : Bytes → Bytes → Exec Meta (Unit {0})
  unfolding write_mounted
  write_from [] marker = raise (message "no ext4 mount found in mounts")
  write_from (c ∷ cs) marker = write_mounted (c ∷ cs) marker

  -- writeToSnapshot; the exit status of `sync` is dropped
  unfoldable pub write_to_snapshot : List Mount → Bytes → Exec Meta (Unit {0})
  unfolding ext4_source write_from
  write_to_snapshot mounts marker = write_from (ext4_source mounts) marker
