-- ===== src/CommitTool/Write/Kept.antt =====
-- writeToSnapshot of cmd/integration-commit/main.go leaves the metadata and the mount points.
use nexus_erofs.Prelude.{◌≡◌, refl, List, [], ◌∷◌, Bytes}
use nexus_erofs.Mount.{Mount}
use nexus_erofs.Os.{World}
use nexus_erofs.Os.Keeps.{
  Keeps, meta_rules, Keeps-bind, Keeps-deferred, Keeps-raise, Keeps-of_meta, remove_all-meta,
}
use nexus_erofs.Differ.Active.Kept.{mkdir_temp-meta}
use nexus_erofs.Differ.Mounted.Balance.{call-Keeps}
use nexus_erofs.CommitTool.{CommitTools}
use nexus_erofs.CommitTool.Write.{
  ext4_source, timestamp, mount_ext4, unmount_ext4, write_marker, write_mounted, write_from,
  write_to_snapshot,
}

module _ {Meta X : Type 0} (T : CommitTools Meta) (look : Meta → X)
    (still : (m : Meta) → look (T.rfc3339 m).1 ≡ look m) where
  abbrev seen : World Meta → X
  seen w = look w.meta

  pub timestamp-Keeps : Keeps seen (timestamp T)
  unfolding timestamp
  timestamp-Keeps = call-Keeps look _ still

  mount_ext4-Keeps : (source target : Bytes) → Keeps seen (mount_ext4 T source target)
  unfolding mount_ext4
  mount_ext4-Keeps source target = record { at = λ w. refl }

  unmount_ext4-Keeps : (target : Bytes) → Keeps seen (unmount_ext4 T target)
  unfolding unmount_ext4
  unmount_ext4-Keeps target = record { at = λ w. refl }

  write_marker-Keeps : (mount_point marker : Bytes) → Keeps seen (write_marker T mount_point marker)
  unfolding write_marker
  write_marker-Keeps mount_point marker =
      Keeps-bind _ _ (Keeps-of_meta look _ (search meta_rules))
        λ _. Keeps-bind _ _ timestamp-Keeps λ _. Keeps-of_meta look _ (search meta_rules)

  write_mounted-Keeps : (source marker : Bytes) → Keeps seen (write_mounted T source marker)
  unfolding write_mounted
  write_mounted-Keeps source marker =
      Keeps-bind _ _ (Keeps-of_meta look _ (search (meta_rules, mkdir_temp-meta))) λ mount_point.
        Keeps-deferred _ _ (Keeps-of_meta look _ (remove_all-meta mount_point)) (
          Keeps-bind _ _ (mount_ext4-Keeps source mount_point) λ _.
            Keeps-deferred _ _ (unmount_ext4-Keeps mount_point)
              (write_marker-Keeps mount_point marker))

  write_from-Keeps : (source marker : Bytes) → Keeps seen (write_from T source marker)
  unfolding write_from
  write_from-Keeps [] marker = Keeps-raise _
  write_from-Keeps (c ∷ cs) marker = write_mounted-Keeps (c ∷ cs) marker

  pub write_to_snapshot-Keeps :
      (mounts : List Mount) (marker : Bytes) → Keeps seen (write_to_snapshot T mounts marker)
  unfolding write_to_snapshot
  write_to_snapshot-Keeps mounts marker = write_from-Keeps (ext4_source mounts) marker
