-- ===== src/Differ/Active/Kept.antt =====
-- The mounts that the differ makes on the host leave the metadata to the function that works on them.
use nexus_erofs.Prelude.{refl, List, [], ◌∷◌, Option, none, some, Bytes, codes, String}
use nexus_erofs.FilePath.{join_path}
use nexus_erofs.Errors.{Error, Result, ok, err}
use nexus_erofs.Mount.{Mount}
use nexus_erofs.Os.{World, Exec}
use nexus_erofs.Os.Tree.{Node}
use nexus_erofs.Os.Keeps.{
  Keeps, the_meta, meta_rules, system_call-meta, Keeps-bind, Keeps-if, Keeps-pure, Keeps-raise,
  Keeps-deferred, Keeps-wrapping, Keeps-of_meta, remove_all-meta,
}
use nexus_erofs.MountUtils.Host.{MountTools, Cleanup}
use nexus_erofs.MountUtils.Host.Kept.{mount_all-meta, mount_ext4-meta, run_cleanup-meta}
use nexus_erofs.Snapshotter.Create.{mkdir_temp, next_name, is_taken}
use nexus_erofs.Differ.{Services}
use nexus_erofs.Differ.Active.{
  made_unless_found, ensure_dir, make_dirs, unmount_overlay, mount_overlay, behind_mount_all,
  with_erofs_temp_mount, on_overlay, on_ext4, in_temp_base, with_ext4, with_active_snapshot_mount,
  last_ext4,
}

module _ {Meta : Type 0} where
  next_name-meta :
      (again : Error → Exec Meta Bytes) (name : Bytes) (r : Result (Unit {0}))
      → ((e : Error) → Keeps the_meta (again e))
      → Keeps the_meta (next_name again name r)
  unfolding next_name
  next_name-meta again name (ok _) h = Keeps-pure name
  next_name-meta again name (err e) h = h e

  pub mkdir_temp-meta :
      (dir prefix : Bytes) (names : List Bytes)
      → Keeps {Meta = Meta} the_meta (mkdir_temp dir prefix names)
  unfolding mkdir_temp
  mkdir_temp-meta dir prefix [] = search meta_rules
  mkdir_temp-meta dir prefix (n ∷ names) = Keeps-bind _ _ (search meta_rules) λ made.
      next_name-meta _ _ made
        λ e. Keeps-if (is_taken e) _ _ (mkdir_temp-meta dir prefix names) (Keeps-raise e)

  ensure_dir-meta : (text : String) (p : Bytes) → Keeps {Meta = Meta} the_meta (ensure_dir text p)
  unfolding ensure_dir
  ensure_dir-meta text p = Keeps-bind _ _ (search meta_rules) made
    where
      made : (r : Result Node) → Keeps {Meta = Meta} the_meta (made_unless_found text p r)
      made (ok _) = search meta_rules
      made (err _) = search meta_rules

  make_dirs-meta : (ds : List Bytes) → Keeps {Meta = Meta} the_meta (make_dirs ds)
  unfolding make_dirs
  make_dirs-meta [] = search meta_rules
  make_dirs-meta (d ∷ ds) = Keeps-bind _ _ (search meta_rules) λ _. make_dirs-meta ds

module _ (T : MountTools) {Meta X : Type 0} (S : Services Meta) (look : Meta → X) where
  abbrev seen : World Meta → X
  seen w = look w.meta

  behind_mount_all-Keeps :
      (body : Exec Meta Bytes) (mounted : Cleanup × Result (Unit {0}))
      → Keeps seen body
      → Keeps seen (behind_mount_all T S body mounted)
  unfolding behind_mount_all
  behind_mount_all-Keeps body (c, err e) h = Keeps-raise _
  behind_mount_all-Keeps body (c, ok _) h =
      Keeps-deferred _ _ (Keeps-of_meta look _ (run_cleanup-meta T c)) h

  pub with_erofs_temp_mount-Keeps :
      (mounts : List Mount) (f : Bytes → Exec Meta Bytes)
      → ((root : Bytes) → Keeps seen (f root))
      → Keeps seen (with_erofs_temp_mount T S mounts f)
  unfolding with_erofs_temp_mount
  with_erofs_temp_mount-Keeps mounts f h =
      Keeps-bind _ _ (Keeps-of_meta look _ (search (meta_rules, mkdir_temp-meta))) λ dir.
        Keeps-deferred _ _ (Keeps-of_meta look _ (remove_all-meta dir)) (
          Keeps-bind _ _ (Keeps-of_meta look _ (mount_all-meta T mounts dir))
            λ mounted. behind_mount_all-Keeps (f dir) mounted (h dir))

  mount_overlay-meta : (target options : Bytes) → Keeps the_meta (mount_overlay T S target options)
  unfolding mount_overlay
  mount_overlay-meta target options = system_call-meta _ (record { at = λ w. refl })

  unmount_overlay-meta : (target : Bytes) → Keeps the_meta (unmount_overlay T S target)
  unfolding unmount_overlay
  unmount_overlay-meta target = system_call-meta _ (record { at = λ w. refl })

  on_overlay-Keeps :
      (lower ext4 overlay : Bytes) (f : Bytes → Exec Meta Bytes)
      → ((root : Bytes) → Keeps seen (f root))
      → Keeps seen (on_overlay T S lower ext4 overlay f)
  unfolding on_overlay
  on_overlay-Keeps lower ext4 overlay f h =
      Keeps-bind _ _ (Keeps-of_meta look _ (ensure_dir-meta _ _)) λ _.
        Keeps-bind _ _ (Keeps-of_meta look _ (ensure_dir-meta _ _)) λ _.
          Keeps-bind _ _ (Keeps-of_meta look _ (Keeps-wrapping _ _ (mount_overlay-meta _ _))) λ _.
            Keeps-deferred _ _ (Keeps-of_meta look _ (unmount_overlay-meta overlay)) (h overlay)

  on_ext4-Keeps :
      (m : Mount) (lower ext4 overlay : Bytes) (f : Bytes → Exec Meta Bytes)
      → ((root : Bytes) → Keeps seen (f root))
      → Keeps seen (on_ext4 T S m lower ext4 overlay f)
  unfolding on_ext4
  on_ext4-Keeps m lower ext4 overlay f h =
      Keeps-bind _ _ (Keeps-of_meta look _ (Keeps-wrapping _ _ (mount_ext4-meta T m.source ext4)))
        λ c.
          Keeps-deferred _ _ (Keeps-of_meta look _ (run_cleanup-meta T c))
            (on_overlay-Keeps lower ext4 overlay f h)

  in_temp_base-Keeps :
      (mounts : List Mount) (m : Mount) (base : Bytes) (f : Bytes → Exec Meta Bytes)
      → ((root : Bytes) → Keeps seen (f root))
      → Keeps seen (in_temp_base T S mounts m base f)
  unfolding in_temp_base
  in_temp_base-Keeps mounts m base f h =
      Keeps-bind _ _
        (Keeps-of_meta look _ (
          make_dirs-meta (
            join_path (base ∷ codes "erofs" ∷ [])
            ∷ join_path (base ∷ codes "ext4" ∷ [])
            ∷ join_path (base ∷ codes "overlay" ∷ [])
            ∷ [])))
        λ _.
          Keeps-bind _ _ (Keeps-of_meta look _ (mount_all-meta T _ _))
            λ mounted. behind_mount_all-Keeps _ mounted (on_ext4-Keeps m _ _ _ f h)

  pub with_active_snapshot_mount-Keeps :
      (mounts : List Mount) (f : Bytes → Exec Meta Bytes)
      → ((root : Bytes) → Keeps seen (f root))
      → Keeps seen (with_active_snapshot_mount T S mounts f)
  unfolding with_active_snapshot_mount with_ext4
  with_active_snapshot_mount-Keeps mounts f h = choose (last_ext4 mounts none)
    where
      choose : (found : Option Mount) → Keeps seen (with_ext4 T S mounts found f)
      choose none = Keeps-raise _
      choose (some m) =
          Keeps-bind _ _ (Keeps-of_meta look _ (search (meta_rules, mkdir_temp-meta))) λ base.
            Keeps-deferred _ _ (Keeps-of_meta look _ (remove_all-meta base))
              (in_temp_base-Keeps mounts m base f h)
