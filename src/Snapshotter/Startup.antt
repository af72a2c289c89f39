-- ===== src/Snapshotter/Startup.antt =====
-- What the snapshotter does when it starts and when it is closed: cleanupBlockMounts and Close of
-- internal/snapshotter/snapshotter.go, and cleanupOrphanedMounts of
-- internal/snapshotter/snapshotter_linux.go.
use nexus_erofs.Prelude.{
  ℕ, zero, suc, Bool, true, false, List, [], ◌∷◌, Option, none, some, Bytes, codes, if◌then◌else◌,
}
use nexus_erofs.FilePath.{join_path}
use nexus_erofs.Errors.{Result, ok, err}
use nexus_erofs.Os.{Exec, pure, attempt, remove_all, read_dir, ◌>>=◌}
use nexus_erofs.Os.Tree.{Node, Files, file, folder, lookup}
use nexus_erofs.Storage.{External, query, with_transaction}
use nexus_erofs.Snapshotter.Types.{Config, Info, Usage}
use nexus_erofs.Snapshotter.Paths.{snapshots_dir, rw_dir_name}
use nexus_erofs.Snapshotter.Host.{set_immutable, unmount_all}
use nexus_erofs.Snapshotter.Remove.{is_known}
use nexus_erofs.Snapshotter.FsMeta.{generate_fsmeta}

is_folder : Option Node → Bool
is_folder (some folder) = true
is_folder (some (file _)) = false
is_folder none = false

-- the entries with IsDir
folders_of : Bytes → Files → List Bytes → List Bytes
unfolding is_folder lookup
folders_of dir files [] = []
folders_of dir files (name ∷ names) =
    let rest = folders_of dir files names in
    if is_folder (lookup (join_path (dir ∷ name ∷ [])) files) then name ∷ rest else rest

-- os.ReadDir, and the entries that are directories
unfoldable pub sub_directories : {Meta : Type 0} → Bytes → Exec Meta (List Bytes)
unfolding folders_of
sub_directories dir = do names ← read_dir dir; (λ w. (ok (folders_of dir w.files names), w))

beside :
    List Bytes → Option (List Bytes × List (List Bytes)) → Option (List Bytes × List (List Bytes))
beside first none = none
beside first (some (chain, others)) = some (chain, first ∷ others)

-- the chain at this place, and the others
picked : ℕ → List (List Bytes) → Option (List Bytes × List (List Bytes))
unfolding beside
picked i [] = none
picked zero (chain ∷ chains) = some (chain, chains)
picked (suc i) (chain ∷ chains) = beside chain (picked i chains)

module _ (E : External) (s : Config) where
  id_or_skip : Result (Bytes × Info × Usage) → List Bytes → List Bytes
  id_or_skip (ok found) ids = found.0 ∷ ids
  id_or_skip (err _) ids = ids

  -- the identifiers of the infos; an info whose key is not found is skipped
  ids_of : List Info → E.Meta → List Bytes
  unfolding id_or_skip
  ids_of [] m = []
  ids_of (info ∷ infos) m = id_or_skip (E.get_info info.name m) (ids_of infos m)

  -- `validIDs`
  unfoldable pub valid_ids : Exec E.Meta (List Bytes)
  unfolding ids_of
  valid_ids =
      with_transaction E false
        (do infos ← query E (E.walk_info []); query E (λ m. ok (ids_of infos m)))

  clean_orphan : Bytes → Exec E.Meta (Unit {0})
  clean_orphan dir = do
    _ ← attempt (unmount_all E (join_path (dir ∷ rw_dir_name ∷ [])))
    _ ← attempt (set_immutable (join_path (dir ∷ codes "layer.erofs" ∷ [])) false)
    _ ← attempt (remove_all dir)
    pure tt

  clean_stale : Bytes → Exec E.Meta (Unit {0})
  clean_stale dir = do _ ← attempt (unmount_all E (join_path (dir ∷ rw_dir_name ∷ []))); pure tt

  -- the loop of cleanupOrphanedMounts
  clean_entries : List Bytes → List Bytes → Exec E.Meta (Unit {0})
  unfolding clean_orphan clean_stale
  clean_entries ids [] = pure tt
  clean_entries ids (id ∷ others) = do
    let dir = join_path (snapshots_dir s ∷ id ∷ [])
    _ ← if is_known id ids then clean_stale dir else clean_orphan dir
    clean_entries ids others

  clean_unless_failed : List Bytes → Result (List Bytes) → Exec E.Meta (Unit {0})
  unfolding clean_entries
  clean_unless_failed entries (err _) = pure tt
  clean_unless_failed entries (ok ids) = clean_entries ids entries

  clean_listed : Result (List Bytes) → Exec E.Meta (Unit {0})
  unfolding clean_unless_failed
  clean_listed (err _) = pure tt
  clean_listed (ok entries) = do ids ← attempt valid_ids; clean_unless_failed entries ids

  -- cleanupOrphanedMounts
  unfoldable pub cleanup_orphaned_mounts : Exec E.Meta (Unit {0})
  unfolding clean_listed
  cleanup_orphaned_mounts = do
    entries ← attempt (sub_directories (snapshots_dir s))
    clean_listed entries

  unmount_each : List Bytes → Exec E.Meta (Unit {0})
  unfolding clean_stale
  unmount_each [] = pure tt
  unmount_each (id ∷ ids) = do
    _ ← clean_stale (join_path (snapshots_dir s ∷ id ∷ []))
    unmount_each ids

  unmount_listed : Result (List Bytes) → Exec E.Meta (Unit {0})
  unfolding unmount_each
  unmount_listed (err _) = pure tt
  unmount_listed (ok entries) = unmount_each entries

  -- cleanupBlockMounts
  unfoldable pub cleanup_block_mounts : Exec E.Meta (Unit {0})
  unfolding unmount_listed
  cleanup_block_mounts = do
    entries ← attempt (sub_directories (snapshots_dir s))
    unmount_listed entries

  -- the generations that were started, one after the other
  run_background : List (List Bytes) → Exec E.Meta (Unit {0})
  run_background [] = pure tt
  run_background (chain ∷ chains) = do _ ← generate_fsmeta E s chain; run_background chains

  pub generation_of : Option (List Bytes × List (List Bytes)) → Exec E.Meta (Unit {0})
  generation_of none w = (ok tt, w)
  generation_of (some (chain, others)) w =
      generate_fsmeta E s chain (record w { background = others })

  -- The goroutine of createSnapshot that stands at this place of the queue runs.
  unfoldable pub run_generation : ℕ → Exec E.Meta (Unit {0})
  unfolding generation_of picked
  run_generation i w = generation_of (picked i w.background) w

  -- s.bgWg.Wait()
  unfoldable pub wait_background : Exec E.Meta (Unit {0})
  unfolding run_background
  wait_background w = run_background w.background (record w { background = [] })

  -- Close, up to the result of the close of the metadata store
  unfoldable pub close : Exec E.Meta (Unit {0})
  close = do _ ← wait_background; cleanup_block_mounts
