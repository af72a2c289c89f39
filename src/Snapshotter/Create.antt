-- ===== src/Snapshotter/Create.antt =====
-- internal/snapshotter/operations.go: createSnapshot, Prepare and View; prepareDirectory and
-- createWritableLayer of internal/snapshotter/snapshotter.go.
pub mod Steps
pub mod Recorded
pub mod Outcome
pub mod Made
use nexus_erofs.Prelude.{
  Bool, true, false, List, [], ◌∷◌, ◌++◌, Bytes, codes, String, bytes_eq, if◌then◌else◌,
}
use nexus_erofs.Strings.{has_prefix}
use nexus_erofs.FilePath.{join_path, base}
use nexus_erofs.Errors.{Error, Result, ok, err, wrap, os_error, eexist}
use nexus_erofs.Mount.{Mount}
use nexus_erofs.Os.{
  World, Exec, pure, raise, attempt, wrapping, system_call, write_file, truncate_file, mkdir,
  remove, remove_all, rename, ◌>>=◌,
}
use nexus_erofs.Storage.{External, Labels, query, change, with_transaction, run_mkfs_ext4}
use nexus_erofs.Snapshotter.Types.{Config, Kind, kind_view, kind_active, Snapshot, Info}
use nexus_erofs.Snapshotter.Paths.{fs_dir_name, upper_path, writable_path, snapshots_dir}
use nexus_erofs.Snapshotter.Mounts.{mounts, ensure_marker_file, extract_label}
use nexus_erofs.Erofs.Layer.{erofs_layer_marker}
use nexus_erofs.Snapshotter.Host.{upper_directory_permission, mount_block_rw_layer}

-- The variables of createSnapshot that its deferred function reads; an empty text is a path that is
-- not set.
pub record Locals : Type 0 where
  pub td : Bytes
  pub path : Bytes

pub is_taken : Error → Bool
is_taken (os_error eexist) = true
is_taken e = false

module _ {Meta : Type 0} where
  -- os.MkdirTemp: the random texts are tried while the name is taken.
  unfoldable pub next_name : (Error → Exec Meta Bytes) → Bytes → Result (Unit {0}) → Exec Meta Bytes
  next_name again name (ok _) = pure name
  next_name again name (err e) = again e

  unfoldable pub mkdir_temp : Bytes → Bytes → List Bytes → Exec Meta Bytes
  unfolding next_name is_taken
  mkdir_temp dir prefix [] = raise (os_error eexist)
  mkdir_temp dir prefix (random ∷ others) = do
    let name = join_path (dir ∷ (prefix ++ random) ∷ [])
    let again = mkdir_temp dir prefix others
    made ← attempt (mkdir name)
    next_name (λ e. if is_taken e then again else raise e) name made

  -- checkContext: the schedule says whether the context is cancelled at this moment.
  unfoldable pub check_context : String → Exec Meta (Unit {0})
  check_context operation = wrapping operation (system_call λ w. (ok tt, w))

  marker_if : Kind → Bytes → Exec Meta (Unit {0})
  marker_if kind_active td = ensure_marker_file (join_path (td ∷ erofs_layer_marker ∷ []))
  marker_if _ td = pure tt

  furnish_directory : Kind → Result Bytes → Exec Meta (Bytes × Result (Unit {0}))
  unfolding marker_if
  furnish_directory kind (err e) = pure ([], err (wrap "create temp dir" e))
  furnish_directory kind (ok td) = do
    furnished ← attempt (do _ ← mkdir (join_path (td ∷ fs_dir_name ∷ [])); marker_if kind td)
    pure (td, furnished)

  -- prepareDirectory, which returns a directory beside an error too
  unfoldable pub prepare_directory :
      Bytes → Kind → List Bytes → Exec Meta (Bytes × Result (Unit {0}))
  unfolding furnish_directory
  prepare_directory dir kind random = do
    made ← attempt (mkdir_temp dir (codes "new-") random)
    furnish_directory kind made

  remove_if_set : Bytes → Exec Meta (Unit {0})
  remove_if_set [] = pure tt
  remove_if_set (c ∷ cs) = do _ ← attempt (remove_all (c ∷ cs)); pure tt

  -- cleanupFailedSnapshot
  unfoldable pub cleanup_failed_snapshot : Bytes → Bytes → Exec Meta (Unit {0})
  unfolding remove_if_set
  cleanup_failed_snapshot td path = do _ ← remove_if_set td; remove_if_set path

  -- a return with an error, and the deferred function
  unfoldable pub failed : {A : Type 0} → Locals → Error → Exec Meta A
  failed l e = do _ ← cleanup_failed_snapshot l.td l.path; raise e

  pub settle : {A : Type 0} → Locals → Result A → Exec Meta A
  unfolding failed
  settle l (ok a) = pure a
  settle l (err e) = failed l e

module _ (E : External) (s : Config) where
  -- isExtractKey
  unfoldable pub is_extract_key : Bytes → Bool
  is_extract_key key = has_prefix (base key) E.unpack_key_prefix

  undo_layer : Bytes → String → Result (Unit {0}) → Exec E.Meta (Unit {0})
  undo_layer path text (ok _) = pure tt
  undo_layer path text (err e) = do _ ← attempt (remove path); raise (wrap text e)

  -- createWritableLayer
  unfoldable pub create_writable_layer : Bytes → Exec E.Meta (Unit {0})
  unfolding undo_layer
  create_writable_layer id = do
    _ ← wrapping "create writable layer file" (write_file (writable_path s id) [])
    truncated ← attempt (truncate_file (writable_path s id) s.default_writable)
    _ ← undo_layer (writable_path s id) "allocate writable layer" truncated
    formatted ← attempt (
        run_mkfs_ext4 E (
          codes "-q"
          ∷ codes "-F"
          ∷ codes "-L"
          ∷ codes "rwlayer"
          ∷ codes "-E"
          ∷ codes "nodiscard,lazy_itable_init=1,lazy_journal_init=1"
          ∷ writable_path s id
          ∷ []))
    undo_layer (writable_path s id) "format ext4" formatted

  pub permission_if : Bytes → List Bytes → Exec E.Meta (Unit {0})
  permission_if td [] = pure tt
  permission_if td (parent ∷ _) =
      wrapping "set upper directory permissions"
        (upper_directory_permission E (join_path (td ∷ fs_dir_name ∷ [])) (upper_path s parent))

  -- the function of the transaction up to the permissions
  unfoldable pub record_snapshot :
      Kind → Bytes → Bytes → List Labels → Bytes → Exec E.Meta (Snapshot × Info)
  unfolding permission_if
  record_snapshot kind key parent opts td = do
    snap ← wrapping "create snapshot" (change E (E.create_snapshot kind key parent opts))
    info ← wrapping "get snapshot info" (query E (E.get_info key))
    _ ← permission_if td snap.parent_ids
    pure (snap, info.1)

  pub moved :
      Bytes
      → Bytes
      → Snapshot × Info
      → Result (Unit {0}) × World E.Meta
      → (Result (Snapshot × Info) × World E.Meta) × Locals
  moved td path found (ok _, w) = ((ok found, w), record { td = []; path = path })
  moved td path found (err e, w) = ((err e, w), record { td = td; path = path })

  pub move_directory :
      Bytes
      → Result (Snapshot × Info) × World E.Meta
      → (Result (Snapshot × Info) × World E.Meta) × Locals
  unfolding moved
  move_directory td (err e, w) = ((err e, w), record { td = td; path = [] })
  move_directory td (ok found, w) =
      let path = join_path (snapshots_dir s ∷ found.0.id ∷ []) in
      moved td path found (wrapping "rename" (rename td path) w)

  -- the function of the transaction, with the variables behind it
  unfoldable pub new_snapshot :
      Kind
      → Bytes
      → Bytes
      → List Labels
      → Bytes
      → World E.Meta
      → (Result (Snapshot × Info) × World E.Meta) × Locals
  unfolding move_directory
  new_snapshot kind key parent opts td w =
      move_directory td (record_snapshot kind key parent opts td w)

  pub locals_behind : Bytes → Result (Unit {0}) → Locals → Locals
  locals_behind td (ok _) l = l
  locals_behind td (err e) l = record { td = td; path = [] }

  pub with_extract_label : Bool → List Labels → List Labels
  with_extract_label true opts = opts ++ ((extract_label, codes "true") ∷ []) ∷ []
  with_extract_label false opts = opts

  -- The start of generateFsMeta in the background.
  pub start_generation : Bool → List Bytes → Exec E.Meta (Unit {0})
  start_generation true ids w = (ok tt, w)
  start_generation false [] w = (ok tt, w)
  start_generation false (id ∷ ids) w =
      (ok tt, record w { background = w.background ++ (id ∷ ids) ∷ [] })

  mount_if : Bool → Bytes → Exec E.Meta (Unit {0})
  mount_if false id = pure tt
  mount_if true id = wrapping "mount writable layer for extraction" (mount_block_rw_layer E s id)

  pub writable_if : Kind → Bytes → Bytes → Exec E.Meta (Unit {0})
  unfolding mount_if
  writable_if kind_active key id = do
    _ ← check_context "before writable layer creation"
    _ ← wrapping "create writable layer" (create_writable_layer id)
    mount_if (is_extract_key key) id
  writable_if _ key id = pure tt

  -- createSnapshot behind its transaction
  unfoldable pub furnish : Kind → Bytes → Snapshot × Info → Exec E.Meta (List Mount)
  unfolding start_generation writable_if
  furnish kind key found = do
    _ ← check_context "after transaction"
    _ ← start_generation (is_extract_key key) found.0.parent_ids
    _ ← writable_if kind key found.0.id
    mounts s found.0 found.1

  pub recorded : Kind → Bytes → Locals → Result (Snapshot × Info) → Exec E.Meta (List Mount)
  unfolding settle
  recorded kind key l (err e) = failed l e
  recorded kind key l (ok found) = do outcome ← attempt (furnish kind key found); settle l outcome

  pub prepared :
      Kind → Bytes → Bytes → List Labels → Bytes × Result (Unit {0}) → Exec E.Meta (List Mount)
  unfolding recorded locals_behind with_extract_label
  prepared kind key parent opts (td, err e) w =
      failed (record { td = td; path = [] }) (wrap "create prepare snapshot dir" e) w
  prepared kind key parent opts (td, ok _) w =
      let fn = new_snapshot kind key parent (with_extract_label (is_extract_key key) opts) td in
      let l = locals_behind td (E.begin true w.meta) (fn w).1 in
      (do outcome ← attempt (with_transaction E true (λ v. (fn v).0)); recorded kind key l outcome)
        w

  pub checked :
      Kind → Bytes → Bytes → List Labels → List Bytes → Result (Unit {0}) → Exec E.Meta (List Mount)
  unfolding prepared
  checked kind key parent opts random (err e) = failed (record { td = []; path = [] }) e
  checked kind key parent opts random (ok _) = do
    made ← prepare_directory (snapshots_dir s) kind random
    prepared kind key parent opts made

  -- createSnapshot
  unfoldable pub create_snapshot :
      Kind → Bytes → Bytes → List Labels → List Bytes → Exec E.Meta (List Mount)
  unfolding checked
  create_snapshot kind key parent opts random = do
    ready ← attempt (check_context "before snapshot creation")
    checked kind key parent opts random ready

  -- Prepare
  unfoldable pub prepare : Bytes → Bytes → List Labels → List Bytes → Exec E.Meta (List Mount)
  prepare = create_snapshot kind_active

  -- View
  unfoldable pub view : Bytes → Bytes → List Labels → List Bytes → Exec E.Meta (List Mount)
  view = create_snapshot kind_view
