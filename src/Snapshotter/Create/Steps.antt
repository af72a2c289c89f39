-- ===== src/Snapshotter/Create/Steps.antt =====
-- The steps of createSnapshot of internal/snapshotter/operations.go, but for its transaction and its
-- last step: they leave the metadata, and an empty schedule of faults stays empty.
use nexus_erofs.Prelude.{refl, Bool, true, false, List, [], ◌∷◌, Bytes, String}
use nexus_erofs.Errors.{Error, Result, ok, err}
use nexus_erofs.Os.Calm.{Calm, calm_rules, Calm-pure, Calm-raise, Calm-bind, Calm-if, Calm-wrapping}
use nexus_erofs.Storage.{External, run_mkfs_ext4}
use nexus_erofs.Storage.Untouched.{run_mkfs_ext4-meta, run_mkfs_ext4-Free}
use nexus_erofs.Snapshotter.Types.{
  Config, Kind, kind_unknown, kind_view, kind_active, kind_committed,
}
use nexus_erofs.Snapshotter.Host.Untouched.{mount_block_rw_layer-meta}
use nexus_erofs.Snapshotter.Host.Free.{mount_block_rw_layer-Free}
use nexus_erofs.Snapshotter.Mounts.{ensure_marker_file}
use nexus_erofs.Snapshotter.Create.{
  Locals, is_taken, next_name, mkdir_temp, check_context, marker_if, furnish_directory,
  prepare_directory, remove_if_set, cleanup_failed_snapshot, failed, undo_layer,
  create_writable_layer, start_generation, mount_if, writable_if,
}

module _ {Meta : Type 0} where
  pub check_context-Calm : (text : String) → Calm {Meta = Meta} (check_context text)
  unfolding check_context
  check_context-Calm text = search calm_rules

  next_name-Calm :
      (again : Error → _) (name : Bytes) (r : Result (Unit {0}))
      → ((e : Error) → Calm {Meta = Meta} (again e))
      → Calm (next_name again name r)
  unfolding next_name
  next_name-Calm again name (ok _) h = Calm-pure name
  next_name-Calm again name (err e) h = h e

  mkdir_temp-Calm :
      (dir prefix : Bytes) (names : List Bytes) → Calm {Meta = Meta} (mkdir_temp dir prefix names)
  unfolding mkdir_temp
  mkdir_temp-Calm dir prefix [] = Calm-raise _
  mkdir_temp-Calm dir prefix (n ∷ names) = Calm-bind _ _ (search calm_rules) λ made.
      next_name-Calm _ _ made
        λ e. Calm-if (is_taken e) _ _ (mkdir_temp-Calm dir prefix names) (Calm-raise e)

  ensure_marker_file-Calm : (p : Bytes) → Calm {Meta = Meta} (ensure_marker_file p)
  unfolding ensure_marker_file
  ensure_marker_file-Calm p = search calm_rules

  marker_if-Calm : (kind : Kind) (td : Bytes) → Calm {Meta = Meta} (marker_if kind td)
  unfolding furnish_directory
  marker_if-Calm kind_active td = ensure_marker_file-Calm _
  marker_if-Calm kind_unknown td = Calm-pure tt
  marker_if-Calm kind_view td = Calm-pure tt
  marker_if-Calm kind_committed td = Calm-pure tt

  furnish_directory-Calm :
      (kind : Kind) (r : Result Bytes) → Calm {Meta = Meta} (furnish_directory kind r)
  unfolding furnish_directory
  furnish_directory-Calm kind (err e) = Calm-pure _
  furnish_directory-Calm kind (ok td) = search (calm_rules, marker_if-Calm)

  pub prepare_directory-Calm :
      (dir : Bytes) (kind : Kind) (random : List Bytes)
      → Calm {Meta = Meta} (prepare_directory dir kind random)
  unfolding prepare_directory
  prepare_directory-Calm dir kind random =
      search (calm_rules, mkdir_temp-Calm, furnish_directory-Calm)

  remove_if_set-Calm : (p : Bytes) → Calm {Meta = Meta} (remove_if_set p)
  unfolding cleanup_failed_snapshot
  remove_if_set-Calm [] = Calm-pure tt
  remove_if_set-Calm (c ∷ cs) = search calm_rules

  pub failed-Calm : {A : Type 0} (l : Locals) (e : Error) → Calm {Meta = Meta} (failed {A = A} l e)
  unfolding failed cleanup_failed_snapshot
  failed-Calm l e = search (calm_rules, remove_if_set-Calm)

module _ (E : External) (s : Config) where
  undo_layer-Calm :
      (path : Bytes) (text : String) (r : Result (Unit {0})) → Calm (undo_layer E s path text r)
  unfolding create_writable_layer
  undo_layer-Calm path text (ok _) = Calm-pure tt
  undo_layer-Calm path text (err e) = search calm_rules

  run_mkfs_ext4-Calm : (args : List Bytes) → Calm (run_mkfs_ext4 E args)
  run_mkfs_ext4-Calm args = record {
    kept = run_mkfs_ext4-meta E args;
    free = run_mkfs_ext4-Free E args;
  }

  create_writable_layer-Calm : (id : Bytes) → Calm (create_writable_layer E s id)
  unfolding create_writable_layer
  create_writable_layer-Calm id = search (calm_rules, run_mkfs_ext4-Calm, undo_layer-Calm) depth 12

  pub start_generation-Calm :
      (extract : Bool) (ids : List Bytes) → Calm (start_generation E s extract ids)
  unfolding start_generation
  start_generation-Calm true ids = record {
    kept = record { at = λ w. refl };
    free = record { at = λ w h. h };
  }
  start_generation-Calm false [] = record {
    kept = record { at = λ w. refl };
    free = record { at = λ w h. h };
  }
  start_generation-Calm false (id ∷ ids) = record {
    kept = record { at = λ w. refl };
    free = record { at = λ w h. h };
  }

  mount_if-Calm : (extract : Bool) (id : Bytes) → Calm (mount_if E s extract id)
  unfolding mount_if
  mount_if-Calm false id = Calm-pure tt
  mount_if-Calm true id =
      Calm-wrapping _ _ (record {
        kept = mount_block_rw_layer-meta E s id;
        free = mount_block_rw_layer-Free E s id;
      })

  pub writable_if-Calm : (kind : Kind) (key id : Bytes) → Calm (writable_if E s kind key id)
  unfolding writable_if
  writable_if-Calm kind_active key id =
      search (calm_rules, check_context-Calm, create_writable_layer-Calm, mount_if-Calm)
  writable_if-Calm kind_unknown key id = Calm-pure tt
  writable_if-Calm kind_view key id = Calm-pure tt
  writable_if-Calm kind_committed key id = Calm-pure tt
