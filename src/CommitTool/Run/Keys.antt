-- ===== src/CommitTool/Run/Keys.antt =====
-- The snapshots that `run` of cmd/integration-commit/main.go makes are removed again.
use nexus_erofs.Prelude.{◌≡◌, ◌⊎◌, List, ◌∷◌, Bytes, bytes_eq}
use nexus_erofs.Errors.{Error, err}
use nexus_erofs.Mount.{Mount}
use nexus_erofs.Os.{World, Exec, deferred, wrapping, ◌>>=◌}
use nexus_erofs.Storage.{Labels}
use nexus_erofs.CommitTool.{CommitTools}
use nexus_erofs.CommitTool.Write.{write_to_snapshot}
use nexus_erofs.CommitTool.Run.Laws.{TracksKeys, LeavesKeys}
use nexus_erofs.CommitTool.Run.{Request, commit_prepared}

module _ {Meta : Type 0} (T : CommitTools Meta) (keys : Meta → List Bytes) (r : Request)
    (tracks : TracksKeys keys (T.snapshot_service r.snapshotter)) (leaves : LeavesKeys keys T) where
  abbrev seen : World Meta → List Bytes
  seen w = keys w.meta

  -- The keys are as before, or a Prepare that has failed has left its own.
  abbrev pub Left : List Bytes → List Bytes → Type 0
  Left before after =
      (after ≡ before)
      ⊎ ((key parent : Bytes) × (opts : List Labels) × (v : World Meta) × (e : Error)
          × (((T.snapshot_service r.snapshotter).prepare key parent opts v).0 ≡ err e)
          × (after ≡ key ∷ before))

  module _ (img : T.Image) (chain key : Bytes) where
    -- what runs behind Prepare
    abbrev prepared_rest : List Mount → Exec Meta (Unit {0})
    prepared_rest mounts = deferred ((T.snapshot_service r.snapshotter).remove key) (
        wrapping "write to snapshot" (write_to_snapshot T mounts r.marker) >>= λ _.
        commit_prepared T r img chain key)
