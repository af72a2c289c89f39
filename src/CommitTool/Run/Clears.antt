-- ===== src/CommitTool/Run/Clears.antt =====
-- What `run` of cmd/integration-commit/main.go does to the snapshotter's keys behind Prepare.
use nexus_erofs.Prelude.{
  ◌≡◌, refl, ap, ◌∙◌, false, List, [], ◌∷◌, ◌++◌, Bytes, codes, Bool-cases, inl, inr, bytes_eq,
}
use nexus_erofs.Errors.{Error, Result, ok, err}
use nexus_erofs.Mount.{Mount}
use nexus_erofs.Os.{World, Exec, continue, attempt, deferred, wrapping, ◌>>=◌}
use nexus_erofs.Os.Keeps.{Keeps, Keeps-bind, Keeps-pure, Keeps-wrapping, Keeps-attempt}
use nexus_erofs.Storage.{Labels}
use nexus_erofs.Differ.Upload.Tracks.{holds, without, without-head}
use nexus_erofs.CommitTool.{CommitTools, NewImage}
use nexus_erofs.CommitTool.Write.{write_to_snapshot}
use nexus_erofs.CommitTool.Write.Kept.{timestamp-Keeps, write_to_snapshot-Keeps}
use nexus_erofs.CommitTool.Run.Laws.{
  TracksKeys, LeavesKeys, remove_lem, without-without, without-name,
}
use nexus_erofs.CommitTool.Run.{
  Request, gc_labels, accept_missing, created_or_updated, publish, commit_prepared,
}

module _ {Meta : Type 0} (T : CommitTools Meta) (keys : Meta → List Bytes) (r : Request)
    (tracks : TracksKeys keys (T.snapshot_service r.snapshotter)) (leaves : LeavesKeys keys T) where
  abbrev pub known : World Meta → List Bytes
  known w = keys w.meta

  -- Of the keys with the given one at their head, the others are there when that is taken away.
  pub record Clears {A : Type 0} (key : Bytes) (ks : List Bytes) (m : Exec Meta A) : Type 0 where
    pub at : (w : World Meta) → known w ≡ key ∷ ks → without key (known (m w).1) ≡ ks

  pub gc_labels-Keeps : (chain : Bytes) → Keeps known (gc_labels T r chain)
  unfolding gc_labels
  gc_labels-Keeps chain =
      Keeps-bind _ _ (timestamp-Keeps T keys leaves.formatted) λ now. Keeps-pure _

  created_or_updated-Keeps :
      (image : NewImage) (outcome : Result (Unit {0}))
      → Keeps known (created_or_updated T image outcome)
  unfolding created_or_updated
  created_or_updated-Keeps image (ok _) = Keeps-pure tt
  created_or_updated-Keeps image (err _) = Keeps-wrapping _ _ (leaves.updated image)

  publish-Keeps : (img : T.Image) (name : Bytes) → Keeps known (publish T r img name)
  unfolding publish
  publish-Keeps img name = Keeps-bind _ _ (Keeps-attempt _ (tracks.used name)) λ _.
      Keeps-bind _ _ (timestamp-Keeps T keys leaves.formatted) λ now.
        Keeps-bind _ _ (Keeps-attempt _ (leaves.created _)) λ created.
          Keeps-bind _ _ (created_or_updated-Keeps _ created)
            λ _. Keeps-bind _ _ (Keeps-wrapping _ _ leaves.listed) λ _. Keeps-pure tt

  module _ (img : T.Image) (name : Bytes) where
    -- what runs behind a commit
    abbrev rest : Exec Meta (Unit {0})
    rest = deferred ((T.snapshot_service r.snapshotter).remove name) (publish T r img name)

    rest-known : (v : World Meta) → known (rest v).1 ≡ without name (known v)
    unfolding deferred
    rest-known v =
        remove_lem keys _ tracks name _ ∙ ap (without name) ((publish-Keeps img name).at v)

  module _ (key : Bytes) (ks : List Bytes) (new_key : holds key ks ≡ false) where
    Clears-Keeps : {A : Type 0} (m : Exec Meta A) → Keeps known m → Clears key ks m
    Clears-Keeps m km = record { at = λ w h. rw (km.at w, h) (without-head key ks new_key) }

    continue-Clears :
        {A B : Type 0} (o : Result A) (f : A → Exec Meta B) (v : World Meta)
        → ((a : A) → Clears key ks (f a))
        → known v ≡ key ∷ ks
        → without key (known (continue o f v).1) ≡ ks
    continue-Clears (ok a) f v kf h = (kf a).at v h
    continue-Clears (err e) f v kf h = rw h (without-head key ks new_key)

    Clears-bind :
        {A B : Type 0} (m : Exec Meta A) (f : A → Exec Meta B)
        → Keeps known m
        → ((a : A) → Clears key ks (f a))
        → Clears key ks (m >>= f)
    unfolding ◌>>=◌
    Clears-bind m f km kf = record {
      at = λ w h. continue-Clears (m w).0 f (m w).1 kf (km.at w ∙ h);
    }

    after_commit :
        (img : T.Image) (name : Bytes)
        → holds name ks ≡ false
        → (o : Result (Unit {0})) (v : World Meta)
        → (o ≡ ok tt → known v ≡ name ∷ without key (key ∷ ks))
        → ((e : Error) → o ≡ err e → known v ≡ key ∷ ks)
        → without key (known ((accept_missing T o >>= λ _. rest img name) v).1) ≡ ks
    unfolding accept_missing ◌>>=◌
    after_commit img name new_name (ok _) v done failed =
        rw (rest-known img name v, done refl) (without-name key name ks new_key new_name)
    after_commit img name new_name (err e) v done failed = elim (Bool-cases (T.says_not_found e)) [
      | inl missing ↦
          rw missing (
            rw (rest-known img name v, failed e refl)
              (without-without key name ks new_key new_name))
      | inr other ↦ rw other (rw (failed e refl) (without-head key ks new_key))
    ]

    commit_step :
        (img : T.Image) (name : Bytes)
        → holds name ks ≡ false
        → (labels : Labels)
        → Clears key ks (
            attempt ((T.snapshot_service r.snapshotter).commit name key (labels ∷ []))
            >>= λ outcome. accept_missing T outcome >>= λ _. rest img name)
    unfolding ◌>>=◌ attempt
    commit_step img name new_name labels = record {
      at = λ w h.
          after_commit img name new_name
            ((T.snapshot_service r.snapshotter).commit name key (labels ∷ []) w).0
            ((T.snapshot_service r.snapshotter).commit name key (labels ∷ []) w).1
            (λ done.
              (tracks.committed name key (labels ∷ []) w done).1 ∙ ap (λ l. name ∷ without key l) h)
            (λ e failed. tracks.uncommitted name key (labels ∷ []) w e failed ∙ h);
    }

    commit_prepared-Clears :
        (img : T.Image) (chain : Bytes)
        → holds (key ++ codes "-committed") ks ≡ false
        → Clears key ks (commit_prepared T r img chain key)
    unfolding commit_prepared
    commit_prepared-Clears img chain new_name =
        Clears-bind _ _ (gc_labels-Keeps chain) (commit_step img _ new_name)

    pub inside_prepared :
        (img : T.Image) (chain : Bytes) (mounts : List Mount)
        → holds (key ++ codes "-committed") ks ≡ false
        → Clears key ks (
            wrapping "write to snapshot" (write_to_snapshot T mounts r.marker) >>= λ _.
            commit_prepared T r img chain key)
    inside_prepared img chain mounts new_name =
        Clears-bind _ _
          (Keeps-wrapping _ _ (write_to_snapshot-Keeps T keys leaves.formatted mounts r.marker))
          λ _. commit_prepared-Clears img chain new_name
