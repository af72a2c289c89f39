-- ===== src/Differ/Upload/Steps.antt =====
-- What each step of writeAndCommitDiff, of internal/differ/compare_linux.go, does to the open uploads.
use nexus_erofs.Prelude.{
  ◌≡◌, ◌⊎◌, inl, inr, refl, ap, sym, ◌∙◌, true, false, List, [], ◌∷◌, Option, none, some, Bytes,
  bytes_eq,
}
use mathlib.Core.Path.{subst}
use nexus_erofs.Errors.{Error, Result, ok, err, wrapped}
use nexus_erofs.Os.{World, pure, raise, lift, attempt, continue, wrapping, ◌>>=◌}
use nexus_erofs.Os.Keeps.{Keeps, Keeps-bind, Keeps-pure, Keeps-wrapping}
use nexus_erofs.Storage.{Labels}
use nexus_erofs.Differ.{Services, Stream, ContentInfo, Compression}
use nexus_erofs.Differ.Media.{compression_type_from_media_type}
use nexus_erofs.Differ.Mounted.{call, unique_ref}
use nexus_erofs.Differ.Mounted.Balance.{call-Keeps}
use nexus_erofs.Differ.Upload.{
  DiffConfig, DiffWriteFunc, update_unless, ensure_uncompressed_label, abort_if, write_and_commit,
  describe, settle, write_and_commit_diff, reference_or_new, upload_under, is_empty,
}
use nexus_erofs.Differ.Upload.Tracks.{holds, without, without-head, QuietStream, TracksIngests}
use nexus_erofs.Differ.Upload.Committing.{seen, expected, KeepsWriter, write_and_commit-Commits}

module _ {Meta : Type 0} (S : Services Meta) (ingests : Meta → List Bytes)
    (tracks : TracksIngests S ingests) where
  update_unless-Keeps :
      (info : ContentInfo) (digest : Bytes) (found : Option Bytes)
      → Keeps (seen S ingests tracks) (update_unless S info digest found)
  unfolding update_unless
  update_unless-Keeps info digest (some _) = Keeps-pure _
  update_unless-Keeps info digest none =
      Keeps-wrapping _ _ (call-Keeps ingests _ (tracks.updated _ _))

  describe-Keeps :
      (config : DiffConfig Meta) (found : Bytes × Option Labels)
      → Keeps (seen S ingests tracks) (describe S config found)
  unfolding describe ensure_uncompressed_label
  describe-Keeps config (digest, labels) =
      Keeps-bind _ _ (Keeps-wrapping _ _ (call-Keeps ingests _ (λ m. refl)))
        λ info. Keeps-bind _ _ (update_unless-Keeps info _ _) λ _. Keeps-pure _

  -- What is open behind an upload: nothing new where it succeeds, and where it fails at most its own
  -- upload, if the content store has refused to abort it.
  abbrev pub Closed : {A : Type 0} → List Bytes → Result A → List Bytes → Type 0
  Closed before (ok _) after = after ≡ before
  Closed before (err _) after =
      (after ≡ before)
      ⊎ ((ref : Bytes) × (m : Meta) × (e : Error) × ((S.store.abort ref m).0 ≡ err e)
          × (after ≡ ref ∷ before))

  left_alone :
      {A : Type 0} (before : List Bytes) (r : Result A) (after : List Bytes)
      → after ≡ before
      → Closed before r after
  left_alone before (ok _) after same = same
  left_alone before (err _) after same = inl same

  -- behind the abort of a failed upload
  settled_error :
      (ref : Bytes) (m : Meta) (before : List Bytes) (outcome : Result (Unit {0}))
      → holds ref before ≡ false
      → ingests m ≡ ref ∷ before
      → (S.store.abort ref m).0 ≡ outcome
      → (ingests (S.store.abort ref m).1 ≡ before)
        ⊎ ((r : Bytes) × (n : Meta) × (d : Error) × ((S.store.abort r n).0 ≡ err d)
            × (ingests (S.store.abort ref m).1 ≡ r ∷ before))
  settled_error ref m before (ok _) unused h done =
      inl (tracks.aborted ref m done ∙ ap (without ref) h ∙ without-head ref before unused)
  settled_error ref m before (err d) unused h done =
      inr (ref, m, d, done, tracks.unaborted ref m d done ∙ h)

  settle-ingests :
      (config : DiffConfig Meta) (ref : Bytes) (r : Result (Bytes × Option Labels)) (v : World Meta)
      (before : List Bytes)
      → holds ref before ≡ false
      → ingests v.meta ≡ expected S ingests tracks ref r (ref ∷ before)
      → Closed before
          (settle S true config ref r v).0
          (ingests (settle S true config ref r v).1.meta)
  unfolding settle abort_if expected call ◌>>=◌ attempt pure raise
  settle-ingests config ref (ok found) v before unused h =
      left_alone before (describe S config found v).0 (ingests (describe S config found v).1.meta)
        ((describe-Keeps config found).at v ∙ h ∙ without-head ref before unused)
  settle-ingests config ref (err e) v before unused h =
      settled_error ref _ before _ unused (tracks.closed ref _ ∙ h) refl

  -- behind the start of a new upload
  uploaded :
      (config : DiffConfig Meta) (ref : Bytes) (kind : Compression) (write_fn : DiffWriteFunc S)
      (r : Result (Unit {0})) (v : World Meta) (before : List Bytes)
      → ((s : Stream Meta) → config.compressor ≡ some s → QuietStream ingests s)
      → KeepsWriter S ingests tracks write_fn
      → holds ref before ≡ false
      → ((e : Error) → r ≡ err e → ingests v.meta ≡ before)
      → (r ≡ ok tt → ingests v.meta ≡ ref ∷ before)
      → let p =
          continue
            (wrapped "failed to open writer" r)
            (λ _.
              attempt (write_and_commit S true config ref kind write_fn)
              >>= settle S true config ref)
            v in
        Closed before p.0 (ingests p.1.meta)
  unfolding attempt ◌>>=◌
  uploaded config ref kind write_fn (err e) v before own kept unused failed started =
      inl (failed e refl)
  uploaded config ref kind write_fn (ok _) v before own kept unused failed started =
      settle-ingests config ref (write_and_commit S true config ref kind write_fn v).0
        (write_and_commit S true config ref kind write_fn v).1 before unused
        ((write_and_commit-Commits S ingests tracks config ref kind write_fn own kept).at v
          ∙ ap
              (expected S ingests tracks ref (write_and_commit S true config ref kind write_fn v).0)
              (started refl))

  new_upload :
      (config : DiffConfig Meta) (write_fn : DiffWriteFunc S) (kind : Compression) (w : World Meta)
      → ((s : Stream Meta) → config.compressor ≡ some s → QuietStream ingests s)
      → KeepsWriter S ingests tracks write_fn
      → ((m : Meta) → ingests (S.unique_text m).1 ≡ ingests m)
      → let p =
          (unique_ref S >>= λ ref.
          wrapping "failed to open writer" (call (S.store.writer ref config.media_type)) >>= λ _.
          attempt (write_and_commit S true config ref kind write_fn) >>= settle S true config ref)
            w in
        Closed (ingests w.meta) p.0 (ingests p.1.meta)
  unfolding unique_ref call wrapping ◌>>=◌
  new_upload config write_fn kind w own kept named =
      let (ref, m) = S.unique_text w.meta in
      uploaded config ref kind write_fn (S.store.writer ref config.media_type m).0
        (record w { meta = (S.store.writer ref config.media_type m).1 }) (ingests w.meta) own kept
        (tracks.fresh w.meta) (λ e h. tracks.unopened ref config.media_type m e h ∙ named w.meta)
        (λ h.
          tracks.opened ref config.media_type m
            (ap (holds ref) (named w.meta) ∙ tracks.fresh w.meta) h
          ∙ ap (λ l. ref ∷ l) (named w.meta))

  upload_under-ingests :
      (config : DiffConfig Meta) (write_fn : DiffWriteFunc S) (w : World Meta)
      (kind : Result Compression)
      → ((s : Stream Meta) → config.compressor ≡ some s → QuietStream ingests s)
      → KeepsWriter S ingests tracks write_fn
      → ((m : Meta) → ingests (S.unique_text m).1 ≡ ingests m)
      → compression_type_from_media_type config.media_type ≡ kind
      → Closed
          (ingests w.meta)
          (upload_under S [] config write_fn w).0
          (ingests (upload_under S [] config write_fn w).1.meta)
  unfolding upload_under reference_or_new lift ◌>>=◌ is_empty
  upload_under-ingests config write_fn w (err e) own kept named h = rw h (inl refl)
  upload_under-ingests config write_fn w (ok k) own kept named h =
      rw h (new_upload config write_fn k w own kept named)

  pub write_and_commit_diff-ingests :
      (config : DiffConfig Meta) (write_fn : DiffWriteFunc S) (w : World Meta)
      → config.reference ≡ []
      → ((s : Stream Meta) → config.compressor ≡ some s → QuietStream ingests s)
      → KeepsWriter S ingests tracks write_fn
      → ((m : Meta) → ingests (S.unique_text m).1 ≡ ingests m)
      → Closed
          (ingests w.meta)
          (write_and_commit_diff S config write_fn w).0
          (ingests (write_and_commit_diff S config write_fn w).1.meta)
  unfolding write_and_commit_diff
  write_and_commit_diff-ingests config write_fn w new own kept named =
      subst
        (λ r.
          Closed (ingests w.meta) (upload_under S r config write_fn w).0
            (ingests (upload_under S r config write_fn w).1.meta))
        (sym new)
        (upload_under-ingests config write_fn w (compression_type_from_media_type config.media_type)
          own kept named refl)
