-- ===== src/Differ/Upload/Committing.antt =====
-- What writeAndCommit, of internal/differ/compare_linux.go, does to the open uploads.
use nexus_erofs.Prelude.{
  ◌≡◌, refl, ap, ◌∙◌, true, Bool-cases, inl, inr, List, Option, none, some, Bytes, bytes_eq,
}
use nexus_erofs.Errors.{Result, ok, err}
use nexus_erofs.Os.{World, Exec, pure, lift, attempt, continue, ◌>>=◌}
use nexus_erofs.Os.Keeps.{
  Keeps, Keeps-bind, Keeps-if, Keeps-pure, Keeps-lift, Keeps-attempt, Keeps-wrapping,
}
use nexus_erofs.Storage.{Labels}
use nexus_erofs.Differ.{Services, Stream, Compression}
use nexus_erofs.Differ.Mounted.{call}
use nexus_erofs.Differ.Mounted.Balance.{call-Keeps}
use nexus_erofs.Differ.Upload.{
  DiffConfig, DiffWriteFunc, stream_or, stream_of, write_compressed_diff, committed, fill,
  truncate_if_old, digest_now, write_and_commit, is_uncompressed,
}
use nexus_erofs.Differ.Upload.Tracks.{without, QuietStream, TracksIngests}

module _ {Meta : Type 0} (S : Services Meta) (ingests : Meta → List Bytes)
    (tracks : TracksIngests S ingests) where
  abbrev pub seen : World Meta → List Bytes
  seen w = ingests w.meta

  -- the uploads behind a commit that returns this
  unfoldable pub expected : {A : Type 0} → Bytes → Result A → List Bytes → List Bytes
  expected ref (ok _) before = without ref before
  expected ref (err _) before = before

  pub record Commits {A : Type 0} (ref : Bytes) (m : Exec Meta A) : Type 0 where
    pub at : (w : World Meta) → ingests (m w).1.meta ≡ expected ref (m w).0 (ingests w.meta)

  continue-Commits :
      {A B : Type 0} (ref : Bytes) (r : Result A) (f : A → Exec Meta B) (v : World Meta)
      (before : List Bytes)
      → ((a : A) → Commits ref (f a))
      → ingests v.meta ≡ before
      → ingests (continue r f v).1.meta ≡ expected ref (continue r f v).0 before
  unfolding expected
  continue-Commits ref (err e) f v before h same = same
  continue-Commits ref (ok a) f v before h same = (h a).at v ∙ ap (expected ref (f a v).0) same

  Commits-bind :
      {A B : Type 0} (ref : Bytes) (m : Exec Meta A) (f : A → Exec Meta B)
      → Keeps seen m
      → ((a : A) → Commits ref (f a))
      → Commits ref (m >>= f)
  unfolding ◌>>=◌
  Commits-bind ref m f km h = record {
    at = λ w. continue-Commits ref (m w).0 f (m w).1 (ingests w.meta) h (km.at w);
  }

  settled : {A : Type 0} → Result (Unit {0}) → A → Exec Meta A
  unfolding committed
  settled r a = do _ ← lift (committed S r); pure a

  commit_outcome :
      {A : Type 0} (ref digest : Bytes) (labels : Option Labels) (a : A) (w v : World Meta)
      (r : Result (Unit {0}))
      → (S.store.commit ref digest labels w.meta).0 ≡ r
      → v.meta ≡ (S.store.commit ref digest labels w.meta).1
      → ingests (settled r a v).1.meta ≡ expected ref (settled r a v).0 (ingests w.meta)
  unfolding expected settled lift pure ◌>>=◌
  commit_outcome ref digest labels a w v (ok _) h same =
      ap ingests same ∙ tracks.ended ref digest labels w.meta h
  commit_outcome ref digest labels a w v (err e) h same =
      elim (Bool-cases (S.is_already_exists e)) [
        | inl exists ↦
            rw exists (ap ingests same ∙ tracks.existing ref digest labels w.meta e h exists)
        | inr other ↦ rw other (ap ingests same ∙ tracks.refused ref digest labels w.meta e h other)
      ]

  commit_all : Bytes → Bytes → Option Labels → Exec Meta (Bytes × Option Labels)
  unfolding settled
  commit_all ref digest labels = do
    outcome ← attempt (call (S.store.commit ref digest labels))
    settled outcome (digest, labels)

  commit_all-Commits :
      (ref digest : Bytes) (labels : Option Labels) → Commits ref (commit_all ref digest labels)
  unfolding commit_all ◌>>=◌ attempt call
  commit_all-Commits ref digest labels = record {
    at = λ w.
        commit_outcome ref digest labels (digest, labels) w
          (record w { meta = (S.store.commit ref digest labels w.meta).1 })
          (S.store.commit ref digest labels w.meta).0 refl refl;
  }

  abbrev pub KeepsWriter : DiffWriteFunc S → Type 0
  KeepsWriter write_fn =
      (write : Bytes → Exec Meta (Unit {0}))
      → ((piece : Bytes) → Keeps seen (write piece))
      → Keeps seen (write_fn write)

  write_compressed_diff-Keeps :
      (ref media_type : Bytes) (stream : Stream Meta) (write_fn : DiffWriteFunc S)
      → QuietStream ingests stream
      → KeepsWriter write_fn
      → Keeps seen (write_compressed_diff S ref media_type stream write_fn)
  unfolding write_compressed_diff
  write_compressed_diff-Keeps ref media_type stream write_fn quiet kept =
      Keeps-bind _ _ (Keeps-wrapping _ _ (call-Keeps ingests _ (quiet.started ref media_type))) λ _.
        Keeps-bind _ _
          (Keeps-attempt _ (kept _ λ piece. call-Keeps ingests _ (quiet.written ref piece)))
          λ written.
            Keeps-bind _ _ (Keeps-attempt _ (call-Keeps ingests _ (quiet.closed ref)))
              λ _. Keeps-bind _ _ (Keeps-wrapping _ _ (Keeps-lift written)) λ bytes. Keeps-pure _

  stream-Quiet :
      (config : DiffConfig Meta) (kind : Compression)
      → ((s : Stream Meta) → config.compressor ≡ some s → QuietStream ingests s)
      → QuietStream ingests (stream_of S config kind)
  unfolding stream_of
  stream-Quiet config kind own = chosen config.compressor own
    where
      chosen :
          (c : Option (Stream Meta))
          → ((s : Stream Meta) → c ≡ some s → QuietStream ingests s)
          → QuietStream ingests (stream_or S kind c)
      chosen (some s) h = h s refl
      chosen none h = tracks.compressed kind

  fill-Keeps :
      (config : DiffConfig Meta) (ref : Bytes) (kind : Compression) (write_fn : DiffWriteFunc S)
      → ((s : Stream Meta) → config.compressor ≡ some s → QuietStream ingests s)
      → KeepsWriter write_fn
      → Keeps seen (fill S config ref kind write_fn)
  unfolding fill
  fill-Keeps config ref kind write_fn own kept =
      Keeps-if (is_uncompressed kind) _ _
        (Keeps-bind _ _
          (Keeps-wrapping _ _ (kept _ λ piece. call-Keeps ingests _ (tracks.written ref piece)))
          λ _. Keeps-pure _)
        (Keeps-bind _ _
          (write_compressed_diff-Keeps ref config.media_type (stream_of S config kind) write_fn
            (stream-Quiet config kind own) kept)
          λ digest. Keeps-pure _)

  pub write_and_commit-Commits :
      (config : DiffConfig Meta) (ref : Bytes) (kind : Compression) (write_fn : DiffWriteFunc S)
      → ((s : Stream Meta) → config.compressor ≡ some s → QuietStream ingests s)
      → KeepsWriter write_fn
      → Commits ref (write_and_commit S true config ref kind write_fn)
  unfolding write_and_commit truncate_if_old digest_now commit_all settled
  write_and_commit-Commits config ref kind write_fn own kept =
      Commits-bind ref _ _ (Keeps-pure tt) λ _.
        Commits-bind ref _ _ (fill-Keeps config ref kind write_fn own kept) λ labels.
          Commits-bind ref _ _ (call-Keeps ingests _ (λ m. refl))
            λ digest. commit_all-Commits ref digest labels
