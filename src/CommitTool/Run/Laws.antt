-- ===== src/CommitTool/Run/Laws.antt =====
-- What is relied on of the snapshotter and of the clock that cmd/integration-commit/main.go uses.
use nexus_erofs.Prelude.{
  ◌≡◌, ◌⊎◌, refl, sym, ◌∙◌, false, List, ◌∷◌, ◌++◌, Bytes, codes, Bool-cases, inl, inr, ◌==◌,
  bytes_eq,
}
use nexus_erofs.Errors.{Error, Result, ok, err}
use nexus_erofs.Mount.{Mount}
use nexus_erofs.Os.{World}
use nexus_erofs.Os.Keeps.{Keeps}
use nexus_erofs.Storage.{Labels}
use nexus_erofs.GrpcService.{SnapshotterApi}
use nexus_erofs.Differ.Upload.Tracks.{holds, without, without-absent, without-head}
use nexus_erofs.CommitTool.{CommitTools, NewImage}

-- The keys of a snapshotter: Prepare adds one that it did not know, and may have added it where it
-- fails; Commit gives a snapshot a name that it did not know; Remove takes a key away, and changes
-- nothing where it fails, which it does only for a key that is not there; Usage leaves them.
pub record TracksKeys {Meta : Type 0} (keys : Meta → List Bytes) (S : SnapshotterApi Meta)
    : Type 0 where
  pub prepared :
      (key parent : Bytes) (opts : List Labels) (w : World Meta) (ms : List Mount)
      → (S.prepare key parent opts w).0 ≡ ok ms
      → (holds key (keys w.meta) ≡ false)
        × (keys (S.prepare key parent opts w).1.meta ≡ key ∷ keys w.meta)
  pub unprepared :
      (key parent : Bytes) (opts : List Labels) (w : World Meta) (e : Error)
      → (S.prepare key parent opts w).0 ≡ err e
      → (keys (S.prepare key parent opts w).1.meta ≡ keys w.meta)
        ⊎ (keys (S.prepare key parent opts w).1.meta ≡ key ∷ keys w.meta)
  pub committed :
      (name key : Bytes) (opts : List Labels) (w : World Meta)
      → (S.commit name key opts w).0 ≡ ok tt
      → (holds name (keys w.meta) ≡ false)
        × (keys (S.commit name key opts w).1.meta ≡ name ∷ without key (keys w.meta))
  pub uncommitted :
      (name key : Bytes) (opts : List Labels) (w : World Meta) (e : Error)
      → (S.commit name key opts w).0 ≡ err e
      → keys (S.commit name key opts w).1.meta ≡ keys w.meta
  pub removed :
      (key : Bytes) (w : World Meta)
      → (S.remove key w).0 ≡ ok tt
      → keys (S.remove key w).1.meta ≡ without key (keys w.meta)
  pub unremoved :
      (key : Bytes) (w : World Meta) (e : Error)
      → (S.remove key w).0 ≡ err e
      → (keys (S.remove key w).1.meta ≡ keys w.meta) × (holds key (keys w.meta) ≡ false)
  pub used : (key : Bytes) → Keeps (λ w. keys w.meta) (S.usage key)

-- Behind Remove, whether it succeeds or not, the key is not there.
pub remove_lem :
    {Meta : Type 0} (keys : Meta → List Bytes) (S : SnapshotterApi Meta) (K : TracksKeys keys S)
    (key : Bytes) (w : World Meta)
    → keys (S.remove key w).1.meta ≡ without key (keys w.meta)
remove_lem keys S K key w = by_result (S.remove key w).0 refl
  where
    by_result :
        (r : Result (Unit {0}))
        → (S.remove key w).0 ≡ r
        → keys (S.remove key w).1.meta ≡ without key (keys w.meta)
    by_result (ok _) h = K.removed key w h
    by_result (err e) h =
        let (same, absent) = K.unremoved key w e h in
        same ∙ sym (without-absent key (keys w.meta) absent)

-- The images and the clock leave the snapshots alone, and no snapshot has the name that the tool
-- makes of the time.
pub record LeavesKeys {Meta : Type 0} (keys : Meta → List Bytes) (T : CommitTools Meta)
    : Type 0 where
  pub created : (image : NewImage) → Keeps (λ w. keys w.meta) (T.create_image image)
  pub updated : (image : NewImage) → Keeps (λ w. keys w.meta) (T.update_image image)
  pub listed : Keeps (λ w. keys w.meta) T.list_images
  pub nanoseconds : (m : Meta) → keys (T.unix_nano m).1 ≡ keys m
  pub formatted : (m : Meta) → keys (T.rfc3339 m).1 ≡ keys m
  pub new :
      (m : Meta)
      → holds ((codes "commit-test-" ++ (T.unix_nano m).0) ++ codes "-committed") (keys m) ≡ false

pub without-without :
    (key name : Bytes) (ks : List Bytes)
    → holds key ks ≡ false
    → holds name ks ≡ false
    → without key (without name (key ∷ ks)) ≡ ks
unfolding without
without-without key name ks hk hn = elim (Bool-cases (key == name)) [
  | inl same ↦ rw (same, without-absent name ks hn) (without-absent key ks hk)
  | inr other ↦ rw (other, without-absent name ks hn) (without-head key ks hk)
]

pub without-name :
    (key name : Bytes) (ks : List Bytes)
    → holds key ks ≡ false
    → holds name ks ≡ false
    → without key (without name (name ∷ without key (key ∷ ks))) ≡ ks
without-name key name ks hk hn =
    rw (without-head key ks hk, without-head name ks hn) (without-absent key ks hk)
