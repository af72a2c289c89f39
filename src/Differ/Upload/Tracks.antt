-- ===== src/Differ/Upload/Tracks.antt =====
-- What is relied on of the content store's open uploads, and of compressed streams.
use nexus_erofs.Prelude.{
  ◌≡◌, refl, arith, eq_refl, Bool, true, false, ◌||◌, List, [], ◌∷◌, Option, Bytes, ◌==◌, bytes_eq,
  if◌then◌else◌,
}
use nexus_erofs.Errors.{Error, ok, err}
use nexus_erofs.Storage.{Labels}
use nexus_erofs.Differ.{Services, Stream, ContentInfo, Compression}

unfoldable pub holds : Bytes → List Bytes → Bool
holds r [] = false
holds r (s ∷ ss) = s == r || holds r ss

unfoldable pub without : Bytes → List Bytes → List Bytes
without r [] = []
without r (s ∷ ss) = let rest = without r ss in if s == r then rest else s ∷ rest

pub without-absent : (r : Bytes) (ss : List Bytes) → holds r ss ≡ false → without r ss ≡ ss
unfolding without holds
without-absent r [] h = refl
without-absent r (s ∷ ss) h = ground (arith, without-absent r ss)

pub without-head : (r : Bytes) (ss : List Bytes) → holds r ss ≡ false → without r (r ∷ ss) ≡ ss
unfolding without
without-head r ss h = ground (arith, eq_refl r, without-absent r ss h)

-- A stream does nothing to what is observed.
pub record QuietStream {Meta X : Type 0} (look : Meta → X) (s : Stream Meta) : Type 0 where
  pub started : (ref media_type : Bytes) (m : Meta) → look (s.start ref media_type m).1 ≡ look m
  pub written : (ref piece : Bytes) (m : Meta) → look (s.write ref piece m).1 ≡ look m
  pub closed : (ref : Bytes) (m : Meta) → look (s.close ref m).1 ≡ look m

-- The references of the open uploads: a writer opens one under a reference that is of none, a commit
-- ends it, also one that finds its content in the store already, and so does an abort that succeeds.
pub record TracksIngests {Meta : Type 0} (S : Services Meta) (ingests : Meta → List Bytes)
    : Type 0 where
  pub opened :
      (ref media_type : Bytes) (m : Meta)
      → holds ref (ingests m) ≡ false
      → (S.store.writer ref media_type m).0 ≡ ok tt
      → ingests (S.store.writer ref media_type m).1 ≡ ref ∷ ingests m
  pub unopened :
      (ref media_type : Bytes) (m : Meta) (e : Error)
      → (S.store.writer ref media_type m).0 ≡ err e
      → ingests (S.store.writer ref media_type m).1 ≡ ingests m
  pub written : (ref piece : Bytes) (m : Meta) → ingests (S.store.write ref piece m).1 ≡ ingests m
  pub closed : (ref : Bytes) (m : Meta) → ingests (S.store.close ref m).1 ≡ ingests m
  pub aborted :
      (ref : Bytes) (m : Meta)
      → (S.store.abort ref m).0 ≡ ok tt
      → ingests (S.store.abort ref m).1 ≡ without ref (ingests m)
  pub unaborted :
      (ref : Bytes) (m : Meta) (e : Error)
      → (S.store.abort ref m).0 ≡ err e
      → ingests (S.store.abort ref m).1 ≡ ingests m
  pub ended :
      (ref digest : Bytes) (labels : Option Labels) (m : Meta)
      → (S.store.commit ref digest labels m).0 ≡ ok tt
      → ingests (S.store.commit ref digest labels m).1 ≡ without ref (ingests m)
  pub existing :
      (ref digest : Bytes) (labels : Option Labels) (m : Meta) (e : Error)
      → (S.store.commit ref digest labels m).0 ≡ err e
      → S.is_already_exists e ≡ true
      → ingests (S.store.commit ref digest labels m).1 ≡ without ref (ingests m)
  pub refused :
      (ref digest : Bytes) (labels : Option Labels) (m : Meta) (e : Error)
      → (S.store.commit ref digest labels m).0 ≡ err e
      → S.is_already_exists e ≡ false
      → ingests (S.store.commit ref digest labels m).1 ≡ ingests m
  pub updated :
      (info : ContentInfo) (path : Bytes) (m : Meta)
      → ingests (S.store.update info path m).1 ≡ ingests m
  pub fresh : (m : Meta) → holds (S.unique_text m).0 (ingests m) ≡ false
  pub compressed : (kind : Compression) → QuietStream ingests (S.compress kind)
