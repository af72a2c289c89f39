-- ===== src/Snapshotter/FsMeta/Lock.antt =====
-- The lock file of a generation.
use nexus_erofs.Prelude.{ap, ◌≡◌, refl, ◌∙◌, Bytes, List, ◌∷◌, some, arith}
use nexus_erofs.Errors.{Error, Result, ok, err}
use nexus_erofs.Os.{World, pure, attempt, stat, system_call, ◌>>=◌}
use nexus_erofs.Os.Tree.{Node, Files, lookup}
use nexus_erofs.Os.Taken.{create_exclusive-taken}
use nexus_erofs.Storage.{External}
use nexus_erofs.Snapshotter.Types.{Config}
use nexus_erofs.Snapshotter.Paths.{fsmeta_path}
use nexus_erofs.Snapshotter.FsMeta.{generate_fsmeta, unless_generated, locked, lock_path}

module _ {Meta : Type 0} where
  abbrev the_files : World Meta → Files
  the_files w = w.files

  stat-files : (p : Bytes) (w : World Meta) → (stat p w).1.files ≡ w.files
  unfolding stat system_call
  stat-files p w = ground arith

module _ (E : External) (s : Config) where
  locked-files :
      (newest : Bytes) (ids : List Bytes) (r : Result (Unit {0})) (e : Error) (w : World E.Meta)
      → r ≡ err e
      → (locked E s newest ids r w).1.files ≡ w.files
  unfolding locked ◌>>=◌ attempt pure
  locked-files newest ids (ok u) e w h = absurd cc
  locked-files newest ids (err d) e w h = stat-files (fsmeta_path s newest) w

  unless_generated-files :
      (newest : Bytes) (ids : List Bytes) (found : Result Node) (n : Node) (w : World E.Meta)
      → lookup (lock_path s newest) w.files ≡ some n
      → (unless_generated E s newest ids found w).1.files ≡ w.files
  unfolding generate_fsmeta ◌>>=◌ attempt pure
  unless_generated-files newest ids (ok m) n w h = refl
  unless_generated-files newest ids (err e) n w h =
      let taken = create_exclusive-taken (lock_path s newest) n w h in
      locked-files newest ids _ taken.0.0 _ taken.0.1 ∙ taken.1

  -- While the lock file of a chain stands there, generateFsMeta changes no file, whichever calls
  -- are refused: a second generation does not touch the files of the one that holds the lock, nor
  -- its lock.
  pub generate_fsmeta-locked :
      (newest : Bytes) (others : List Bytes) (n : Node) (w : World E.Meta)
      → lookup (lock_path s newest) w.files ≡ some n
      → (generate_fsmeta E s (newest ∷ others) w).1.files ≡ w.files
  unfolding generate_fsmeta ◌>>=◌ attempt
  generate_fsmeta-locked newest others n w h =
      let same = stat-files (fsmeta_path s newest) w in
      unless_generated-files newest (newest ∷ others) _ n _
        (ap (lookup (lock_path s newest)) same ∙ h)
      ∙ same
