-- ===== src/Os/Taken.antt =====
-- A file that is created exclusively, where a file stands already.
use nexus_erofs.Prelude.{◌≡◌, refl, ap, ◌∙◌, Bytes, List, [], ◌∷◌, Option, none, some}
use nexus_erofs.Errors.{Error, err, Errno, os_error, eexist}
use nexus_erofs.Os.Monad.{refusable}
use nexus_erofs.Os.{World, Exec, create_exclusive, create_in, system_call}
use nexus_erofs.Os.Tree.{Node, file, lookup}

module _ {Meta A : Type 0} where
  -- A call that fails without an effect on any state with these files.
  refusable-fails :
      (faults : List (Option Errno)) (op : Exec Meta A) (w : World Meta) (e : Error)
      → ((v : World Meta) → v.files ≡ w.files → op v ≡ (err e, v))
      → ((d : Error) × ((refusable faults op w).0 ≡ err d))
        × ((refusable faults op w).1.files ≡ w.files)
  unfolding system_call
  refusable-fails [] op w e h = ((e, ap (λ r. r.0) (h w refl)), ap (λ r. r.1.files) (h w refl))
  refusable-fails (none ∷ rest) op w e h =
      let v = record w { faults = rest } in
      ((e, ap (λ r. r.0) (h v refl)), ap (λ r. r.1.files) (h v refl))
  refusable-fails (some d ∷ rest) op w e h = ((os_error d, refl), refl)

module _ {Meta : Type 0} where
  create_in-taken :
      (p : Bytes) (m n : Node) (o : Option Node) (v : World Meta)
      → o ≡ some n
      → create_in p m o v ≡ (err (os_error eexist), v)
  unfolding create_exclusive
  create_in-taken p m n none v h = absurd cc
  create_in-taken p m n (some k) v h = refl

  -- A file that stands there is not created again: the call fails, and the files stay.
  pub create_exclusive-taken :
      (p : Bytes) (n : Node) (w : World Meta)
      → lookup p w.files ≡ some n
      → ((e : Error) × ((create_exclusive p w).0 ≡ err e))
        × ((create_exclusive p w).1.files ≡ w.files)
  unfolding create_exclusive system_call
  create_exclusive-taken p n w h =
      refusable-fails w.faults _ w (os_error eexist)
        (λ v same. create_in-taken p (file []) n (lookup p v.files) v (ap (lookup p) same ∙ h))
