-- ===== src/Os/Free.antt =====
-- Actions that leave an empty schedule of faults empty, and what holds behind an action then.
use nexus_erofs.Prelude.{
  ℕ, ◌≡◌, String, Bytes, List, [], Option, Bool, true, false, if◌then◌else◌, arith,
}
use nexus_erofs.Errors.{Error, Result, ok, err}
use nexus_erofs.Os.Monad.{refusable}
use nexus_erofs.Os.{
  Exec, World, continue, pure, raise, lift, attempt, wrapping, system_call, ◌>>=◌, stat, read_file,
  write_file, truncate_file, create_exclusive, remove, rename, read_dir, mkdir, mkdir_all,
  remove_all,
}

pub record Free {Meta A : Type 0} (m : Exec Meta A) : Type 0 where
  pub at : (w : World Meta) → w.faults ≡ [] → (m w).1.faults ≡ []

module _ {Meta A : Type 0} where
  pub Free-pure : (a : A) → Free {Meta = Meta} (pure a)
  unfolding pure
  Free-pure a = record { at = λ w h. h }

  pub Free-raise : (e : Error) → Free {Meta = Meta} {A = A} (raise e)
  unfolding raise
  Free-raise e = record { at = λ w h. h }

  pub Free-attempt : (m : Exec Meta A) → Free m → Free (attempt m)
  unfolding attempt
  Free-attempt m q = record { at = q.at }

  pub Free-wrapping : (text : String) (m : Exec Meta A) → Free m → Free (wrapping text m)
  unfolding wrapping
  Free-wrapping text m q = record { at = q.at }

  pub Free-if : (b : Bool) (m n : Exec Meta A) → Free m → Free n → Free (if b then m else n)
  Free-if true m n fm fn = fm
  Free-if false m n fm fn = fn

  pub Free-lift : (r : Result A) → Free {Meta = Meta} (lift r)
  unfolding lift
  Free-lift r = record { at = λ w h. h }

  refusable-Free :
      (faults : List (Option _)) (op : Exec Meta A) (w : World Meta)
      → faults ≡ []
      → (op w).1.faults ≡ []
      → (refusable faults op w).1.faults ≡ []
  unfolding system_call
  refusable-Free faults op w h same = rw h same

  pub system_call-Free : (op : Exec Meta A) → Free op → Free (system_call op)
  unfolding system_call
  system_call-Free op q = record { at = λ w h. refusable-Free w.faults op w h (q.at w h) }

module _ {Meta A B : Type 0} where
  continue-Free :
      (r : Result A) (f : A → Exec Meta B) (v : World Meta)
      → ((a : A) → Free (f a))
      → v.faults ≡ []
      → (continue r f v).1.faults ≡ []
  continue-Free (ok a) f v q h = (q a).at v h
  continue-Free (err e) f v q h = h

  pub Free-bind :
      (m : Exec Meta A) (f : A → Exec Meta B) → Free m → ((a : A) → Free (f a)) → Free (m >>= f)
  unfolding ◌>>=◌
  Free-bind m f q r = record { at = λ w h. continue-Free (m w).0 f (m w).1 r (q.at w h) }

module _ {Meta : Type 0} where
  pub stat-Free : (p : Bytes) → Free {Meta = Meta} (stat p)
  unfolding stat system_call
  stat-Free p = record { at = λ w h. ground arith }

  pub read_file-Free : (p : Bytes) → Free {Meta = Meta} (read_file p)
  unfolding read_file system_call
  read_file-Free p = record { at = λ w h. ground arith }

  pub write_file-Free : (p content : Bytes) → Free {Meta = Meta} (write_file p content)
  unfolding write_file system_call
  write_file-Free p content = record { at = λ w h. ground arith }

  pub truncate_file-Free : (p : Bytes) (n : ℕ) → Free {Meta = Meta} (truncate_file p n)
  unfolding truncate_file system_call
  truncate_file-Free p n = record { at = λ w h. ground arith }

  pub create_exclusive-Free : (p : Bytes) → Free {Meta = Meta} (create_exclusive p)
  unfolding create_exclusive system_call
  create_exclusive-Free p = record { at = λ w h. ground arith }

  pub remove-Free : (p : Bytes) → Free {Meta = Meta} (remove p)
  unfolding remove system_call
  remove-Free p = record { at = λ w h. ground arith }

  pub rename-Free : (from to : Bytes) → Free {Meta = Meta} (rename from to)
  unfolding rename system_call
  rename-Free from to = record { at = λ w h. ground arith }

  pub read_dir-Free : (p : Bytes) → Free {Meta = Meta} (read_dir p)
  unfolding read_dir system_call
  read_dir-Free p = record { at = λ w h. ground arith }

  pub mkdir-Free : (p : Bytes) → Free {Meta = Meta} (mkdir p)
  unfolding mkdir system_call
  mkdir-Free p = record { at = λ w h. ground arith }

  pub mkdir_all-Free : (p : Bytes) → Free {Meta = Meta} (mkdir_all p)
  unfolding mkdir_all system_call
  mkdir_all-Free p = record { at = λ w h. ground arith }

  pub remove_all-Free : (p : Bytes) → Free {Meta = Meta} (remove_all p)
  unfolding remove_all system_call
  remove_all-Free p = record { at = λ w h. ground arith }

pub ruleset free_rules = (
  Free-pure, Free-raise, Free-attempt, Free-wrapping, Free-if, Free-lift, Free-bind, stat-Free,
  read_file-Free, write_file-Free, truncate_file-Free, create_exclusive-Free, remove-Free,
  rename-Free, read_dir-Free, mkdir-Free, mkdir_all-Free, remove_all-Free,
)
