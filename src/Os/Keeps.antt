-- ===== src/Os/Keeps.antt =====
-- What an action leaves as it was, whether it succeeds or fails: a part of the state, `look`.
use nexus_erofs.Prelude.{
  ℕ, [], ◌∷◌, ◌≡◌, refl, ap, ◌∙◌, Bool, true, false, if◌then◌else◌, String, Bytes, List, Option,
  none, some, arith,
}
use nexus_erofs.Errors.{Error, Result, ok, err, Errno}
use nexus_erofs.Os.Monad.{refusable}
use nexus_erofs.Os.{
  Exec, World, continue, pure, raise, lift, attempt, deferred, wrapping, system_call, ◌>>=◌, stat,
  read_file, write_file, truncate_file, create_exclusive, mkdir, mkdir_all, remove, remove_all,
  rename, read_dir,
}

pub record Keeps {Meta X A : Type 0} (look : World Meta → X) (m : Exec Meta A) : Type 0 where
  pub at : (w : World Meta) → look (m w).1 ≡ look w

module _ {Meta X A : Type 0} {look : World Meta → X} where
  pub Keeps-pure : (a : A) → Keeps look (pure a)
  unfolding pure
  Keeps-pure a = record { at = λ w. refl }

  pub Keeps-raise : (e : Error) → Keeps look (raise {A = A} e)
  unfolding raise
  Keeps-raise e = record { at = λ w. refl }

  pub Keeps-lift : (r : Result A) → Keeps look (lift r)
  unfolding lift
  Keeps-lift r = record { at = λ w. refl }

  pub Keeps-if :
      (b : Bool) (m n : Exec Meta A) → Keeps look m → Keeps look n → Keeps look (if b then m else n)
  Keeps-if true m n km kn = km
  Keeps-if false m n km kn = kn

  pub Keeps-at : (m : Exec Meta A) → ((w : World Meta) → look (m w).1 ≡ look w) → Keeps look m
  Keeps-at m h = record { at = h }

  pub Keeps-attempt : (m : Exec Meta A) → Keeps look m → Keeps look (attempt m)
  unfolding attempt
  Keeps-attempt m km = record { at = km.at }

  pub Keeps-wrapping :
      (text : String) (m : Exec Meta A) → Keeps look m → Keeps look (wrapping text m)
  unfolding wrapping
  Keeps-wrapping text m km = record { at = km.at }

module _ {Meta X A B : Type 0} {look : World Meta → X} where
  continue-Keeps :
      (r : Result A) (f : A → Exec Meta B) (w : World Meta)
      → ((a : A) → Keeps look (f a))
      → look (continue r f w).1 ≡ look w
  continue-Keeps (ok a) f w kf = (kf a).at w
  continue-Keeps (err e) f w kf = refl

  pub Keeps-bind :
      (m : Exec Meta A) (f : A → Exec Meta B)
      → Keeps look m
      → ((a : A) → Keeps look (f a))
      → Keeps look (m >>= f)
  unfolding ◌>>=◌
  Keeps-bind m f km kf = record { at = λ w. continue-Keeps (m w).0 f (m w).1 kf ∙ km.at w }

module _ {Meta X A B : Type 0} {look : World Meta → X} where
  pub Keeps-deferred :
      (last : Exec Meta B) (m : Exec Meta A)
      → Keeps look last
      → Keeps look m
      → Keeps look (deferred last m)
  unfolding deferred
  Keeps-deferred last m kl km = record { at = λ w. kl.at (m w).1 ∙ km.at w }

module _ {Meta X A : Type 0} where
  -- An action that keeps the metadata keeps whatever is read off them.
  pub Keeps-of_meta :
      (look : Meta → X) (m : Exec Meta A) → Keeps (λ w. w.meta) m → Keeps (λ w. look w.meta) m
  Keeps-of_meta look m km = record { at = λ w. ap look (km.at w) }

module _ {Meta A : Type 0} where
  refusable-meta :
      (faults : List (Option Errno)) (op : Exec Meta A) (w : World Meta)
      → ((v : World Meta) → (op v).1.meta ≡ v.meta)
      → (refusable faults op w).1.meta ≡ w.meta
  unfolding system_call
  refusable-meta [] op w h = h w
  refusable-meta (none ∷ rest) op w h = h _
  refusable-meta (some e ∷ rest) op w h = refl

  -- A refused call changes no metadata.
  pub system_call-meta :
      (op : Exec Meta A) → Keeps (λ w. w.meta) op → Keeps (λ w. w.meta) (system_call op)
  unfolding system_call
  system_call-meta op kept = record { at = λ w. refusable-meta w.faults op w kept.at }

module _ {Meta : Type 0} where
  -- the metadata, which no call of the operating system touches
  abbrev pub the_meta : World Meta → Meta
  the_meta w = w.meta

  pub stat-meta : (p : Bytes) → Keeps the_meta (stat p)
  unfolding stat system_call
  stat-meta p = record { at = λ w. ground arith }

  pub read_file-meta : (p : Bytes) → Keeps the_meta (read_file p)
  unfolding read_file system_call
  read_file-meta p = record { at = λ w. ground arith }

  pub write_file-meta : (p content : Bytes) → Keeps the_meta (write_file p content)
  unfolding write_file system_call
  write_file-meta p content = record { at = λ w. ground arith }

  pub truncate_file-meta : (p : Bytes) (n : ℕ) → Keeps the_meta (truncate_file p n)
  unfolding truncate_file system_call
  truncate_file-meta p n = record { at = λ w. ground arith }

  pub create_exclusive-meta : (p : Bytes) → Keeps the_meta (create_exclusive p)
  unfolding create_exclusive system_call
  create_exclusive-meta p = record { at = λ w. ground arith }

  pub mkdir_all-meta : (p : Bytes) → Keeps the_meta (mkdir_all p)
  unfolding mkdir_all system_call
  mkdir_all-meta p = record { at = λ w. ground arith }

  pub mkdir-meta : (p : Bytes) → Keeps the_meta (mkdir p)
  unfolding mkdir system_call
  mkdir-meta p = record { at = λ w. ground arith }

  pub remove-meta : (p : Bytes) → Keeps the_meta (remove p)
  unfolding remove system_call
  remove-meta p = record { at = λ w. ground arith }

  pub remove_all-meta : (p : Bytes) → Keeps the_meta (remove_all p)
  unfolding remove_all system_call
  remove_all-meta p = record { at = λ w. ground arith }

  pub rename-meta : (from to : Bytes) → Keeps the_meta (rename from to)
  unfolding rename system_call
  rename-meta from to = record { at = λ w. ground arith }

  pub read_dir-meta : (p : Bytes) → Keeps the_meta (read_dir p)
  unfolding read_dir system_call
  read_dir-meta p = record { at = λ w. ground arith }

pub ruleset keeps_rules = (
  Keeps-pure, Keeps-raise, Keeps-lift, Keeps-if, Keeps-attempt, Keeps-wrapping, Keeps-bind,
  Keeps-deferred,
)

pub ruleset meta_rules = (
  keeps_rules, stat-meta, read_file-meta, write_file-meta, truncate_file-meta,
  create_exclusive-meta, mkdir_all-meta, mkdir-meta, remove-meta, remove_all-meta, rename-meta,
  read_dir-meta,
)
