-- ===== src/Os/Calm.antt =====
-- Actions that leave the metadata, and leave an empty schedule of faults empty.
use nexus_erofs.Prelude.{ℕ, refl, Bool, true, false, if◌then◌else◌, String, Bytes}
use nexus_erofs.Errors.{Error, Result, ok}
use nexus_erofs.Os.{
  Exec, pure, raise, lift, attempt, wrapping, system_call, ◌>>=◌, stat, write_file, truncate_file,
  create_exclusive, mkdir, mkdir_all, remove, remove_all, rename,
}
use nexus_erofs.Os.Keeps.{
  Keeps, the_meta, Keeps-pure, Keeps-raise, Keeps-lift, Keeps-attempt, Keeps-wrapping, Keeps-bind,
  system_call-meta, stat-meta, write_file-meta, truncate_file-meta, create_exclusive-meta,
  mkdir-meta, mkdir_all-meta, remove-meta, remove_all-meta, rename-meta,
}
use nexus_erofs.Os.Free.{
  Free, Free-pure, Free-raise, Free-lift, Free-attempt, Free-wrapping, Free-bind, system_call-Free,
  stat-Free, write_file-Free, truncate_file-Free, create_exclusive-Free, mkdir-Free, mkdir_all-Free,
  remove-Free, remove_all-Free, rename-Free,
}

pub record Calm {Meta A : Type 0} (m : Exec Meta A) : Type 0 where
  pub kept : Keeps the_meta m
  pub free : Free m

module _ {Meta A : Type 0} where
  pub Calm-pure : (a : A) → Calm {Meta = Meta} (pure a)
  Calm-pure a = record { kept = Keeps-pure a; free = Free-pure a }

  pub Calm-raise : (e : Error) → Calm {Meta = Meta} {A = A} (raise e)
  Calm-raise e = record { kept = Keeps-raise e; free = Free-raise e }

  pub Calm-lift : (r : Result A) → Calm {Meta = Meta} (lift r)
  Calm-lift r = record { kept = Keeps-lift r; free = Free-lift r }

  pub Calm-if : (b : Bool) (m n : Exec Meta A) → Calm m → Calm n → Calm (if b then m else n)
  Calm-if true m n cm cn = cm
  Calm-if false m n cm cn = cn

  pub Calm-attempt : (m : Exec Meta A) → Calm m → Calm (attempt m)
  Calm-attempt m c = record { kept = Keeps-attempt m c.kept; free = Free-attempt m c.free }

  pub Calm-wrapping : (text : String) (m : Exec Meta A) → Calm m → Calm (wrapping text m)
  Calm-wrapping text m c = record {
    kept = Keeps-wrapping text m c.kept;
    free = Free-wrapping text m c.free;
  }

module _ {Meta A B : Type 0} where
  pub Calm-bind :
      (m : Exec Meta A) (f : A → Exec Meta B) → Calm m → ((a : A) → Calm (f a)) → Calm (m >>= f)
  Calm-bind m f c cf = record {
    kept = Keeps-bind m f c.kept (λ a. (cf a).kept);
    free = Free-bind m f c.free (λ a. (cf a).free);
  }

module _ {Meta : Type 0} where
  -- a call that only the schedule can refuse
  pub check-Calm : Calm {Meta = Meta} (system_call (λ w. (ok tt, w)))
  check-Calm = record {
    kept = system_call-meta _ (record { at = λ w. refl });
    free = system_call-Free _ (record { at = λ w h. h });
  }

  pub stat-Calm : (p : Bytes) → Calm {Meta = Meta} (stat p)
  stat-Calm p = record { kept = stat-meta p; free = stat-Free p }

  pub write_file-Calm : (p content : Bytes) → Calm {Meta = Meta} (write_file p content)
  write_file-Calm p content = record {
    kept = write_file-meta p content;
    free = write_file-Free p content;
  }

  pub truncate_file-Calm : (p : Bytes) (n : ℕ) → Calm {Meta = Meta} (truncate_file p n)
  truncate_file-Calm p n = record { kept = truncate_file-meta p n; free = truncate_file-Free p n }

  pub create_exclusive-Calm : (p : Bytes) → Calm {Meta = Meta} (create_exclusive p)
  create_exclusive-Calm p = record {
    kept = create_exclusive-meta p;
    free = create_exclusive-Free p;
  }

  pub mkdir-Calm : (p : Bytes) → Calm {Meta = Meta} (mkdir p)
  mkdir-Calm p = record { kept = mkdir-meta p; free = mkdir-Free p }

  pub mkdir_all-Calm : (p : Bytes) → Calm {Meta = Meta} (mkdir_all p)
  mkdir_all-Calm p = record { kept = mkdir_all-meta p; free = mkdir_all-Free p }

  pub remove-Calm : (p : Bytes) → Calm {Meta = Meta} (remove p)
  remove-Calm p = record { kept = remove-meta p; free = remove-Free p }

  pub remove_all-Calm : (p : Bytes) → Calm {Meta = Meta} (remove_all p)
  remove_all-Calm p = record { kept = remove_all-meta p; free = remove_all-Free p }

  pub rename-Calm : (from to : Bytes) → Calm {Meta = Meta} (rename from to)
  rename-Calm from to = record { kept = rename-meta from to; free = rename-Free from to }

pub ruleset calm_rules = (
  Calm-pure, Calm-raise, Calm-lift, Calm-if, Calm-attempt, Calm-wrapping, Calm-bind, check-Calm,
  stat-Calm, write_file-Calm, truncate_file-Calm, create_exclusive-Calm, mkdir-Calm, mkdir_all-Calm,
  remove-Calm, remove_all-Calm, rename-Calm,
)
