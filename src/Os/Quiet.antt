-- ===== src/Os/Quiet.antt =====
-- Actions that change nothing while no call is refused, and actions that succeed.
use nexus_erofs.Prelude.{◌≡◌, refl, ap, ◌∙◌, String, Bytes, List, [], Option}
use nexus_erofs.Errors.{Error, Result, ok, err, wrapped}
use nexus_erofs.Os.Monad.{refusable}
use nexus_erofs.Os.{
  Exec, World, continue, pure, raise, attempt, wrapping, system_call, ◌>>=◌, stat, read_dir,
}

pub record Quiet {Meta A : Type 0} (m : Exec Meta A) : Type 0 where
  pub at : (w : World Meta) → w.faults ≡ [] → (m w).1 ≡ w

-- The action returns a result, and the state stays.
pub record Succeeds {Meta A : Type 0} (m : Exec Meta A) (w : World Meta) : Type 0 where
  pub result : A
  pub runs : m w ≡ (ok result, w)

module _ {Meta A : Type 0} where
  pub Quiet-pure : (a : A) → Quiet {Meta = Meta} (pure a)
  unfolding pure
  Quiet-pure a = record { at = λ w h. refl }

  pub Quiet-raise : (e : Error) → Quiet {Meta = Meta} {A = A} (raise e)
  unfolding raise
  Quiet-raise e = record { at = λ w h. refl }

  pub Quiet-attempt : (m : Exec Meta A) → Quiet m → Quiet (attempt m)
  unfolding attempt
  Quiet-attempt m q = record { at = q.at }

  pub Quiet-wrapping : (text : String) (m : Exec Meta A) → Quiet m → Quiet (wrapping text m)
  unfolding wrapping
  Quiet-wrapping text m q = record { at = q.at }

  refusable-Quiet :
      (faults : List (Option _)) (op : Exec Meta A) (w : World Meta)
      → faults ≡ []
      → (op w).1 ≡ w
      → (refusable faults op w).1 ≡ w
  unfolding system_call
  refusable-Quiet faults op w h same = rw h same

  system_call-Quiet :
      (op : Exec Meta A) → ((w : World Meta) → (op w).1 ≡ w) → Quiet (system_call op)
  unfolding system_call
  system_call-Quiet op same = record { at = λ w h. refusable-Quiet w.faults op w h (same w) }

module _ {Meta A B : Type 0} where
  continue-Quiet :
      (r : Result A) (f : A → Exec Meta B) (v w : World Meta)
      → ((a : A) → Quiet (f a))
      → w.faults ≡ []
      → v ≡ w
      → (continue r f v).1 ≡ w
  continue-Quiet (ok a) f v w q h same = rw same ((q a).at w h)
  continue-Quiet (err e) f v w q h same = same

  pub Quiet-bind :
      (m : Exec Meta A) (f : A → Exec Meta B) → Quiet m → ((a : A) → Quiet (f a)) → Quiet (m >>= f)
  unfolding ◌>>=◌
  Quiet-bind m f q r = record { at = λ w h. continue-Quiet (m w).0 f (m w).1 w r h (q.at w h) }

  pub Succeeds-bind :
      (m : Exec Meta A) (f : A → Exec Meta B) (w : World Meta)
      → Succeeds m w
      → ((a : A) → Succeeds (f a) w)
      → Succeeds (m >>= f) w
  unfolding ◌>>=◌
  Succeeds-bind m f w done rest = record {
    result = (rest done.result).result;
    runs = ap (λ p. continue p.0 f p.1) done.runs ∙ (rest done.result).runs;
  }

module _ {Meta A : Type 0} where
  pub Succeeds-pure : (a : A) (w : World Meta) → Succeeds (pure a) w
  unfolding pure
  Succeeds-pure a w = record { result = a; runs = refl }

  pub Succeeds-attempt :
      (m : Exec Meta A) (w : World Meta) → Quiet m → w.faults ≡ [] → Succeeds (attempt m) w
  unfolding attempt
  Succeeds-attempt m w q h = record {
    result = (m w).0;
    runs = ap (λ (v : World Meta). (ok (m w).0, v)) (q.at w h);
  }

  pub Succeeds-wrapping :
      (text : String) (m : Exec Meta A) (w : World Meta) (a : A)
      → Quiet m
      → w.faults ≡ []
      → (m w).0 ≡ ok a
      → Succeeds (wrapping text m) w
  unfolding wrapping
  Succeeds-wrapping text m w a q h done = record {
    result = a;
    runs = ap (λ r. (wrapped text r, (m w).1)) done ∙ ap (λ (v : World Meta). (ok a, v)) (q.at w h);
  }

module _ {Meta : Type 0} where
  pub stat-Quiet : (p : Bytes) → Quiet {Meta = Meta} (stat p)
  unfolding stat
  stat-Quiet p = system_call-Quiet _ (λ w. refl)

  pub read_dir-Quiet : (p : Bytes) → Quiet {Meta = Meta} (read_dir p)
  unfolding read_dir
  read_dir-Quiet p = system_call-Quiet _ (λ w. refl)

pub ruleset quiet_rules =
    (Quiet-pure, Quiet-raise, Quiet-attempt, Quiet-wrapping, Quiet-bind, stat-Quiet, read_dir-Quiet)
