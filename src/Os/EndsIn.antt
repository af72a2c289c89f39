-- ===== src/Os/EndsIn.antt =====
-- Actions whose result is that of their last step.
use nexus_erofs.Prelude.{◌≡◌, ap, []}
use nexus_erofs.Errors.{Result, ok, err}
use nexus_erofs.Os.{World, Exec, continue, ◌>>=◌}
use nexus_erofs.Os.Free.{Free}

-- An action that succeeds has run `last` at its end, behind steps that do not refuse.
pub record EndsIn {Meta A : Type 0} (last m : Exec Meta A) : Type 0 where
  pub at :
      (w : World Meta) (a : A)
      → (m w).0 ≡ ok a
      → (from : World Meta) × (w.faults ≡ [] → from.faults ≡ []) × (last from ≡ (ok a, (m w).1))

pub EndsIn-self : {Meta A : Type 0} (m : Exec Meta A) → EndsIn m m
EndsIn-self m = record { at = λ w a h. (w, λ f. f, ap (λ r. (r, (m w).1)) h) }

module _ {Meta A B : Type 0} {last : Exec Meta B} where
  continue-EndsIn :
      (r : Result A) (f : A → Exec Meta B) (w v : World Meta) (b : B)
      → (w.faults ≡ [] → v.faults ≡ [])
      → ((a : A) → EndsIn last (f a))
      → (continue r f v).0 ≡ ok b
      → (from : World Meta) × (w.faults ≡ [] → from.faults ≡ [])
        × (last from ≡ (ok b, (continue r f v).1))
  continue-EndsIn (ok a) f w v b free ends h =
      let e = (ends a).at v b h in (e.0, λ none. e.1 (free none), e.2)
  continue-EndsIn (err e) f w v b free ends h = absurd cc

  pub EndsIn-bind :
      (m : Exec Meta A) (f : A → Exec Meta B)
      → Free m
      → ((a : A) → EndsIn last (f a))
      → EndsIn last (m >>= f)
  unfolding ◌>>=◌
  EndsIn-bind m f free ends = record {
    at = λ w b h. continue-EndsIn (m w).0 f w (m w).1 b (free.at w) ends h;
  }
