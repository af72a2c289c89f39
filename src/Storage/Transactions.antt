-- ===== src/Storage/Transactions.antt =====
-- Actions that change the metadata all at once, or not at all when they fail.
use nexus_erofs.Prelude.{◌≡◌, ◌≢◌, refl, ap, ◌∙◌, true, false, inl, inr}
use nexus_erofs.Errors.{Error, Result, ok, err}
use nexus_erofs.Os.{Exec, World, continue, pure, attempt, ◌>>=◌}
use nexus_erofs.Os.Keeps.{Keeps, the_meta}
use nexus_erofs.Storage.{External, IsTransactional, with_transaction, end_transaction, begun}

-- After a failure the metadata is what it was before.
pub record FailsClean {Meta A : Type 0} (m : Exec Meta A) : Type 0 where
  pub at : (w : World Meta) (e : Error) → (m w).0 ≡ err e → (m w).1.meta ≡ w.meta

-- The action never fails.
pub record NeverFails {Meta A : Type 0} (m : Exec Meta A) : Type 0 where
  pub at : (w : World Meta) (e : Error) → (m w).0 ≢ err e

module _ {Meta A B : Type 0} where
  continue-FailsClean :
      (r : Result A) (f : A → Exec Meta B) (w : World Meta) (e : Error)
      → ((a : A) → FailsClean (f a))
      → (continue r f w).0 ≡ err e
      → (continue r f w).1.meta ≡ w.meta
  continue-FailsClean (ok a) f w e kf h = (kf a).at w e h
  continue-FailsClean (err d) f w e kf h = refl

  pub FailsClean-bind :
      (m : Exec Meta A) (f : A → Exec Meta B)
      → Keeps the_meta m
      → ((a : A) → FailsClean (f a))
      → FailsClean (m >>= f)
  unfolding ◌>>=◌
  FailsClean-bind m f km kf = record {
    at = λ w e h. continue-FailsClean (m w).0 f (m w).1 e kf h ∙ km.at w;
  }

  continue-last :
      (r : Result A) (f : A → Exec Meta B) (w v : World Meta) (e : Error)
      → ((d : Error) → r ≡ err d → w.meta ≡ v.meta)
      → ((a : A) → NeverFails (f a))
      → (continue r f w).0 ≡ err e
      → (continue r f w).1.meta ≡ v.meta
  continue-last (ok a) f w v e clean kf h = absurd ((kf a).at w e h)
  continue-last (err d) f w v e clean kf h = clean d refl

  -- A last change, with what cannot fail behind it.
  pub FailsClean-last :
      (m : Exec Meta A) (f : A → Exec Meta B)
      → FailsClean m
      → ((a : A) → NeverFails (f a))
      → FailsClean (m >>= f)
  unfolding ◌>>=◌
  FailsClean-last m f km kf = record {
    at = λ w e h. continue-last (m w).0 f (m w).1 w e (km.at w) kf h;
  }

  continue-NeverFails :
      (r : Result A) (f : A → Exec Meta B) (w : World Meta) (e : Error)
      → ((d : Error) → r ≢ err d)
      → ((a : A) → NeverFails (f a))
      → (continue r f w).0 ≢ err e
  continue-NeverFails (ok a) f w e km kf = (kf a).at w e
  continue-NeverFails (err d) f w e km kf = absurd (km d refl)

  pub NeverFails-bind :
      (m : Exec Meta A) (f : A → Exec Meta B)
      → NeverFails m
      → ((a : A) → NeverFails (f a))
      → NeverFails (m >>= f)
  unfolding ◌>>=◌
  NeverFails-bind m f km kf = record {
    at = λ w e. continue-NeverFails (m w).0 f (m w).1 e (km.at w) kf;
  }

module _ {Meta A : Type 0} where
  pub NeverFails-pure : (a : A) → NeverFails {Meta = Meta} (pure a)
  unfolding pure
  NeverFails-pure a = record { at = λ w e h. cc }

  pub NeverFails-attempt : (m : Exec Meta A) → NeverFails (attempt m)
  unfolding attempt
  NeverFails-attempt m = record { at = λ w e h. cc }

module _ (E : External) (T : IsTransactional E) where
  end_transaction-FailsClean :
      {A : Type 0} (before : E.Meta) (r : Result A) (w : World E.Meta) (e : Error)
      → (end_transaction E true before (r, w)).0 ≡ err e
      → (end_transaction E true before (r, w)).1.meta ≡ before
  unfolding with_transaction
  end_transaction-FailsClean before (ok a) w e h = elim (T.atomic before w.meta) [
    | inl done ↦ cc (rw done at h)
    | inr (d, failed) ↦ ap (λ p. p.1) failed
  ]
  end_transaction-FailsClean before (err d) w e h = T.rolled_back true before w.meta

  begun-FailsClean :
      {A : Type 0} (fn : Exec E.Meta A) (w : World E.Meta) (r : Result (Unit {0})) (e : Error)
      → (begun E true r fn w).0 ≡ err e
      → (begun E true r fn w).1.meta ≡ w.meta
  unfolding with_transaction
  begun-FailsClean fn w (ok _) e h = end_transaction-FailsClean w.meta (fn w).0 (fn w).1 e h
  begun-FailsClean fn w (err d) e h = refl

  -- A write transaction that fails has changed no metadata, whatever its function has done.
  pub with_transaction-FailsClean :
      {A : Type 0} (fn : Exec E.Meta A) → FailsClean (with_transaction E true fn)
  unfolding with_transaction
  with_transaction-FailsClean fn = record {
    at = λ w e h. begun-FailsClean fn w (E.begin true w.meta) e h;
  }

  end_read :
      {A : Type 0} (before : E.Meta) (r : Result A) (w : World E.Meta)
      → (end_transaction E false before (r, w)).1.meta ≡ before
  unfolding with_transaction
  end_read before (ok a) w = T.read_only before w.meta
  end_read before (err d) w = T.rolled_back false before w.meta

  begun-meta :
      {A : Type 0} (fn : Exec E.Meta A) (w : World E.Meta) (r : Result (Unit {0}))
      → (begun E false r fn w).1.meta ≡ w.meta
  unfolding with_transaction
  begun-meta fn w (ok _) = end_read w.meta (fn w).0 (fn w).1
  begun-meta fn w (err d) = refl

  pub with_transaction-meta :
      {A : Type 0} (fn : Exec E.Meta A) → Keeps the_meta (with_transaction E false fn)
  unfolding with_transaction
  with_transaction-meta fn = record { at = λ w. begun-meta fn w (E.begin false w.meta) }
