-- ===== src/Storage/Effects.antt =====
-- What transactions and steps of the metadata store do to the metadata when they succeed, and that
-- they leave the schedule of faults alone.
use nexus_erofs.Prelude.{◌≡◌, refl, ap, ◌∙◌, Bool, true, false, inl, inr, []}
use nexus_erofs.Errors.{Result, ok, err}
use nexus_erofs.Os.{Exec, World}
use nexus_erofs.Os.Free.{Free}
use nexus_erofs.Storage.{
  External, IsTransactional, with_transaction, end_transaction, begun, end_result, written, change,
  query,
}
use nexus_erofs.Os.Post.{Post}

-- A write transaction that succeeds has made the change of its function.
module _ (E : External) (T : IsTransactional E) {A : Type 0}
    (P : A → E.Meta → E.Meta → Type 0) where
  end_transaction-ok :
      (before : E.Meta) (r : Result A) (w : World E.Meta) (a : A)
      → (r ≡ ok a → P a before w.meta)
      → (end_transaction E true before (r, w)).0 ≡ ok a
      → P a before (end_transaction E true before (r, w)).1.meta
  unfolding with_transaction
  end_transaction-ok before (ok b) w a fn h = elim (T.atomic before w.meta) [
    | inl done ↦ rw done (fn (rw done at h))
    | inr (d, failed) ↦ absurd (cc (rw failed at h))
  ]
  end_transaction-ok before (err d) w a fn h = absurd cc

  begun-ok :
      (fn : Exec E.Meta A) (w : World E.Meta) (r : Result (Unit {0})) (a : A)
      → ((fn w).0 ≡ ok a → P a w.meta (fn w).1.meta)
      → (begun E true r fn w).0 ≡ ok a
      → P a w.meta (begun E true r fn w).1.meta
  unfolding with_transaction
  begun-ok fn w (ok _) a h done = end_transaction-ok w.meta (fn w).0 (fn w).1 a h done
  begun-ok fn w (err d) a h done = absurd cc

  pub with_transaction-ok :
      (fn : Exec E.Meta A) (w : World E.Meta) (a : A)
      → ((fn w).0 ≡ ok a → P a w.meta (fn w).1.meta)
      → (with_transaction E true fn w).0 ≡ ok a
      → P a w.meta (with_transaction E true fn w).1.meta
  unfolding with_transaction
  with_transaction-ok fn w a h done = begun-ok fn w (E.begin true w.meta) a h done

module _ (E : External) {A : Type 0} where
  end_transaction-faults :
      (writable : Bool) (before : E.Meta) (r : Result A) (w : World E.Meta)
      → (end_transaction E writable before (r, w)).1.faults ≡ w.faults
  unfolding with_transaction
  end_transaction-faults writable before (ok b) w = refl
  end_transaction-faults writable before (err d) w = refl

  begun-faults :
      (writable : Bool) (fn : Exec E.Meta A) (w : World E.Meta) (r : Result (Unit {0}))
      → Free fn
      → w.faults ≡ []
      → (begun E writable r fn w).1.faults ≡ []
  unfolding with_transaction
  begun-faults writable fn w (ok _) free h =
      end_transaction-faults writable w.meta (fn w).0 (fn w).1 ∙ free.at w h
  begun-faults writable fn w (err d) free h = h

  pub with_transaction-Free :
      (writable : Bool) (fn : Exec E.Meta A) → Free fn → Free (with_transaction E writable fn)
  unfolding with_transaction
  with_transaction-Free writable fn free = record {
    at = λ w h. begun-faults writable fn w (E.begin writable w.meta) free h;
  }

  written-ok :
      (r : Result (A × E.Meta)) (w : World E.Meta) (a : A)
      → (written E r w).0 ≡ ok a
      → r ≡ ok (a, (written E r w).1.meta)
  unfolding change
  written-ok (ok (b, m)) w a h = cc
  written-ok (err e) w a h = absurd cc

  pub change-Post :
      (op : E.Meta → Result (A × E.Meta))
      → Post (λ before a after. op before ≡ ok (a, after)) (change E op)
  unfolding change
  change-Post op = record { at = λ w a h. written-ok (op w.meta) w a h }

  pub query-Post :
      (op : E.Meta → Result A)
      → Post (λ before a after. (op before ≡ ok a) × (after ≡ before)) (query E op)
  unfolding query
  query-Post op = record { at = λ w a h. (h, refl) }

  pub change-Free : (op : E.Meta → Result (A × E.Meta)) → Free (change E op)
  unfolding change
  change-Free op = record { at = λ w h. written-faults (op w.meta) w h }
    where
      written-faults :
          (r : Result (A × E.Meta)) (w : World E.Meta)
          → w.faults ≡ []
          → (written E r w).1.faults ≡ []
      written-faults (ok (b, m)) w h = h
      written-faults (err e) w h = h

  pub query-Free : (op : E.Meta → Result A) → Free (query E op)
  unfolding query
  query-Free op = record { at = λ w h. h }

  -- A read transaction whose function changes nothing.
  pub read_transaction :
      (fn : Exec E.Meta A) (w : World E.Meta) (a : A)
      → E.begin false w.meta ≡ ok tt
      → E.finish false true w.meta w.meta ≡ (ok tt, w.meta)
      → fn w ≡ (ok a, w)
      → with_transaction E false fn w ≡ (ok a, w)
  unfolding with_transaction
  read_transaction fn w a begins ends runs =
      ap (λ r. begun E false r fn w) begins
      ∙ ap (λ p. end_transaction E false w.meta p) runs
      ∙ ap (λ q. (end_result E a q.0, record w { meta = q.1 })) ends
