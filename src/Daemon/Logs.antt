-- ===== src/Daemon/Logs.antt =====
-- How the record of the daemon, cmd/spin-erofs-snapshotter/main.go, grows under an action that
-- succeeds: a rule for each way in which `run` builds one.
use nexus_erofs.Prelude.{◌≡◌, refl, sym, List, ◌∷◌, String}
use mathlib.Core.Path.{subst}
use nexus_erofs.Errors.{Result, ok, err}
use nexus_erofs.Os.{World, Exec, continue, pure, attempt, deferred, wrapping, ◌>>=◌}
use nexus_erofs.Os.Ensures.{Ensures}
use nexus_erofs.Os.Keeps.{Keeps, Keeps-wrapping, Keeps-of_meta}
use nexus_erofs.Daemon.{
  Resource, Event, opened, closed, Traced, the_trace, inside, note, closing, opening, holding,
  untraced,
}

-- An action that succeeds relates the records before and behind it.
pub record Logs {Meta A : Type 0} (P : List Event → List Event → Type 0) (m : Exec (Traced Meta) A)
    : Type 0 where
  pub at : (w : World (Traced Meta)) (a : A) → (m w).0 ≡ ok a → P w.meta.trace (m w).1.meta.trace

abbrev pub Silent : {Meta A : Type 0} → Exec (Traced Meta) A → Type 0
Silent m = Keeps the_trace m

module _ {Meta A B : Type 0} {P : List Event → List Event → Type 0} where
  continue-Logs :
      (r : Result A) (f : A → Exec (Traced Meta) B) (v : World (Traced Meta)) (b : B)
      → ((a : A) → Logs P (f a))
      → (continue r f v).0 ≡ ok b
      → P v.meta.trace (continue r f v).1.meta.trace
  continue-Logs (ok a) f v b kf h = (kf a).at v b h
  continue-Logs (err e) f v b kf h = absurd cc

  pub Logs-bind :
      (m : Exec (Traced Meta) A) (f : A → Exec (Traced Meta) B)
      → Silent m
      → ((a : A) → Logs P (f a))
      → Logs P (m >>= f)
  unfolding ◌>>=◌
  Logs-bind m f silent kf = record {
    at = λ w b h.
        subst (λ t. P t (continue (m w).0 f (m w).1).1.meta.trace) (silent.at w)
          (continue-Logs (m w).0 f (m w).1 b kf h);
  }

module _ {Meta : Type 0} where
  pub Logs-Silent : {A : Type 0} (m : Exec (Traced Meta) A) → Silent m → Logs (λ t u. u ≡ t) m
  Logs-Silent m silent = record { at = λ w a h. silent.at w }

  pub Logs-note :
      {A : Type 0} {P : List Event → List Event → Type 0} (e : Event) (m : Exec (Traced Meta) A)
      → Logs P m
      → Logs (λ t u. P (e ∷ t) u) (note e >>= λ _. m)
  unfolding note ◌>>=◌
  Logs-note e m logs = record { at = λ w a h. logs.at _ a h }

  pub inside-Silent : {A : Type 0} (m : Exec Meta A) → Silent (inside m)
  unfolding inside
  inside-Silent m = record { at = λ w. refl }

  pub inside-Ensures :
      {A : Type 0} {Q : A → Type 0} (m : Exec Meta A) → Ensures Q m → Ensures Q (inside m)
  unfolding inside
  inside-Ensures m e = record { at = λ w. e.at (untraced w) }

  pub opening-Silent :
      {A : Type 0} (text : String) (m : Exec Meta A) → Silent (wrapping text (inside m))
  opening-Silent text m = Keeps-wrapping text (inside m) (inside-Silent m)

  pub meta-Silent : {A : Type 0} (m : Exec (Traced Meta) A) → Keeps (λ w. w.meta) m → Silent m
  meta-Silent m km = Keeps-of_meta (λ t. t.trace) m km

  -- what runs behind a call that is recorded where it succeeds
  pub noted_behind :
      {A B : Type 0} (e : A → Event) (o : Result A) (rest : A → Exec (Traced Meta) B)
      (v : World (Traced Meta))
      → let p = continue o (λ a. note (e a) >>= λ _. pure a) v in
        continue p.0 rest p.1 ≡ continue o (λ a. note (e a) >>= λ _. rest a) v
  unfolding note pure ◌>>=◌
  noted_behind e (ok a) rest v = refl
  noted_behind e (err d) rest v = refl

  module _ {A B : Type 0} {P : A → List Event → List Event → Type 0}
      (R : List Event → List Event → Type 0) (e : A → Event) (rest : A → Exec (Traced Meta) B)
      (step : (a : A) (t u : List Event) → P a (e a ∷ t) u → R t u) where
    continue_noted :
        (o : Result A) (v : World (Traced Meta)) (b : B)
        → ((a : A) → Logs (P a) (rest a))
        → (continue o (λ a. note (e a) >>= λ _. rest a) v).0 ≡ ok b
        → R v.meta.trace (continue o (λ a. note (e a) >>= λ _. rest a) v).1.meta.trace
    unfolding note ◌>>=◌
    continue_noted (err d) v b logs h = absurd cc
    continue_noted (ok a) v b logs h = step a _ _ ((logs a).at _ b h)

    pub Logs-noted :
        (m : Exec (Traced Meta) A)
        → Silent m
        → ((a : A) → Logs (P a) (rest a))
        → Logs R ((m >>= λ a. note (e a) >>= λ _. pure a) >>= rest)
    unfolding ◌>>=◌
    Logs-noted m silent logs = record {
      at = λ w b.
          subst (λ (p : Result B × World (Traced Meta)). p.0 ≡ ok b → R w.meta.trace p.1.meta.trace)
            (sym (noted_behind e (m w).0 rest (m w).1))
            (λ h.
              subst
                (λ t. R t (continue (m w).0 (λ a. note (e a) >>= λ _. rest a) (m w).1).1.meta.trace)
                (silent.at w) (continue_noted (m w).0 (m w).1 b logs h));
    }

  module _ {A B C : Type 0} {Q : A → Type 0} {P : A → List Event → List Event → Type 0}
      (R : List Event → List Event → Type 0) (r : Resource) (release : A → Exec Meta C)
      (rest : A → Exec (Traced Meta) B)
      (step : (a : A) (t u : List Event) → Q a → P a (opened r ∷ t) u → R t (closed r ∷ u)) where
    continue_holding :
        (outcome : Result A) (v : World (Traced Meta)) (b : B)
        → ((a : A) → outcome ≡ ok a → Q a)
        → ((a : A) → Logs (P a) (rest a))
        → (continue outcome
            (λ a. note (opened r) >>= λ _. deferred (closing r (inside (release a))) (rest a))
            v).0
          ≡ ok b
        → R v.meta.trace
            (continue outcome
              (λ a. note (opened r) >>= λ _. deferred (closing r (inside (release a))) (rest a))
              v).1.meta.trace
    unfolding note closing deferred ◌>>=◌ attempt inside
    continue_holding (err e) v b q logs h = absurd cc
    continue_holding (ok a) v b q logs h = step a _ _ (q a refl) ((logs a).at _ b h)

    pub holding-Logs :
        (acquire : Exec (Traced Meta) A)
        → Silent acquire
        → Ensures Q acquire
        → ((a : A) → Logs (P a) (rest a))
        → Logs R (holding r (opening r acquire) (λ a. inside (release a)) rest)
    unfolding holding opening ◌>>=◌
    holding-Logs acquire silent ensures logs = record {
      at = λ w b.
          subst (λ (p : Result B × World (Traced Meta)). p.0 ≡ ok b → R w.meta.trace p.1.meta.trace)
            (sym (
              noted_behind (λ _. opened r) (acquire w).0
                (λ a. deferred (closing r (inside (release a))) (rest a)) (acquire w).1))
            (λ h.
              subst
                (λ t.
                  R t
                    (continue (acquire w).0
                      (λ a.
                        note (opened r) >>= λ _. deferred (closing r (inside (release a))) (rest a))
                      (acquire w).1).1.meta.trace)
                (silent.at w)
                (continue_holding (acquire w).0 (acquire w).1 b (ensures.at w) logs h));
    }
