-- ===== src/Snapshotter/Create/Made.antt =====
-- What createSnapshot of internal/snapshotter/operations.go does to the metadata, and where its mounts
-- come from.
use nexus_erofs.Prelude.{◌≡◌, ◌≢◌, inl, inr, refl, ap, sym, ◌∙◌, true, List, [], Bytes}
use mathlib.Core.Path.{subst}
use nexus_erofs.Errors.{Error, Result, ok, err}
use nexus_erofs.Mount.{Mount}
use nexus_erofs.Os.{World, Exec, continue, pure, raise, attempt, ◌>>=◌}
use nexus_erofs.Os.Calm.{Calm, Calm-attempt}
use nexus_erofs.Os.Keeps.{Keeps, the_meta, Keeps-bind, Keeps-attempt, Keeps-pure}
use nexus_erofs.Storage.{External, IsTransactional, Labels, with_transaction}
use nexus_erofs.Storage.Transactions.{with_transaction-FailsClean}
use nexus_erofs.Snapshotter.Types.{Config, Kind, Snapshot, Info}
use nexus_erofs.Snapshotter.Paths.{snapshots_dir}
use nexus_erofs.Snapshotter.Mounts.{mounts}
use nexus_erofs.Snapshotter.Mounts.Untouched.{mounts-meta}
use nexus_erofs.Snapshotter.Create.{
  Locals, is_extract_key, with_extract_label, failed, settle, furnish, recorded, new_snapshot,
  locals_behind, prepared, checked, create_snapshot,
}
use nexus_erofs.Snapshotter.Create.Steps.{
  check_context-Calm, prepare_directory-Calm, failed-Calm, start_generation-Calm, writable_if-Calm,
}
use nexus_erofs.Snapshotter.Create.Recorded.{Recorded, transaction-Recorded, transaction-Free}
use nexus_erofs.Os.EndsIn.{EndsIn, EndsIn-self, EndsIn-bind}
use nexus_erofs.Snapshotter.Create.Outcome.{Outcome, Ended, Outcome-Ended}

module _ {Meta A : Type 0} where
  continue_never :
      (r : Result (Unit {0})) (e : Error) (v : World Meta) (a : A)
      → (continue r (λ _. raise e) v).0 ≢ ok a
  unfolding raise
  continue_never (ok _) e v a h = cc
  continue_never (err d) e v a h = cc

  failed-never : (l : Locals) (e : Error) (w : World Meta) (a : A) → (failed l e w).0 ≢ ok a
  unfolding failed ◌>>=◌
  failed-never l e w a h = continue_never _ e _ a h

module _ (E : External) (s : Config) where
  furnish-EndsIn :
      (kind : Kind) (key : Bytes) (found : Snapshot × Info)
      → EndsIn (mounts s found.0 found.1) (furnish E s kind key found)
  unfolding furnish
  furnish-EndsIn kind key found = EndsIn-bind _ _ (check_context-Calm _).free λ _.
      EndsIn-bind _ _ (start_generation-Calm E s _ _).free
        λ _. EndsIn-bind _ _ (writable_if-Calm E s kind key found.0.id).free λ _. EndsIn-self _

  furnish-meta :
      (kind : Kind) (key : Bytes) (found : Snapshot × Info)
      → Keeps the_meta (furnish E s kind key found)
  unfolding furnish
  furnish-meta kind key found = Keeps-bind _ _ (check_context-Calm _).kept λ _.
      Keeps-bind _ _ (start_generation-Calm E s _ _).kept λ _.
        Keeps-bind _ _ (writable_if-Calm E s kind key found.0.id).kept
          λ _. mounts-meta s found.0 found.1

  settle-meta :
      {A : Type 0} (l : Locals) (r : Result A) → Keeps {Meta = E.Meta} the_meta (settle l r)
  unfolding recorded
  settle-meta l (ok a) = Keeps-pure a
  settle-meta l (err e) = (failed-Calm l e).kept

  settle-ok :
      {A : Type 0} (l : Locals) (r : Result A) (v : World E.Meta) (a : A)
      → (settle l r v).0 ≡ ok a
      → (r ≡ ok a) × ((settle l r v).1 ≡ v)
  unfolding recorded pure
  settle-ok l (ok b) v a h = (h, refl)
  settle-ok l (err e) v a h = absurd (failed-never l e v a h)

  -- createSnapshot behind a transaction that has succeeded
  recorded-meta :
      (kind : Kind) (key : Bytes) (l : Locals) (found : Snapshot × Info)
      → Keeps the_meta (recorded E s kind key l (ok found))
  unfolding recorded
  recorded-meta kind key l found =
      Keeps-bind _ _ (Keeps-attempt _ (furnish-meta kind key found)) (settle-meta l)

  recorded-EndsIn :
      (kind : Kind) (key : Bytes) (l : Locals) (found : Snapshot × Info)
      → EndsIn (mounts s found.0 found.1) (recorded E s kind key l (ok found))
  unfolding recorded attempt ◌>>=◌
  recorded-EndsIn kind key l found = record {
    at = λ w ms h.
        let done =
          settle-ok l (furnish E s kind key found w).0 (furnish E s kind key found w).1 ms h in
        let e = (furnish-EndsIn kind key found).at w ms done.0 in
        (e.0, e.1, e.2 ∙ ap (λ v. (ok ms, v)) (sym done.1));
  }

  module _ (T : IsTransactional E) (kind : Kind) (key parent : Bytes) (opts : List Labels) where
    abbrev all_opts : List Labels
    all_opts = with_extract_label E s (is_extract_key E s key) opts

    behind_transaction :
        (w v : World E.Meta) (l : Locals) (r : Result (Snapshot × Info))
        → (w.faults ≡ [] → v.faults ≡ [])
        → ((found : Snapshot × Info)
            → r ≡ ok found
            → Recorded E kind key parent all_opts found w.meta v.meta)
        → ((e : Error) → r ≡ err e → v.meta ≡ w.meta)
        → Outcome E s kind key parent all_opts w (recorded E s kind key l r v)
    unfolding recorded
    behind_transaction w v l (err e) free done clean =
        inl ((failed-Calm l e).kept.at v ∙ clean e refl, failed-never l e v)
    behind_transaction w v l (ok found) free done clean = inr (record {
      found = found;
      recorded =
          subst (λ m. Recorded E kind key parent all_opts found w.meta m)
            (sym ((recorded-meta kind key l found).at v)) (done found refl);
      answered = λ ms h.
          let e = (recorded-EndsIn kind key l found).at v ms h in
          record { from = e.0; free = λ none. e.1 (free none); runs = e.2 };
    })

    prepared-Outcome :
        (made : Bytes × Result (Unit {0})) (w : World E.Meta)
        → Outcome E s kind key parent all_opts w (prepared E s kind key parent opts made w)
    unfolding prepared attempt ◌>>=◌
    prepared-Outcome (td, err e) w = inl ((failed-Calm _ _).kept.at w, failed-never _ _ w)
    prepared-Outcome (td, ok _) w =
        let fn = new_snapshot E s kind key parent all_opts td in
        let l = locals_behind E s td (E.begin true w.meta) (fn w).1 in
        let p = with_transaction E true (λ v. (fn v).0) w in
        behind_transaction w p.1 l p.0 ((transaction-Free E s kind key parent all_opts td).at w)
          (transaction-Recorded E s kind key parent all_opts td T w)
          ((with_transaction-FailsClean E T _).at w)

    Outcome-from :
        (w v : World E.Meta) (p : Result (List Mount) × World E.Meta)
        → v.meta ≡ w.meta
        → (w.faults ≡ [] → v.faults ≡ [])
        → Outcome E s kind key parent all_opts v p
        → Outcome E s kind key parent all_opts w p
    Outcome-from w v (r, u) same free (inl (kept, none)) = inl (kept ∙ same, none)
    Outcome-from w v (r, u) same free (inr made) = inr (record {
      found = made.found;
      recorded =
          subst (λ m. Recorded E kind key parent all_opts made.found m u.meta) same made.recorded;
      answered = λ ms h.
          let a = made.answered ms h in
          record { from = a.from; free = λ none. a.free (free none); runs = a.runs };
    })

    module _ {A : Type 0} where
      continue-Outcome :
          (r : Result A) (f : A → Exec E.Meta (List Mount)) (w v : World E.Meta)
          → v.meta ≡ w.meta
          → (w.faults ≡ [] → v.faults ≡ [])
          → ((a : A) (u : World E.Meta) → Outcome E s kind key parent all_opts u (f a u))
          → Outcome E s kind key parent all_opts w (continue r f v)
      continue-Outcome (ok a) f w v same free of = Outcome-from w v (f a v) same free (of a v)
      continue-Outcome (err e) f w v same free of = inl (same, λ ms h. cc)

      bind-Outcome :
          (m : Exec E.Meta A) (f : A → Exec E.Meta (List Mount)) (w : World E.Meta)
          → Calm m
          → ((a : A) (u : World E.Meta) → Outcome E s kind key parent all_opts u (f a u))
          → Outcome E s kind key parent all_opts w ((m >>= f) w)
      unfolding ◌>>=◌
      bind-Outcome m f w calm of =
          continue-Outcome (m w).0 f w (m w).1 (calm.kept.at w) (calm.free.at w) of

    checked-Outcome :
        (random : List Bytes) (ready : Result (Unit {0})) (w : World E.Meta)
        → Outcome E s kind key parent all_opts w (checked E s kind key parent opts random ready w)
    unfolding checked
    checked-Outcome random (err e) w = inl ((failed-Calm _ _).kept.at w, failed-never _ _ w)
    checked-Outcome random (ok _) w =
        bind-Outcome _ _ w (prepare_directory-Calm (snapshots_dir s) kind random) prepared-Outcome

    pub create_snapshot-Outcome :
        (random : List Bytes) (w : World E.Meta)
        → Outcome E s kind key parent all_opts w (create_snapshot E s kind key parent opts random w)
    unfolding create_snapshot
    create_snapshot-Outcome random w =
        bind-Outcome _ _ w (Calm-attempt _ (check_context-Calm _)) (checked-Outcome random)

    -- Given a transactional metadata store, and whatever calls are refused: createSnapshot that returns
    -- mounts has recorded its snapshot in the metadata, and they are the mounts of that snapshot, made
    -- in its last step; where it returns an error, the metadata is as before or the snapshot is
    -- recorded all the same.
    pub create_snapshot-Ended :
        (random : List Bytes) (w : World E.Meta)
        → Ended E s kind key parent all_opts w
            (create_snapshot E s kind key parent opts random w).0
            (create_snapshot E s kind key parent opts random w).1
    create_snapshot-Ended random w =
        Outcome-Ended E s kind key parent all_opts w
          (create_snapshot E s kind key parent opts random w).0
          (create_snapshot E s kind key parent opts random w).1 (create_snapshot-Outcome random w)
