-- ===== src/Snapshotter/Api/Simulates.antt =====
-- The requests to the snapshotter are steps of the metadata store.
use nexus_erofs.Prelude.{ℕ, ◌≡◌, ◌⊎◌, inl, inr, refl, List, [], ◌∷◌, Option, none, some, Bytes}
use nexus_erofs.Errors.{Error, Result, ok, err}
use nexus_erofs.Mount.{Mount}
use nexus_erofs.Os.{World}
use nexus_erofs.Os.Keeps.{Keeps, the_meta, Keeps-bind}
use nexus_erofs.Storage.{External, IsTransactional, Labels}
use nexus_erofs.Storage.Effects.{with_transaction-ok, change-Post}
use nexus_erofs.Storage.Transactions.{with_transaction-FailsClean, with_transaction-meta}
use nexus_erofs.Snapshotter.Types.{Config, kind_view, kind_active, Kind, Info}
use nexus_erofs.Snapshotter.Mounts.Untouched.{mounts-meta}
use nexus_erofs.Snapshotter.Create.{is_extract_key, with_extract_label, prepare, view}
use nexus_erofs.Snapshotter.Create.Outcome.{Outcome}
use nexus_erofs.Snapshotter.Create.Made.{create_snapshot-Outcome}
use nexus_erofs.Snapshotter.Queries.{mounts_by_key, update}
use nexus_erofs.Snapshotter.Queries.ReadOnly.{stat_snapshot-meta, usage-meta}
use nexus_erofs.Snapshotter.Commit.{commit}
use nexus_erofs.Snapshotter.Commit.Atomic.{commit_atomic}
use nexus_erofs.Snapshotter.Commit.Effect.{Commits, commit-Commits}
use nexus_erofs.Snapshotter.Remove.{remove_snapshot}
use nexus_erofs.Snapshotter.Remove.Atomic.{remove_snapshot_atomic}
use nexus_erofs.Snapshotter.Remove.Effect.{Removes, remove_snapshot-Removes}
use nexus_erofs.Snapshotter.Remove.ReadOnly.{cleanup-meta}
use nexus_erofs.Snapshotter.Api.{snapshotter_api}
use nexus_erofs.Snapshotter.Startup.{generation_of, run_generation}
use nexus_erofs.Snapshotter.FsMeta.Untouched.{generate_fsmeta-meta}
use nexus_erofs.Snapshotter.Api.Requests.{
  Request, prepare_request, view_request, commit_request, remove_request, update_request,
  mounts_request, stat_request, usage_request, cleanup_request, generation_step, handle, handle_all,
  Asks, Creates, Updates, Runs,
}

-- what holds of a request that succeeds, and of one that fails
abbrev pub Told : {A : Type 0} → Result A → Type 0 → Type 0 → Type 0
Told (ok a) Done Kept = Done
Told (err e) Done Kept = Kept

module _ (E : External) (s : Config) (T : IsTransactional E) where
  Outcome-effect :
      (kind : Kind) (key parent : Bytes) (opts : List Labels) (w : World E.Meta)
      (p : Result (List Mount) × World E.Meta)
      → Outcome E s kind key parent (with_extract_label E s (is_extract_key E s key) opts) w p
      → (p.1.meta ≡ w.meta) ⊎ Creates E s kind key parent opts w.meta p.1.meta
  Outcome-effect kind key parent opts w p (inl (kept, never)) = inl kept
  Outcome-effect kind key parent opts w p (inr made) = inr (made.found.0, made.recorded.created)

  effect_or_clean :
      {A : Type 0} (r : Result A) (after before : E.Meta) (P : Type 0)
      → ((a : A) → r ≡ ok a → P)
      → ((e : Error) → r ≡ err e → after ≡ before)
      → (after ≡ before) ⊎ P
  effect_or_clean (ok a) after before P done clean = inr (done a refl)
  effect_or_clean (err e) after before P done clean = inl (clean e refl)

  update-Updates :
      (info : Info) (paths : List Bytes) (w : World E.Meta) (updated : Info)
      → (update E s info paths w).0 ≡ ok updated
      → Updates E s info paths w.meta (update E s info paths w).1.meta
  unfolding update
  update-Updates info paths w updated h = (
    updated,
    with_transaction-ok E T (λ i before after. E.update_info info paths before ≡ ok (i, after)) _ w
        updated ((change-Post E _).at w updated) h,
  )

  update-clean :
      (info : Info) (paths : List Bytes) (w : World E.Meta) (e : Error)
      → (update E s info paths w).0 ≡ err e
      → (update E s info paths w).1.meta ≡ w.meta
  unfolding update
  update-clean info paths = (with_transaction-FailsClean E T _).at

  mounts_by_key-meta : (key : Bytes) → Keeps the_meta (mounts_by_key E s key)
  unfolding mounts_by_key
  mounts_by_key-meta key =
      Keeps-bind _ _ (with_transaction-meta E T _) λ found. mounts-meta s found.0 found.1

  generation_of-meta :
      (o : Option (List Bytes × List (List Bytes))) → Keeps the_meta (generation_of E s o)
  unfolding run_generation
  generation_of-meta none = record { at = λ w. refl }
  generation_of-meta (some (chain, others)) = record {
    at = λ w. (generate_fsmeta-meta E s chain).at (record w { background = others });
  }

  run_generation-meta : (i : ℕ) → Keeps the_meta (run_generation E s i)
  unfolding run_generation
  run_generation-meta i = record { at = λ w. (generation_of-meta _).at w }

  module _ (random : List Bytes) where
    handle-Asks :
        (r : Request) (w : World E.Meta)
        → ((handle (snapshotter_api E s random) (run_generation E s) r w).meta ≡ w.meta)
          ⊎ Asks E s r w.meta (handle (snapshotter_api E s random) (run_generation E s) r w).meta
    unfolding handle snapshotter_api prepare view
    handle-Asks (prepare_request key parent opts) w =
        Outcome-effect kind_active key parent opts w _
          (create_snapshot-Outcome E s T kind_active key parent opts random w)
    handle-Asks (view_request key parent opts) w =
        Outcome-effect kind_view key parent opts w _
          (create_snapshot-Outcome E s T kind_view key parent opts random w)
    handle-Asks (commit_request name key opts) w =
        effect_or_clean (commit E s name key opts w).0 _ _ _
          (λ u h. commit-Commits E s T name key opts w h) (commit_atomic E s T name key opts w)
    handle-Asks (remove_request key) w =
        effect_or_clean (remove_snapshot E s key w).0 _ _ _
          (λ u h. remove_snapshot-Removes E s T key w h) (remove_snapshot_atomic E s T key w)
    handle-Asks (update_request info paths) w =
        effect_or_clean (update E s info paths w).0 _ _ _ (update-Updates info paths w)
          (update-clean info paths w)
    handle-Asks (mounts_request key) w = inl ((mounts_by_key-meta key).at w)
    handle-Asks (stat_request key) w = inl ((stat_snapshot-meta E s T key).at w)
    handle-Asks (usage_request key) w = inl ((usage-meta E s T key).at w)
    handle-Asks (generation_step i) w = inl ((run_generation-meta i).at w)
    handle-Asks cleanup_request w = inl (cleanup-meta E s T w)

    -- Given a transactional metadata store: whatever requests come one after the other, wherever
    -- generations in the background run between them and in whichever order, and whatever calls are
    -- refused, the metadata are those that the store reaches by the steps that the requests ask for,
    -- in their order, where any of them may be left out.
    pub handle_all-Runs :
        (rs : List Request) (w : World E.Meta)
        → Runs E s rs w.meta
            (handle_all (snapshotter_api E s random) (run_generation E s) rs w).meta
    unfolding handle_all
    handle_all-Runs [] w = refl
    handle_all-Runs (r ∷ rs) w = (
      (handle (snapshotter_api E s random) (run_generation E s) r w).meta,
      handle-Asks r w,
      handle_all-Runs rs (handle (snapshotter_api E s random) (run_generation E s) r w),
    )

  told :
      {A : Type 0} (r : Result A) (Done Kept : Type 0)
      → ((a : A) → r ≡ ok a → Done)
      → ((e : Error) → r ≡ err e → Kept)
      → Told r Done Kept
  told (ok a) Done Kept done kept = done a refl
  told (err e) Done Kept done kept = kept e refl

  told_created :
      (kind : Kind) (key parent : Bytes) (opts : List Labels) (w : World E.Meta)
      (r : Result (List Mount)) (after : World E.Meta)
      → Outcome E s kind key parent
          (with_extract_label E s (is_extract_key E s key) opts)
          w
          (r, after)
      → Told r
          (Creates E s kind key parent opts w.meta after.meta)
          ((after.meta ≡ w.meta) ⊎ Creates E s kind key parent opts w.meta after.meta)
  told_created kind key parent opts w (ok ms) after (inl (kept, never)) = absurd (never ms refl)
  told_created kind key parent opts w (ok ms) after (inr made) =
      (made.found.0, made.recorded.created)
  told_created kind key parent opts w (err e) after outcome =
      Outcome-effect kind key parent opts w (err e, after) outcome

  -- Given a transactional metadata store, and whatever calls are refused: what a request answers is
  -- what it has done. Commit, Remove and Update that succeed have taken their step in the metadata, and
  -- those that fail have changed nothing in them. Prepare and View that succeed have created their
  -- snapshot, and those that fail have created it or changed nothing.
  pub answers_effect :
      (name key parent : Bytes) (opts : List Labels) (random : List Bytes) (info : Info)
      (paths : List Bytes) (w : World E.Meta)
      → let p = prepare E s key parent opts random w in
        let v = view E s key parent opts random w in
        let c = commit E s name key opts w in
        let d = remove_snapshot E s key w in
        let u = update E s info paths w in
        Told p.0
          (Creates E s kind_active key parent opts w.meta p.1.meta)
          ((p.1.meta ≡ w.meta) ⊎ Creates E s kind_active key parent opts w.meta p.1.meta)
        × Told v.0
            (Creates E s kind_view key parent opts w.meta v.1.meta)
            ((v.1.meta ≡ w.meta) ⊎ Creates E s kind_view key parent opts w.meta v.1.meta)
        × Told c.0 (Commits E s name key opts w.meta c.1.meta) (c.1.meta ≡ w.meta)
        × Told d.0 (Removes E s key w.meta d.1.meta) (d.1.meta ≡ w.meta)
        × Told u.0 (Updates E s info paths w.meta u.1.meta) (u.1.meta ≡ w.meta)
  unfolding prepare view
  answers_effect name key parent opts random info paths w = (
    told_created kind_active key parent opts w _ _
        (create_snapshot-Outcome E s T kind_active key parent opts random w),
    told_created kind_view key parent opts w _ _
        (create_snapshot-Outcome E s T kind_view key parent opts random w),
    told (commit E s name key opts w).0 _ _ (λ _ h. commit-Commits E s T name key opts w h)
        (commit_atomic E s T name key opts w),
    told (remove_snapshot E s key w).0 _ _ (λ _ h. remove_snapshot-Removes E s T key w h)
        (remove_snapshot_atomic E s T key w),
    told (update E s info paths w).0 _ _ (update-Updates info paths w) (update-clean info paths w),
  )
