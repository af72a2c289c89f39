-- ===== src/Snapshotter/Api/Requests.antt =====
-- Requests to the snapshotter, one after the other with generations of merged metadata between them, and what they may do to the metadata: the abstract
-- view of the service of internal/grpcservice/snapshots.go, in which directories, blobs and mounts are
-- left out.
use nexus_erofs.Prelude.{ℕ, ◌≡◌, ◌⊎◌, List, [], ◌∷◌, Option, none, some, Bytes}
use nexus_erofs.Errors.{ok}
use nexus_erofs.Os.{World, Exec}
use nexus_erofs.Storage.{External, Labels}
use nexus_erofs.GrpcService.{SnapshotterApi}
use nexus_erofs.Snapshotter.Types.{Config, kind_view, kind_active, Kind, Snapshot, Info}
use nexus_erofs.Snapshotter.Create.{is_extract_key, with_extract_label}
use nexus_erofs.Snapshotter.Commit.Effect.{Commits}
use nexus_erofs.Snapshotter.Remove.Effect.{Removes}

pub data Request : Type 0 where
  prepare_request view_request : Bytes → Bytes → List Labels → Request
  commit_request : Bytes → Bytes → List Labels → Request
  remove_request : Bytes → Request
  update_request : Info → List Bytes → Request
  mounts_request stat_request usage_request : Bytes → Request
  cleanup_request : Request
  -- a generation of merged metadata in the background, at this place of the queue, runs
  generation_step : ℕ → Request

cleaned : {Meta : Type 0} → Option (Exec Meta (Unit {0})) → World Meta → World Meta
cleaned none w = w
cleaned (some clean) w = (clean w).1

-- the state behind a request; G runs a generation
unfoldable pub handle :
    {Meta : Type 0}
    → SnapshotterApi Meta
    → (ℕ → Exec Meta (Unit {0}))
    → Request
    → World Meta
    → World Meta
unfolding cleaned
handle S G (prepare_request key parent opts) w = (S.prepare key parent opts w).1
handle S G (view_request key parent opts) w = (S.view key parent opts w).1
handle S G (commit_request name key opts) w = (S.commit name key opts w).1
handle S G (remove_request key) w = (S.remove key w).1
handle S G (update_request info paths) w = (S.update info paths w).1
handle S G (mounts_request key) w = (S.mounts key w).1
handle S G (stat_request key) w = (S.stat key w).1
handle S G (usage_request key) w = (S.usage key w).1
handle S G cleanup_request w = cleaned S.cleanup w
handle S G (generation_step i) w = (G i w).1

unfoldable pub handle_all :
    {Meta : Type 0}
    → SnapshotterApi Meta
    → (ℕ → Exec Meta (Unit {0}))
    → List Request
    → World Meta
    → World Meta
handle_all S G [] w = w
handle_all S G (r ∷ rs) w = handle_all S G rs (handle S G r w)

module _ (E : External) (s : Config) where
  -- the snapshot of the key is created, with the label for extraction where the key asks for it
  abbrev pub Creates : Kind → Bytes → Bytes → List Labels → E.Meta → E.Meta → Type 0
  Creates kind key parent opts before after =
      (snap : Snapshot) × (E.create_snapshot kind key parent
          (with_extract_label E s (is_extract_key E s key) opts) before
        ≡ ok (snap, after))

  -- the info is updated
  abbrev pub Updates : Info → List Bytes → E.Meta → E.Meta → Type 0
  Updates info paths before after =
      (updated : Info) × (E.update_info info paths before ≡ ok (updated, after))

  -- The step of the metadata store that a request asks for; reads, Cleanup and generations ask for none.
  abbrev pub Asks : Request → E.Meta → E.Meta → Type 0
  Asks (prepare_request key parent opts) before after =
      Creates kind_active key parent opts before after
  Asks (view_request key parent opts) before after = Creates kind_view key parent opts before after
  Asks (commit_request name key opts) before after = Commits E s name key opts before after
  Asks (remove_request key) before after = Removes E s key before after
  Asks (update_request info paths) before after = Updates info paths before after
  Asks (mounts_request key) before after = after ≡ before
  Asks (stat_request key) before after = after ≡ before
  Asks (usage_request key) before after = after ≡ before
  Asks cleanup_request before after = after ≡ before
  Asks (generation_step i) before after = after ≡ before

  -- The store takes the steps of the requests in their order, and may leave out any of them.
  abbrev pub Runs : List Request → E.Meta → E.Meta → Type 0
  Runs [] before after = after ≡ before
  Runs (r ∷ rs) before after =
      (middle : E.Meta) × ((middle ≡ before) ⊎ Asks r before middle) × Runs rs middle after
