-- ===== src/Examples/Prepared.antt =====
-- The theorems on Prepare, on a host whose metadata store is a list of keys with their kinds.
use nexus_erofs.Prelude.{
  ◌≡◌, ◌⊎◌, refl, inl, Bool, true, false, List, [], ◌∷◌, some, Bytes, codes, ◌==◌, bytes_eq,
  if◌then◌else◌,
}
use nexus_erofs.Errors.{Result, ok, err, foreign}
use nexus_erofs.Os.{World}
use nexus_erofs.Storage.{External, IsTransactional}
use nexus_erofs.Snapshotter.Types.{Kind, kind_active, kind_view, Snapshot}
use nexus_erofs.Snapshotter.Create.{create_snapshot, prepare, is_extract_key, with_extract_label}
use nexus_erofs.Snapshotter.Create.Outcome.{Ended}
use nexus_erofs.Snapshotter.Create.Made.{create_snapshot-Ended}
use nexus_erofs.Snapshotter.Create.{view}
use nexus_erofs.Snapshotter.Queries.{update}
use nexus_erofs.Snapshotter.Commit.{commit}
use nexus_erofs.Snapshotter.Commit.Effect.{Commits}
use nexus_erofs.Snapshotter.Remove.{remove_snapshot}
use nexus_erofs.Snapshotter.Remove.Effect.{Removes}
use nexus_erofs.Snapshotter.Api.{snapshotter_api}
use nexus_erofs.Snapshotter.Startup.{run_generation}
use nexus_erofs.Snapshotter.Api.Requests.{
  Request, prepare_request, commit_request, remove_request, mounts_request, cleanup_request,
  generation_step, handle_all, Creates, Updates, Runs,
}
use nexus_erofs.Snapshotter.Api.Simulates.{Told, handle_all-Runs, answers_effect}
use nexus_erofs.Examples.Host.{no_usage, info_of, config}

abbrev Keys : Type 0
Keys = List (Bytes × Kind)

abbrev snapshot_of : Bytes → Kind → Snapshot
snapshot_of key kind = record { kind = kind; id = key; parent_ids = [] }

abbrev find : Bytes → Keys → Result Snapshot
find key [] = err (foreign 1)
find key ((k, kind) ∷ ks) =
    let rest = find key ks in if k == key then ok (snapshot_of key kind) else rest

abbrev ended : Bool → Bool → Keys → Keys → Result (Unit {0}) × Keys
ended true true before after = (ok tt, after)
ended true false before after = (ok tt, before)
ended false true before after = (ok tt, before)
ended false false before after = (ok tt, before)

abbrev store : External
store = record {
  Meta = Keys;
  create_snapshot = λ kind key parent opts m. ok (snapshot_of key kind, (key, kind) ∷ m);
  get_info = λ key m. ok (key, info_of key, no_usage);
  get_snapshot = λ key m. find key m;
  id_map = λ m. ok [];
  remove_snapshot = λ key m. err (foreign 1);
  commit_active = λ key name u opts m. err (foreign 2);
  update_info = λ info paths m. ok (info, m);
  walk_info = λ filters m. ok [];
  begin = λ writable m. ok tt;
  finish = ended;
  disk_usage = λ p files. ok no_usage;
  unmount_all = λ target lazily points. (ok tt, []);
  do_mount = λ m target points. (ok tt, target ∷ points);
  is_mount_point = λ target points. ok false;
  mkfs_erofs = λ args files. (true, files);
  mkfs_ext4 = λ args files. (true, files);
  unpack_key_prefix = codes "extract";
  parse_digest = λ d. some d;
}

store-IsTransactional : IsTransactional store
store-IsTransactional = record {
  rolled_back = rolled;
  atomic = λ before after. inl refl;
  read_only = λ before after. refl;
}
  where
    rolled :
        (writable : Bool) (before after : Keys) → (ended writable false before after).1 ≡ before
    rolled true before after = refl
    rolled false before after = refl

abbrev world : World Keys
world = record {
  files = [];
  mounted = [];
  immutable = [];
  loops = [];
  meta = [];
  background = [];
  faults = [];
}

create_snapshot-Ended_example :
    Ended store config kind_active
      (codes "2")
      []
      (with_extract_label store config (is_extract_key store config (codes "2")) [])
      world
      (create_snapshot store config kind_active (codes "2") [] [] (codes "x" ∷ []) world).0
      (create_snapshot store config kind_active (codes "2") [] [] (codes "x" ∷ []) world).1
create_snapshot-Ended_example =
    create_snapshot-Ended store config store-IsTransactional kind_active (codes "2") [] []
      (codes "x" ∷ []) world

abbrev requests : List Request
requests =
    prepare_request (codes "2") [] []
    ∷ generation_step 0
    ∷ commit_request (codes "3") (codes "2") []
    ∷ remove_request (codes "2")
    ∷ mounts_request (codes "2")
    ∷ cleanup_request
    ∷ []

handle_all-Runs_example :
    Runs store config requests []
      (handle_all
        (snapshotter_api store config (codes "x" ∷ []))
        (run_generation store config)
        requests
        world).meta
handle_all-Runs_example =
    handle_all-Runs store config store-IsTransactional (codes "x" ∷ []) requests world

answers_effect_example :
    let p = prepare store config (codes "2") [] [] (codes "x" ∷ []) world in
    let v = view store config (codes "2") [] [] (codes "x" ∷ []) world in
    let c = commit store config (codes "3") (codes "2") [] world in
    let d = remove_snapshot store config (codes "2") world in
    let u = update store config (info_of (codes "2")) [] world in
    Told p.0
      (Creates store config kind_active (codes "2") [] [] [] p.1.meta)
      ((p.1.meta ≡ []) ⊎ Creates store config kind_active (codes "2") [] [] [] p.1.meta)
    × Told v.0
        (Creates store config kind_view (codes "2") [] [] [] v.1.meta)
        ((v.1.meta ≡ []) ⊎ Creates store config kind_view (codes "2") [] [] [] v.1.meta)
    × Told c.0 (Commits store config (codes "3") (codes "2") [] [] c.1.meta) (c.1.meta ≡ [])
    × Told d.0 (Removes store config (codes "2") [] d.1.meta) (d.1.meta ≡ [])
    × Told u.0 (Updates store config (info_of (codes "2")) [] [] u.1.meta) (u.1.meta ≡ [])
answers_effect_example =
    answers_effect store config store-IsTransactional (codes "3") (codes "2") [] [] (codes "x" ∷ [])
      (info_of (codes "2")) [] world
