-- ===== src/CommitTool/Run.antt =====
-- `run` of cmd/integration-commit/main.go.
pub mod Laws
pub mod Clears
pub mod Keys
use nexus_erofs.Prelude.{Bool, true, false, List, [], ◌∷◌, ◌++◌, Bytes, codes, if◌then◌else◌}
use nexus_erofs.Errors.{Error, Result, ok, err, wrap}
use nexus_erofs.Mount.{Mount}
use nexus_erofs.Os.{World, Exec, pure, raise, attempt, deferred, wrapping, ◌>>=◌}
use nexus_erofs.Storage.{Labels}
use nexus_erofs.GrpcService.{SnapshotterApi}
use nexus_erofs.Differ.Mounted.{call}
use nexus_erofs.CommitTool.{CommitTools, NewImage}
use nexus_erofs.CommitTool.Write.{timestamp, write_to_snapshot}

-- the arguments of run
pub record Request : Type 0 where
  pub address : Bytes
  pub snapshotter : Bytes
  pub source_image : Bytes
  pub target_image : Bytes
  pub marker : Bytes

module _ {Meta : Type 0} (T : CommitTools Meta) where
  pub gc_labels : Request → Bytes → Exec Meta Labels
  gc_labels r chain = do
    now ← timestamp T
    pure (
        (codes "containerd.io/gc.root", now)
        ∷ (codes "containerd.io/snapshot.ref", r.target_image)
        ∷ (codes "containerd.io/gc.ref.snapshot", chain)
        ∷ [])

  -- the key of a new snapshot, behind `commit-test-`
  snapshot_key : Exec Meta Bytes
  snapshot_key =
      call (λ m. let (text, m') = T.unix_nano m in (ok (codes "commit-test-" ++ text), m'))

  -- A commit that fails because something was not found is accepted.
  pub accept_missing : Result (Unit {0}) → Exec Meta (Unit {0})
  accept_missing (ok _) = pure tt
  accept_missing (err e) = if T.says_not_found e then pure tt else raise (wrap "commit snapshot" e)

  pub created_or_updated : NewImage → Result (Unit {0}) → Exec Meta (Unit {0})
  created_or_updated image (ok _) = pure tt
  created_or_updated image (err _) = wrapping "create/update image" (T.update_image image)

  -- from Usage on, whose failure is only a warning
  pub publish : Request → T.Image → Bytes → Exec Meta (Unit {0})
  unfolding created_or_updated
  publish r img committed_key = do
    _ ← attempt ((T.snapshot_service r.snapshotter).usage committed_key)
    now ← timestamp T
    let image : NewImage = record {
      name = r.target_image;
      target = T.target img;
      labels =
          (codes "io.containerd.commit.source", r.source_image)
          ∷ (codes "io.containerd.commit.time", now)
          ∷ (codes "io.containerd.commit.snapshot", committed_key)
          ∷ [];
    }
    created ← attempt (T.create_image image)
    _ ← created_or_updated image created
    _ ← wrapping "list images" T.list_images
    pure tt

  -- from Commit on; the committed snapshot is removed behind it
  pub commit_prepared : Request → T.Image → Bytes → Bytes → Exec Meta (Unit {0})
  unfolding gc_labels accept_missing publish
  commit_prepared r img chain key = do
    let committed_key = key ++ codes "-committed"
    labels ← gc_labels r chain
    outcome ← attempt ((T.snapshot_service r.snapshotter).commit committed_key key (labels ∷ []))
    _ ← accept_missing outcome
    deferred ((T.snapshot_service r.snapshotter).remove committed_key) (publish r img committed_key)

  -- from Prepare on; the active snapshot is removed behind it
  unfoldable pub with_snapshot : Request → T.Image → Bytes → Exec Meta (Unit {0})
  unfolding gc_labels snapshot_key commit_prepared
  with_snapshot r img chain = do
    key ← snapshot_key
    labels ← gc_labels r chain
    mounts ←
        wrapping "prepare snapshot"
          ((T.snapshot_service r.snapshotter).prepare key chain (labels ∷ []))
    deferred ((T.snapshot_service r.snapshotter).remove key) (do
      _ ← wrapping "write to snapshot" (write_to_snapshot T mounts r.marker)
      commit_prepared r img chain key)

  -- run
  unfoldable pub run : Request → Exec Meta (Unit {0})
  unfolding with_snapshot
  run r = do
    _ ← wrapping "connect to containerd" (T.connect r.address)
    deferred T.disconnect (do
      img ← wrapping "get source image" (T.get_image r.source_image)
      _ ← wrapping "unpack image" (T.unpack img r.snapshotter)
      diff_ids ← wrapping "get image rootfs" (T.root_fs img)
      let chain = T.chain_id diff_ids
      _ ← wrapping "stat parent snapshot" ((T.snapshot_service r.snapshotter).stat chain)
      with_snapshot r img chain)
