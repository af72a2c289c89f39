-- ===== src/Storage.antt =====
-- What the snapshotter takes from containerd and from the tools it runs: the metadata store of
-- package `storage`, disk usage, mounting, and the commands mkfs.erofs and mkfs.ext4. They are
-- parameters; `IsTransactional` is what is relied on of the store's transactions.
pub mod Effects
pub mod Transactions
pub mod Untouched
use nexus_erofs.Prelude.{
  ℕ, Bool, true, false, ◌≡◌, ◌⊎◌, List, [], ◌∷◌, Option, none, some, Bytes, ◌==◌, bytes_eq, ◌||◌,
  if◌then◌else◌,
}
use nexus_erofs.Errors.{Error, Result, ok, err}
use nexus_erofs.Mount.{Mount}
use nexus_erofs.Os.{World, Exec, system_call}
use nexus_erofs.Os.Tree.{Files}
use nexus_erofs.Snapshotter.Types.{Kind, Snapshot, Info, Usage}

abbrev pub Labels : Type 0
Labels = List (Bytes × Bytes)

pub record External : Type 1 where
  -- the contents of the metadata store
  pub Meta : Type 0
  -- storage.CreateSnapshot, with the labels of its options
  pub create_snapshot : Kind → Bytes → Bytes → List Labels → Meta → Result (Snapshot × Meta)
  pub get_info : Bytes → Meta → Result (Bytes × Info × Usage)
  pub get_snapshot : Bytes → Meta → Result Snapshot
  -- the keys of storage.IDMap
  pub id_map : Meta → Result (List Bytes)
  -- storage.Remove: the identifier and the kind of what was removed
  pub remove_snapshot : Bytes → Meta → Result ((Bytes × Kind) × Meta)
  -- storage.CommitActive
  pub commit_active : Bytes → Bytes → Usage → List Labels → Meta → Result Meta
  pub update_info : Info → List Bytes → Meta → Result (Info × Meta)
  -- the infos that storage.WalkInfo passes to its function
  pub walk_info : List Bytes → Meta → Result (List Info)
  -- the start of MetaStore.WithTransaction, for writing or not
  pub begin : Bool → Meta → Result (Unit {0})
  -- its end: for writing or not, whether the function returned no error, and the contents before
  -- and behind the function
  pub finish : Bool → Bool → Meta → Meta → Result (Unit {0}) × Meta
  -- fs.DiskUsage
  pub disk_usage : Bytes → Files → Result Usage
  -- mount.UnmountAll, lazily or not, and mount.Mount.Mount, on the mount points
  pub unmount_all : Bytes → Bool → List Bytes → Result (Unit {0}) × List Bytes
  pub do_mount : Mount → Bytes → List Bytes → Result (Unit {0}) × List Bytes
  -- mountinfo.Mounted
  pub is_mount_point : Bytes → List Bytes → Result Bool
  -- the commands: whether the exit status is 0, and the files behind the run
  pub mkfs_erofs : List Bytes → Files → Bool × Files
  pub mkfs_ext4 : List Bytes → Files → Bool × Files
  -- snapshots.UnpackKeyPrefix
  pub unpack_key_prefix : Bytes
  -- Parse of package go-digest
  pub parse_digest : Bytes → Option Bytes

-- A transaction is committed whole or not at all, and never when its function has failed.
pub record IsTransactional (E : External) : Type 0 where
  pub rolled_back :
      (writable : Bool) (before after : E.Meta) → (E.finish writable false before after).1 ≡ before
  pub atomic :
      (before after : E.Meta)
      → (E.finish true true before after ≡ (ok tt, after))
        ⊎ ((e : Error) × (E.finish true true before after ≡ (err e, before)))
  pub read_only : (before after : E.Meta) → (E.finish false true before after).1 ≡ before

module _ (E : External) where
  -- a read of the metadata inside a transaction
  unfoldable pub query : {A : Type 0} → (E.Meta → Result A) → Exec E.Meta A
  query op w = (op w.meta, w)

  written : {A : Type 0} → Result (A × E.Meta) → World E.Meta → Result A × World E.Meta
  written (ok (a, m)) w = (ok a, record w { meta = m })
  written (err e) w = (err e, w)

  -- a write of the metadata inside a transaction
  unfoldable pub change : {A : Type 0} → (E.Meta → Result (A × E.Meta)) → Exec E.Meta A
  unfolding written
  change op w = written (op w.meta) w

  end_result : {A : Type 0} → A → Result (Unit {0}) → Result A
  end_result a (ok _) = ok a
  end_result a (err e) = err e

  end_transaction : {A : Type 0} → Bool → E.Meta → Result A × World E.Meta → Result A × World E.Meta
  unfolding end_result
  end_transaction writable before (ok a, w) =
      let (r, m) = E.finish writable true before w.meta in (end_result a r, record w { meta = m })
  end_transaction writable before (err e, w) =
      (err e, record w { meta = (E.finish writable false before w.meta).1 })

  begun : {A : Type 0} → Bool → Result (Unit {0}) → Exec E.Meta A → Exec E.Meta A
  unfolding end_transaction
  begun writable (ok _) fn w = end_transaction writable w.meta (fn w)
  begun writable (err e) fn w = (err e, w)

  -- ms.WithTransaction(ctx, writable, fn)
  unfoldable pub with_transaction : {A : Type 0} → Bool → Exec E.Meta A → Exec E.Meta A
  unfolding begun
  with_transaction writable fn w = begun writable (E.begin writable w.meta) fn w

  command_result : Bool × Files → World E.Meta → Result (Unit {0}) × World E.Meta
  command_result (true, files) w = (ok tt, record w { files = files })
  command_result (false, files) w = (err (Error.message "exit status"), record w { files = files })

  -- exec.CommandContext(ctx, "mkfs.erofs", args...).CombinedOutput(), which may fail to start
  unfoldable pub run_mkfs_erofs : List Bytes → Exec E.Meta (Unit {0})
  unfolding command_result
  run_mkfs_erofs args = system_call λ w. command_result (E.mkfs_erofs args w.files) w

  unfoldable pub run_mkfs_ext4 : List Bytes → Exec E.Meta (Unit {0})
  unfolding command_result
  run_mkfs_ext4 args = system_call λ w. command_result (E.mkfs_ext4 args w.files) w

  mount_points : Result (Unit {0}) × List Bytes → World E.Meta → Result (Unit {0}) × World E.Meta
  mount_points (r, points) w = (r, record w { mounted = points })

  unfoldable pub unmount : Bytes → Bool → Exec E.Meta (Unit {0})
  unfolding mount_points
  unmount target lazily w = mount_points (E.unmount_all target lazily w.mounted) w

  unfoldable pub mount_at : Mount → Bytes → Exec E.Meta (Unit {0})
  unfolding mount_points
  mount_at m target w = mount_points (E.do_mount m target w.mounted) w
