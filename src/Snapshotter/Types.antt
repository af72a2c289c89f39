-- ===== src/Snapshotter/Types.antt =====
-- The configuration of the snapshotter, and the records of containerd that it reads.
use nexus_erofs.Prelude.{ℕ, Bool, List, Bytes}

-- The fields of `snapshotter` that do not change; its metadata store is part of the shared state.
pub record Config : Type 0 where
  pub root : Bytes
  pub set_immutable : Bool
  pub default_writable : ℕ

-- snapshots.Kind
pub data Kind : Type 0 where
  kind_unknown kind_view kind_active kind_committed : Kind

-- storage.Snapshot; the parents are the chain, the nearest parent first.
pub record Snapshot : Type 0 where
  pub kind : Kind
  pub id : Bytes
  pub parent_ids : List Bytes

-- snapshots.Info, as far as the code reads it
pub record Info : Type 0 where
  pub kind : Kind
  pub name : Bytes
  pub labels : List (Bytes × Bytes)

-- snapshots.Usage
pub record Usage : Type 0 where
  pub inodes : ℕ
  pub size : ℕ
