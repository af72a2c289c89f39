-- ===== src/Differ.antt =====
-- internal/differ: what the differ takes from containerd. The mount manager, the temporary mounts of
-- package `mount`, the content store, compressed streams, digests and archive.WriteDiff are
-- parameters; what they know of their own state is in the metadata of the state.
pub mod Media
pub mod Options
pub mod Active
pub mod Mounted
pub mod Upload
pub mod Apply
use nexus_erofs.Prelude.{ℕ, Bool, true, false, List, [], ◌∷◌, Option, none, some, Bytes}
use nexus_erofs.Errors.{Error, Result, ok, err}
use nexus_erofs.Mount.{Mount}
use nexus_erofs.Os.{World, Exec}
use nexus_erofs.Os.Tree.{Files}
use nexus_erofs.Storage.{Labels}

pub record ActiveMount : Type 0 where
  pub mount : Mount
  pub mount_point : Bytes

pub record ActivationInfo : Type 0 where
  pub active : List ActiveMount
  pub system : List Mount

-- the descriptors of package `ocispec`
pub record Descriptor : Type 0 where
  pub media_type : Bytes
  pub size : ℕ
  pub digest : Bytes

-- content.Info; no labels at all is `none`, as a nil map is
pub record ContentInfo : Type 0 where
  pub digest : Bytes
  pub size : ℕ
  pub labels : Option Labels

pub data Compression : Type 0 where
  uncompressed gzip zstd : Compression

-- A stream that compresses what is written to it and passes it to the writer of a reference.
pub record Stream (Meta : Type 0) : Type 0 where
  -- for a reference and a media type
  pub start : Bytes → Bytes → Meta → Result (Unit {0}) × Meta
  pub write : Bytes → Bytes → Meta → Result (Unit {0}) × Meta
  pub close : Bytes → Meta → Result (Unit {0}) × Meta

-- mount.Manager: activation under a name, temporary or not
pub record Manager (Meta : Type 0) : Type 0 where
  pub activate : Bytes → List Mount → Bool → Meta → Result ActivationInfo × Meta
  pub deactivate : Bytes → Meta → Result (Unit {0}) × Meta

-- content.Store; a writer is known by its reference.
pub record ContentStore (Meta : Type 0) : Type 0 where
  pub writer : Bytes → Bytes → Meta → Result (Unit {0}) × Meta
  pub write : Bytes → Bytes → Meta → Result (Unit {0}) × Meta
  pub truncate : Bytes → Meta → Result (Unit {0}) × Meta
  pub close : Bytes → Meta → Result (Unit {0}) × Meta
  -- the digest of what was written
  pub digest : Bytes → Meta → Bytes
  pub commit : Bytes → Bytes → Option Labels → Meta → Result (Unit {0}) × Meta
  pub abort : Bytes → Meta → Result (Unit {0}) × Meta
  pub info : Bytes → Meta → Result ContentInfo
  -- the info with new labels, and the field path that is updated
  pub update : ContentInfo → Bytes → Meta → Result (Unit {0}) × Meta

pub record Services (Meta : Type 0) : Type 0 where
  pub store : ContentStore Meta
  -- mount.WithTempMount and mount.WithReadonlyTempMount
  pub with_temp_mount : List Mount → (Bytes → Exec Meta Bytes) → Exec Meta Bytes
  pub with_readonly_temp_mount : List Mount → (Bytes → Exec Meta Bytes) → Exec Meta Bytes
  -- the tar stream between two trees, in the pieces in which archive.WriteDiff writes it, and
  -- whether the trees could be read to the end
  pub diff_pieces : Bytes → Bytes → Files → List Bytes × Result (Unit {0})
  -- a text of the clock and of random bytes, for mountutils.UniqueRef
  pub unique_text : Meta → Bytes × Meta
  pub compress : Compression → Stream Meta
  pub sha256 : Bytes → Bytes
  -- errdefs.IsAlreadyExists
  pub is_already_exists : Error → Bool
  -- os.TempDir, and the random texts that os.MkdirTemp tries
  pub temp_dir : Bytes
  pub random_texts : List Bytes
  -- unix.Mount of an overlay with its options, and unix.Unmount, on the mount points
  pub mount_overlay : Bytes → Bytes → List Bytes → Result (Unit {0}) × List Bytes
  pub unmount : Bytes → List Bytes → Result (Unit {0}) × List Bytes
