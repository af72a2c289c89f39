-- ===== src/CommitTool.antt =====
-- cmd/integration-commit/main.go: what the tool takes from the client of containerd, from the clock
-- and from the commands that it runs. All of these are parameters.
pub mod Write
pub mod Run
use nexus_erofs.Prelude.{Bool, List, Bytes}
use nexus_erofs.Errors.{Error, Result}
use nexus_erofs.Os.{Exec}
use nexus_erofs.Storage.{Labels}
use nexus_erofs.GrpcService.{SnapshotterApi}
use nexus_erofs.Differ.{Descriptor}

-- images.Image, as far as the tool fills it
pub record NewImage : Type 0 where
  pub name : Bytes
  pub target : Descriptor
  pub labels : Labels

pub record CommitTools (Meta : Type 0) : Type 1 where
  -- client.Image
  pub Image : Type 0
  -- client.New, and Close
  pub connect : Bytes → Exec Meta (Unit {0})
  pub disconnect : Exec Meta (Unit {0})
  pub get_image : Bytes → Exec Meta Image
  pub unpack : Image → Bytes → Exec Meta (Unit {0})
  pub root_fs : Image → Exec Meta (List Bytes)
  pub target : Image → Descriptor
  -- identity.ChainID
  pub chain_id : List Bytes → Bytes
  pub snapshot_service : Bytes → SnapshotterApi Meta
  pub create_image : NewImage → Exec Meta (Unit {0})
  pub update_image : NewImage → Exec Meta (Unit {0})
  pub list_images : Exec Meta (List Bytes)
  -- time.Now, as nanoseconds and in the format RFC3339
  pub unix_nano : Meta → Bytes × Meta
  pub rfc3339 : Meta → Bytes × Meta
  -- whether the text of an error contains `not found`
  pub says_not_found : Error → Bool
  -- os.TempDir, and the random texts that os.MkdirTemp tries
  pub temp_dir : Bytes
  pub random_texts : List Bytes
  -- `mount -o loop`, `umount` and `sync`: whether the exit status is 0, and the mount points behind
  -- the run
  pub mount_loop : Bytes → Bytes → List Bytes → Bool × List Bytes
  pub umount : Bytes → List Bytes → Bool × List Bytes
