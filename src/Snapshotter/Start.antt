-- ===== src/Snapshotter/Start.antt =====
-- NewSnapshotter and its options, of internal/snapshotter/snapshotter.go, and checkCompatibility of
-- internal/snapshotter/snapshotter_linux.go. What the system answers is a parameter.
pub mod Checked
use nexus_erofs.Prelude.{
  ℕ, zero, suc, ◌*◌, Bool, true, false, not, ◌&&◌, List, [], ◌∷◌, Bytes, codes, ◌==◌, bytes_eq,
  if◌then◌else◌,
}
use nexus_erofs.FilePath.{join_path}
use nexus_erofs.Errors.{Error, Result, ok, err, os_error, Errno, eexist, message, wrap}
use nexus_erofs.Os.{
  World, Exec, pure, raise, lift, attempt, wrapping, system_call, mkdir, mkdir_all, ◌>>=◌,
}
use nexus_erofs.Os.Tree.{Files}
use nexus_erofs.Preflight.{check}
use nexus_erofs.Storage.{External}
use nexus_erofs.Snapshotter.Types.{Config}
use nexus_erofs.Snapshotter.Paths.{snapshots_dir_name}
use nexus_erofs.Snapshotter.Startup.{cleanup_orphaned_mounts}

-- int64
pub data ℤ : Type 0 where
  pos negsuc : ℕ → ℤ

-- SnapshotterConfig
pub record SnapshotterConfig : Type 0 where
  pub immutable : Bool
  pub default_size : ℤ

-- WithImmutable and WithDefaultSize
pub data Opt : Type 0 where
  with_immutable : Opt
  with_default_size : ℤ → Opt

unfoldable pub apply_opt : Opt → SnapshotterConfig → SnapshotterConfig
apply_opt with_immutable c = record c { immutable = true }
apply_opt (with_default_size size) c = record c { default_size = size }

unfoldable pub apply_opts : List Opt → SnapshotterConfig → SnapshotterConfig
unfolding apply_opt
apply_opts [] c = c
apply_opts (o ∷ os) c = apply_opts os (apply_opt o c)

abbrev pub default_writable_size : ℕ
default_writable_size = 64 * 1024 * 1024

abbrev pub initial_config : SnapshotterConfig
initial_config = record { immutable = false; default_size = pos default_writable_size }

pub record HostFacts : Type 0 where
  -- uname, the search for mkfs.erofs, and /proc/filesystems
  pub running : Result Bytes
  pub found : Bool
  pub filesystems : Result Bytes
  -- fs.SupportsDType
  pub supports_d_type : Bytes → Files → Result Bool
  -- runtime.GOOS
  pub goos : Bytes
  -- storage.NewMetaStore
  pub new_meta_store : Bytes → Files → Result (Unit {0}) × Files

-- the test of the size
unfoldable pub positive_size : ℤ → Result ℕ
positive_size (pos (suc n)) = ok (suc n)
positive_size (pos zero) = err (message "default_writable_size must be > 0")
positive_size (negsuc n) = err (message "default_writable_size must be > 0")

d_type_result : Bool → Result (Unit {0})
d_type_result true = ok tt
d_type_result false = err (message "the backing filesystem does not support d_type")

ignore_taken : Result (Unit {0}) → Result (Unit {0})
ignore_taken (ok _) = ok tt
ignore_taken (err (os_error eexist)) = ok tt
ignore_taken (err e) = err (wrap "create snapshots directory" e)

module _ (H : HostFacts) {Meta : Type 0} where
  -- checkCompatibility
  unfoldable pub check_compatibility : Bytes → Exec Meta (Unit {0})
  unfolding d_type_result check
  check_compatibility root = do
    _ ← wrapping "preflight check failed" (lift (check H.running H.found H.filesystems))
    supported ← (λ w. (H.supports_d_type root w.files, w))
    lift (d_type_result supported)

  check_goos : Bool → Exec Meta (Unit {0})
  check_goos immutable =
      if immutable && not (H.goos == codes "linux")
      then raise (message "setting IMMUTABLE_FL is only supported on Linux")
      else pure tt

  store_in : Result (Unit {0}) × Files → World Meta → Result (Unit {0}) × World Meta
  store_in (r, files) w = (r, record w { files = files })

  make_meta_store : Bytes → Exec Meta (Unit {0})
  unfolding store_in
  make_meta_store path = system_call λ w. store_in (H.new_meta_store path w.files) w

module _ (H : HostFacts) (E : External) where
  -- NewSnapshotter
  unfoldable pub new_snapshotter : Bytes → List Opt → Exec E.Meta Config
  unfolding apply_opts positive_size check_goos make_meta_store ignore_taken
  new_snapshotter root opts = do
    let config = apply_opts opts initial_config
    _ ← wrapping "create root directory" (mkdir_all root)
    size ← lift (positive_size config.default_size)
    _ ← wrapping "compatibility check" (check_compatibility H root)
    _ ← check_goos H config.immutable
    _ ←
        wrapping "create metadata store"
          (make_meta_store H (join_path (root ∷ codes "metadata.db" ∷ [])))
    made ← attempt (mkdir (join_path (root ∷ snapshots_dir_name ∷ [])))
    _ ← lift (ignore_taken made)
    let s : Config = record {
      root = root;
      set_immutable = config.immutable;
      default_writable = size;
    }
    _ ← cleanup_orphaned_mounts E s
    pure s
