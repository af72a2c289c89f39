-- ===== src/Daemon/Run.antt =====
-- `run` of cmd/spin-erofs-snapshotter/main.go. The client of containerd, the database, the mount
-- manager, the socket and the gRPC server are parameters.
pub mod Configured
pub mod Silent
pub mod Release
pub mod Serving
use nexus_erofs.Prelude.{
  ℕ, zero, suc, Bool, true, false, List, [], ◌∷◌, ◌++◌, Option, none, some, Bytes, codes,
  if◌then◌else◌,
}
use nexus_erofs.FilePath.{dir, join_path}
use nexus_erofs.Errors.{Error, Result, ok, err, os_error, Errno, enoent, wrap}
use nexus_erofs.Os.{
  World, Exec, pure, raise, lift, attempt, wrapping, deferred, mkdir_all, remove, ◌>>=◌,
}
use nexus_erofs.Preflight.{check}
use nexus_erofs.Storage.{External}
use nexus_erofs.GrpcService.{SnapshotterApi}
use nexus_erofs.Differ.{Manager}
use nexus_erofs.Differ.Options.{DifferOpt, with_mount_manager, new_erofs_differ}
use nexus_erofs.Snapshotter.Types.{Config}
use nexus_erofs.Snapshotter.Start.{
  ℤ, pos, negsuc, Opt, with_default_size, with_immutable, HostFacts, new_snapshotter,
}
use nexus_erofs.Snapshotter.Startup.{close}
use nexus_erofs.Snapshotter.Api.{snapshotter_api}
use nexus_erofs.Daemon.{
  Flags, Resource, snapshots, client, database, manager, listener, Event, managing, serving, Traced,
  inside, note, opening, holding,
}

-- what is registered at the gRPC server: the snapshots' service, and the differ with the default
-- namespace of its content store and its resolver
pub record Registered (Meta : Type 0) : Type 0 where
  pub service : SnapshotterApi Meta
  pub namespace : Bytes
  pub resolver : Option (Option (Manager Meta))

-- the case of `select`: a signal, or the return of rpc.Serve
pub data Wakeup : Type 0 where
  signalled : Wakeup
  returned : Result (Unit {0}) → Wakeup

pub record DaemonTools (Meta : Type 0) : Type 0 where
  -- log.SetLevel
  pub set_level : Bytes → Result (Unit {0})
  -- containerd.New with the default namespace, and Close
  pub connect : Bytes → Bytes → Exec Meta (Unit {0})
  pub disconnect : Exec Meta (Unit {0})
  -- bolt.Open, and Close
  pub open_database : Bytes → Exec Meta (Unit {0})
  pub close_database : Exec Meta (Unit {0})
  -- manager.NewManager in a directory, with the allowed root, and Close where it has one
  pub new_manager : Bytes → Bytes → Exec Meta (Manager Meta × Option (Exec Meta (Unit {0})))
  -- net.Listen, and Close
  pub listen : Bytes → Exec Meta (Unit {0})
  pub close_listener : Exec Meta (Unit {0})
  -- rpc.Serve until `select` goes on, and GracefulStop
  pub serve : Registered Meta → Exec Meta Wakeup
  pub graceful_stop : Exec Meta (Unit {0})

size_opts : ℤ → List Opt
size_opts (pos zero) = []
size_opts (pos (suc n)) = with_default_size (pos (suc n)) ∷ []
size_opts (negsuc n) = []

immutable_opts : Bool → List Opt
immutable_opts true = with_immutable ∷ []
immutable_opts false = []

-- snapshotterOpts
unfoldable pub snapshotter_opts : Flags → List Opt
unfolding size_opts immutable_opts
snapshotter_opts flags = size_opts flags.default_size ++ immutable_opts flags.set_immutable

ignore_missing : Result (Unit {0}) → Result (Unit {0})
ignore_missing (ok _) = ok tt
ignore_missing (err (os_error enoent)) = ok tt
ignore_missing (err e) = err (wrap "failed to remove existing socket" e)

module _ (H : HostFacts) (E : External) (D : DaemonTools E.Meta) (random : List Bytes)
    (flags : Flags) where
  pub woken : Wakeup → Exec (Traced E.Meta) (Unit {0})
  woken signalled = inside D.graceful_stop
  woken (returned (ok _)) = pure tt
  woken (returned (err e)) = raise (wrap "server error" e)

  -- The calls, each with the record of what it was given.
  listen : Bytes → Exec (Traced E.Meta) (Unit {0})
  listen address =
      opening (listener address) (wrapping "failed to listen on socket" (inside (D.listen address)))

  -- the registrations at the server, and rpc.Serve
  pub serve : Config → Manager E.Meta → Bytes → Exec (Traced E.Meta) Wakeup
  serve s mm namespace = do
    _ ← note (serving s namespace)
    inside (
        D.serve (record {
          service = snapshotter_api E s random;
          namespace = namespace;
          resolver = new_erofs_differ (with_mount_manager (some mm) ∷ []);
        }))

  pub has_close : Option (Exec E.Meta (Unit {0})) → Bool
  has_close none = false
  has_close (some _) = true

  new_manager :
      Bytes → Bytes → Exec (Traced E.Meta) (Manager E.Meta × Option (Exec E.Meta (Unit {0})))
  unfolding has_close
  new_manager mount_root root = do
    made ← wrapping "failed to create mount manager" (inside (D.new_manager mount_root root))
    _ ← note (managing mount_root root (has_close made.1))
    pure made

  open_database : Bytes → Exec (Traced E.Meta) (Unit {0})
  open_database path =
      opening (database path)
        (wrapping "failed to open mount database" (inside (D.open_database path)))

  connect : Bytes → Bytes → Exec (Traced E.Meta) (Unit {0})
  connect address namespace =
      opening (client address namespace)
        (wrapping "failed to connect to containerd" (inside (D.connect address namespace)))

  open_snapshotter : Bytes → List Opt → Exec (Traced E.Meta) Config
  open_snapshotter root opts =
      opening (snapshots root)
        (wrapping "failed to create snapshotter" (inside (new_snapshotter H E root opts)))

  -- from net.Listen on; the differ has the mount manager
  with_manager : Config → Manager E.Meta → Exec (Traced E.Meta) (Unit {0})
  unfolding woken listen serve
  with_manager s mm =
      holding (listener flags.address) (listen flags.address) (λ _. inside D.close_listener)
        λ _. do wakeup ← serve s mm flags.containerd_namespace; woken wakeup

  -- a manager that has no Close is not closed
  closed_if_any :
      Config → Manager E.Meta × Option (Exec E.Meta (Unit {0})) → Exec (Traced E.Meta) (Unit {0})
  unfolding with_manager
  closed_if_any s (mm, none) = with_manager s mm
  closed_if_any s (mm, some close_manager) =
      holding manager (opening manager (pure tt)) (λ _. inside close_manager)
        (λ _. with_manager s mm)

  with_database : Config → Exec (Traced E.Meta) (Unit {0})
  unfolding closed_if_any new_manager
  with_database s = do
    made ← new_manager (join_path (flags.root ∷ codes "mounts" ∷ [])) flags.root
    closed_if_any s made

  with_client : Config → Exec (Traced E.Meta) (Unit {0})
  unfolding with_database open_database
  with_client s = do
    let path = join_path (flags.root ∷ codes "mounts.db" ∷ [])
    holding (database path) (open_database path) (λ _. inside D.close_database) λ _. with_database s

  with_snapshotter : Config → Exec (Traced E.Meta) (Unit {0})
  unfolding with_client connect
  with_snapshotter s =
      holding (client flags.containerd_address flags.containerd_namespace)
        (connect flags.containerd_address flags.containerd_namespace) (λ _. inside D.disconnect)
        λ _. with_client s

  pub prepared : Exec (Traced E.Meta) (Unit {0})
  unfolding ignore_missing
  prepared = do
    _ ← lift (D.set_level flags.log_level)
    _ ← wrapping "failed to create root directory" (mkdir_all flags.root)
    _ ← wrapping "failed to create socket directory" (mkdir_all (dir flags.address))
    removed ← attempt (remove flags.address)
    lift (ignore_missing removed)

  -- run
  unfoldable pub run : Exec (Traced E.Meta) (Unit {0})
  unfolding prepared snapshotter_opts open_snapshotter with_snapshotter
  run = do
    _ ← prepared
    holding (snapshots flags.root) (open_snapshotter flags.root (snapshotter_opts flags))
        (λ s. inside (close E s)) with_snapshotter

-- os.Exit
exit_code : Result (Unit {0}) → ℕ
exit_code (ok _) = 0
exit_code (err _) = 1

module _ (H : HostFacts) (E : External) (D : DaemonTools E.Meta) (random : List Bytes)
    (flags : Flags) where
  main_checked : Result (Unit {0}) → Exec (Traced E.Meta) ℕ
  unfolding exit_code run
  main_checked (err _) = pure 1
  main_checked (ok _) = do outcome ← attempt (run H E D random flags); pure (exit_code outcome)

  -- main, with flags that could be parsed
  unfoldable pub main : Exec (Traced E.Meta) ℕ
  unfolding main_checked check
  main = main_checked (check H.running H.found H.filesystems)
