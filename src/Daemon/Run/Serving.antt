-- ===== src/Daemon/Run/Serving.antt =====
-- What `run` of cmd/spin-erofs-snapshotter/main.go has done when it ends without an error, and the
-- configuration that it has served with.
use nexus_erofs.Prelude.{◌≡◌, Bool, true, false, List, [], ◌∷◌, codes, Bytes}
use nexus_erofs.FilePath.{join_path}
use nexus_erofs.Storage.{External}
use nexus_erofs.Snapshotter.Types.{Config}
use nexus_erofs.Snapshotter.Start.{HostFacts}
use nexus_erofs.Daemon.{
  Flags, snapshots, client, database, manager, listener, Event, opened, closed, managing, serving,
  Resource,
}
use nexus_erofs.Daemon.Logs.{Logs}
use nexus_erofs.Daemon.Run.Configured.{IsConfigured}
use nexus_erofs.Daemon.Run.{DaemonTools}

-- what a daemon does from the start to the end, for a mount manager that has a Close and for one
-- that has none
abbrev pub session : Bool → Flags → Config → List Event → List Event
session true flags s before =
    closed (snapshots flags.root)
    ∷ closed (client flags.containerd_address flags.containerd_namespace)
    ∷ closed (database (join_path (flags.root ∷ codes "mounts.db" ∷ [])))
    ∷ closed manager
    ∷ closed (listener flags.address)
    ∷ serving s flags.containerd_namespace
    ∷ opened (listener flags.address)
    ∷ opened manager
    ∷ managing (join_path (flags.root ∷ codes "mounts" ∷ [])) flags.root true
    ∷ opened (database (join_path (flags.root ∷ codes "mounts.db" ∷ [])))
    ∷ opened (client flags.containerd_address flags.containerd_namespace)
    ∷ opened (snapshots flags.root)
    ∷ before
session false flags s before =
    closed (snapshots flags.root)
    ∷ closed (client flags.containerd_address flags.containerd_namespace)
    ∷ closed (database (join_path (flags.root ∷ codes "mounts.db" ∷ [])))
    ∷ closed (listener flags.address)
    ∷ serving s flags.containerd_namespace
    ∷ opened (listener flags.address)
    ∷ managing (join_path (flags.root ∷ codes "mounts" ∷ [])) flags.root false
    ∷ opened (database (join_path (flags.root ∷ codes "mounts.db" ∷ [])))
    ∷ opened (client flags.containerd_address flags.containerd_namespace)
    ∷ opened (snapshots flags.root)
    ∷ before

pub record Served (H : HostFacts) (flags : Flags) (before after : List Event) : Type 0 where
  pub config : Config
  pub configured : IsConfigured H flags config
  pub closes : Bool
  pub log : after ≡ session closes flags config before

module _ (H : HostFacts) (E : External) (D : DaemonTools E.Meta) (random : List Bytes)
    (flags : Flags) where
  abbrev the_client : Resource
  the_client = client flags.containerd_address flags.containerd_namespace

  abbrev the_database : Resource
  the_database = database (join_path (flags.root ∷ codes "mounts.db" ∷ []))

  abbrev made_with : Bool → Event
  made_with = managing (join_path (flags.root ∷ codes "mounts" ∷ [])) flags.root

  -- from the mount manager on
  inner : Bool → Config → List Event → List Event
  inner true s t =
      closed manager
      ∷ closed (listener flags.address)
      ∷ serving s flags.containerd_namespace
      ∷ opened (listener flags.address)
      ∷ opened manager
      ∷ t
  inner false s t =
      closed (listener flags.address)
      ∷ serving s flags.containerd_namespace
      ∷ opened (listener flags.address)
      ∷ t
