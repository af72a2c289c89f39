-- ===== src/Daemon.antt =====
-- cmd/spin-erofs-snapshotter/main.go: the daemon's flags, what it holds while it runs, and the record
-- of what it does, which stands beside the metadata in the state.
pub mod Run
pub mod Interceptors
pub mod Logs
use nexus_erofs.Prelude.{
  ℕ, ◌*◌, Bool, true, false, List, [], ◌∷◌, Option, none, some, Bytes, codes, String, if◌then◌else◌,
}
use nexus_erofs.Errors.{Result, ok, err}
use nexus_erofs.Os.{World, Exec, pure, attempt, deferred, ◌>>=◌}
use nexus_erofs.Snapshotter.Types.{Config}
use nexus_erofs.Snapshotter.Start.{ℤ, pos}

-- the flags of main, behind the parse of the command line
pub record Flags : Type 0 where
  pub address : Bytes
  pub root : Bytes
  pub containerd_address : Bytes
  pub containerd_namespace : Bytes
  pub log_level : Bytes
  pub default_size : ℤ
  pub set_immutable : Bool

-- the values of the flags that are not given
unfoldable pub default_flags : Flags
default_flags = record {
  address = codes "/run/spin-stack/erofs-snapshotter.sock";
  root = codes "/var/lib/spin-stack/erofs-snapshotter";
  containerd_address = codes "/var/run/spin-stack/containerd.sock";
  containerd_namespace = codes "default";
  log_level = codes "info";
  default_size = pos (64 * 1024 * 1024);
  set_immutable = true;
}

-- what `run` closes by `defer`, with the texts that the call was given that has opened it
pub data Resource : Type 0 where
  snapshots database listener : Bytes → Resource
  client : Bytes → Bytes → Resource
  manager : Resource

pub data Level : Type 0 where
  info_level warn_level : Level

pub data Event : Type 0 where
  opened closed : Resource → Event
  -- manager.NewManager with its directory and the allowed root, and whether the manager has a Close
  managing : Bytes → Bytes → Bool → Event
  -- rpc.Serve, with the snapshotter's configuration and the store's namespace
  serving : Config → Bytes → Event
  -- a line of the log, with the fields `method` and `md.namespace`
  logged : Level → String → Bytes → Option Bytes → Event

-- The metadata, and what was done before, the newest first.
pub record Traced (Meta : Type 0) : Type 0 where
  pub inner : Meta
  pub trace : List Event

module _ {Meta : Type 0} where
  -- the same state without the record, and with it
  abbrev pub untraced : World (Traced Meta) → World Meta
  untraced w = record {
    files = w.files;
    mounted = w.mounted;
    immutable = w.immutable;
    loops = w.loops;
    meta = w.meta.inner;
    background = w.background;
    faults = w.faults;
  }

  abbrev pub traced : List Event → World Meta → World (Traced Meta)
  traced t w = record {
    files = w.files;
    mounted = w.mounted;
    immutable = w.immutable;
    loops = w.loops;
    meta = record { inner = w.meta; trace = t };
    background = w.background;
    faults = w.faults;
  }

  abbrev pub the_trace : World (Traced Meta) → List Event
  the_trace w = w.meta.trace

  -- an action of a package below
  unfoldable pub inside : {A : Type 0} → Exec Meta A → Exec (Traced Meta) A
  inside m w = let (r, v) = m (untraced w) in (r, traced w.meta.trace v)

  unfoldable pub note : Event → Exec (Traced Meta) (Unit {0})
  note e w = (ok tt, traced (e ∷ w.meta.trace) (untraced w))

  unfoldable pub closing :
      {A : Type 0} → Resource → Exec (Traced Meta) A → Exec (Traced Meta) (Unit {0})
  unfolding note
  closing r last = do _ ← attempt last; note (closed r)

  -- a call that opens: it is recorded where it succeeds
  unfoldable pub opening : {A : Type 0} → Resource → Exec (Traced Meta) A → Exec (Traced Meta) A
  unfolding note
  opening r acquire = do a ← acquire; _ ← note (opened r); pure a

  -- x, err := open(); an error is returned, and behind it come `defer x.Close()` and the rest.
  unfoldable pub holding :
      {A B C : Type 0}
      → Resource
      → Exec (Traced Meta) A
      → (A → Exec (Traced Meta) C)
      → (A → Exec (Traced Meta) B)
      → Exec (Traced Meta) B
  unfolding closing
  holding r acquire release rest = do a ← acquire; deferred (closing r (release a)) (rest a)
