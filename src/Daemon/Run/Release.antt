-- ===== src/Daemon/Run/Release.antt =====
-- What `run` of cmd/spin-erofs-snapshotter/main.go opens and closes, read off the record of what it
-- did.
use nexus_erofs.Prelude.{
  Bool, true, false, List, [], ◌∷◌, Option, none, some, if◌then◌else◌, ◌==◌, ◌&&◌, bytes_eq,
}
use nexus_erofs.Os.{World}
use nexus_erofs.Os.Keeps.{Keeps}
use nexus_erofs.Daemon.Logs.{Silent}
use nexus_erofs.Daemon.{
  Resource, snapshots, client, database, manager, listener, Event, opened, closed, managing,
  serving, logged, Traced,
}

-- the two are the same resource
unfoldable pub same : Resource → Resource → Bool
same (snapshots a) (snapshots b) = a == b
same (client a n) (client b m) = a == b && n == m
same (database a) (database b) = a == b
same manager manager = true
same (listener a) (listener b) = a == b
same r q = false

-- A resource is closed if it is the one that was opened last.
abbrev pub close_last : Resource → Option (List Resource) → Option (List Resource)
close_last r none = none
close_last r (some []) = none
close_last r (some (q ∷ rest)) = if same r q then some rest else none

abbrev pub open_next : Resource → Option (List Resource) → Option (List Resource)
open_next r none = none
open_next r (some rest) = some (r ∷ rest)

-- What is open behind the record, the last first; `none` if something was closed out of turn.
unfoldable pub held : List Event → Option (List Resource)
held [] = some []
held (opened r ∷ events) = open_next r (held events)
held (closed r ∷ events) = close_last r (held events)
held (managing mount_root root closes ∷ events) = held events
held (serving s namespace ∷ events) = held events
held (logged level text method namespace ∷ events) = held events

module _ {Meta : Type 0} where
  abbrev pub now_held : World (Traced Meta) → Option (List Resource)
  now_held w = held w.meta.trace
