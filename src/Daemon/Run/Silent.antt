-- ===== src/Daemon/Run/Silent.antt =====
-- The parts of `run` of cmd/spin-erofs-snapshotter/main.go that open and close nothing.
use nexus_erofs.Prelude.{List, Bytes}
use nexus_erofs.Errors.{ok, err}
use nexus_erofs.Os.Keeps.{
  Keeps-bind, Keeps-lift, Keeps-pure, Keeps-raise, Keeps-wrapping, Keeps-attempt, mkdir_all-meta,
  remove-meta,
}
use nexus_erofs.Storage.{External}
use nexus_erofs.Snapshotter.Start.{HostFacts}
use nexus_erofs.Daemon.{Flags}
use nexus_erofs.Daemon.Logs.{Silent, inside-Silent, meta-Silent}
use nexus_erofs.Daemon.Run.{Wakeup, signalled, returned, DaemonTools, woken, prepared}

module _ (H : HostFacts) (E : External) (D : DaemonTools E.Meta) (random : List Bytes)
    (flags : Flags) where
  pub woken-Silent : (wakeup : Wakeup) → Silent (woken H E D random flags wakeup)
  unfolding woken
  woken-Silent signalled = inside-Silent _
  woken-Silent (returned (ok _)) = Keeps-pure _
  woken-Silent (returned (err e)) = Keeps-raise _

  pub prepared-Silent : Silent (prepared H E D random flags)
  unfolding prepared
  prepared-Silent = Keeps-bind _ _ (Keeps-lift _) λ _.
      Keeps-bind _ _ (Keeps-wrapping _ _ (meta-Silent _ (mkdir_all-meta _))) λ _.
        Keeps-bind _ _ (Keeps-wrapping _ _ (meta-Silent _ (mkdir_all-meta _))) λ _.
          Keeps-bind _ _ (Keeps-attempt _ (meta-Silent _ (remove-meta _))) λ removed. Keeps-lift _
