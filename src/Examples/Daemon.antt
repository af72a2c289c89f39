-- ===== src/Examples/Daemon.antt =====
-- The theorems on the daemon, on a small host where it is stopped by a signal.
use nexus_erofs.Prelude.{true, List, [], some, Bytes, codes}
use nexus_erofs.Errors.{ok, err, foreign}
use nexus_erofs.Os.{World, pure}
use nexus_erofs.Os.Keeps.{Keeps}
use nexus_erofs.Differ.{Manager}
use nexus_erofs.Snapshotter.Start.{negsuc, HostFacts}
use nexus_erofs.Daemon.{Flags, Traced, traced}
use nexus_erofs.Daemon.Run.{signalled, DaemonTools}
use nexus_erofs.Examples.Host.{world_with}

facts : HostFacts
facts = record {
  running = ok (codes "6.16.1");
  found = true;
  filesystems = ok (codes "\terofs\n");
  supports_d_type = λ root files. ok true;
  goos = codes "linux";
  new_meta_store = λ path files. (ok tt, files);
}

idle_manager : Manager (List Bytes)
idle_manager = record {
  activate = λ name mounts temporary m. (err (foreign 1), m);
  deactivate = λ name m. (ok tt, m);
}

tools : DaemonTools (List Bytes)
unfolding idle_manager pure
tools = record {
  set_level = λ text. ok tt;
  connect = λ address namespace. pure tt;
  disconnect = pure tt;
  open_database = λ path. pure tt;
  close_database = pure tt;
  new_manager = λ path root. pure (idle_manager, some (pure tt));
  listen = λ address. pure tt;
  close_listener = pure tt;
  serve = λ services. pure signalled;
  graceful_stop = pure tt;
}

-- The size is negative.
abbrev flags : Flags
flags = record {
  address = codes "/s/sock";
  root = codes "/r";
  containerd_address = codes "/c";
  containerd_namespace = codes "default";
  log_level = codes "info";
  default_size = negsuc 0;
  set_immutable = true;
}

abbrev start : World (Traced (List Bytes))
start = traced [] (world_with [])
