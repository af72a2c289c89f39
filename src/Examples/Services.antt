-- ===== src/Examples/Services.antt =====
-- The theorems on the services: a store that reports its namespace, and a snapshotter of 2 infos.
use nexus_erofs.Prelude.{◌≡◌, refl, List, [], ◌∷◌, map, none, some, Bytes, codes}
use nexus_erofs.Errors.{Result, ok, foreign}
use nexus_erofs.Os.{World, pure, raise}
use nexus_erofs.Differ.{Descriptor, ContentInfo}
use nexus_erofs.Store.{ClientStore}
use nexus_erofs.Store.Namespaces.{Forwarded, Refused, methods_namespaced}
use nexus_erofs.Snapshotter.Types.{Info}
use nexus_erofs.GrpcService.{SnapshotterApi, Messages, list_snapshots}
use nexus_erofs.GrpcService.Batches.{IsSentInBlocks, list_snapshots-IsSentInBlocks}
use nexus_erofs.Examples.Host.{world, info_of, no_usage}

-- Each operation returns the namespace that it was called in, or nothing.
client : ClientStore (List Bytes)
client = record {
  ReaderAt = Bytes;
  Writer = Bytes;
  WriterOpt = Bytes;
  Status = Bytes;
  reader_at = λ ns desc. pure ns;
  writer = λ ns opts. pure ns;
  abort = λ ns ref. pure tt;
  status = λ ns ref. pure ns;
  list_statuses = λ ns filters. pure (ns ∷ []);
  info = λ ns digest. raise (foreign 1);
  update = λ ns changed paths. pure changed;
  walk = λ ns fn filters. pure tt;
  delete = λ ns digest. pure tt;
}

abbrev a_descriptor : Descriptor
a_descriptor = record { media_type = []; size = 3; digest = codes "sha256:a" }

abbrev an_info : ContentInfo
an_info = record { digest = codes "sha256:a"; size = 3; labels = none }

abbrev ignore : ContentInfo → World (List Bytes) → Result (Unit {0}) × World (List Bytes)
ignore i w = (ok tt, w)

methods_namespaced_example :
    Forwarded client a_descriptor [] [] [] an_info ignore world
      (codes "default")
      (some (codes "k8s.io"))
      (codes "k8s.io")
    × Forwarded client a_descriptor [] [] [] an_info ignore world
        (codes "k8s.io")
        none
        (codes "k8s.io")
    × Forwarded client a_descriptor [] [] [] an_info ignore world
        (codes "k8s.io")
        (some [])
        (codes "k8s.io")
    × Refused client a_descriptor [] [] [] an_info ignore world [] none
    × Refused client a_descriptor [] [] [] an_info ignore world [] (some [])
methods_namespaced_example =
    methods_namespaced client a_descriptor [] [] [] an_info ignore world b'k' (codes "8s.io")
      (codes "default")

two_infos : List Info
two_infos = info_of (codes "1") ∷ info_of (codes "2") ∷ []

lister : SnapshotterApi (List Bytes)
lister = record {
  prepare = λ key parent opts. pure [];
  view = λ key parent opts. pure [];
  mounts = λ key. pure [];
  commit = λ name key opts. pure tt;
  remove = λ key. pure tt;
  stat = λ key. pure (info_of key);
  update = λ changed paths. pure changed;
  usage = λ key. pure no_usage;
  walked = λ filters w. (two_infos, ok tt);
  cleanup = none;
}

plain_messages : Messages
plain_messages = record {
  MountMessage = Unit;
  InfoMessage = Info;
  to_grpc = λ e. e;
  mounts_to_proto = λ ms. [];
  info_to_proto = λ i. i;
  info_from_proto = λ i. i;
}

-- The stream takes every block.
taken :
    List plain_messages.InfoMessage → World (List Bytes) → Result (Unit {0}) × World (List Bytes)
taken block w = (ok tt, w)

passed : (lister.walked [] world).1 ≡ ok tt
unfolding lister
passed = refl

list_snapshots_example :
    IsSentInBlocks lister plain_messages taken
      (map plain_messages.info_to_proto (lister.walked [] world).0)
      (list_snapshots lister plain_messages taken [])
      world
list_snapshots_example = list_snapshots-IsSentInBlocks lister plain_messages taken [] world passed
