-- ===== src/Examples/CommitTool.antt =====
-- The theorem on the tool that commits an image, on a snapshotter that is the list of its keys.
use nexus_erofs.Prelude.{Bool, true, false, List, [], ◌∷◌, none, Bytes, codes}
use nexus_erofs.Errors.{Result, ok, err, foreign}
use nexus_erofs.Mount.{Mount}
use nexus_erofs.Os.{World, pure}
use nexus_erofs.GrpcService.{SnapshotterApi}
use nexus_erofs.Differ.Upload.Tracks.{holds, without}
use nexus_erofs.CommitTool.{CommitTools}
use nexus_erofs.CommitTool.Run.{Request}
use nexus_erofs.Examples.Differ.{new_text}
use nexus_erofs.Examples.Host.{info_of, no_usage}

-- a new key, and what is done with the keys, unless one is there
prepare_in : Bool → Bytes → World (List Bytes) → Result (List Mount) × World (List Bytes)
prepare_in true key w = (err (foreign 1), w)
prepare_in false key w = (
  ok (record { kind = codes "ext4"; source = codes "/rw"; target = []; options = [] } ∷ []),
  record w { meta = key ∷ w.meta },
)

commit_in : Bool → Bytes → Bytes → World (List Bytes) → Result (Unit {0}) × World (List Bytes)
unfolding without
commit_in true name key w = (err (foreign 2), w)
commit_in false name key w = (ok tt, record w { meta = name ∷ without key w.meta })

service : SnapshotterApi (List Bytes)
unfolding prepare_in commit_in holds without pure
service = record {
  prepare = λ key parent opts w. prepare_in (holds key w.meta) key w;
  view = λ key parent opts. pure [];
  mounts = λ key. pure [];
  commit = λ name key opts w. commit_in (holds name w.meta) name key w;
  remove = λ key w. (ok tt, record w { meta = without key w.meta });
  stat = λ key. pure (info_of key);
  update = λ info paths. pure info;
  usage = λ key. pure no_usage;
  walked = λ filters w. ([], ok tt);
  cleanup = none;
}

tools : CommitTools (List Bytes)
unfolding service pure new_text
tools = record {
  Image = Bytes;
  connect = λ address. pure tt;
  disconnect = pure tt;
  get_image = λ name. pure name;
  unpack = λ img name. pure tt;
  root_fs = λ img. pure [];
  target = λ img. record { media_type = []; size = 0; digest = img };
  chain_id = λ ids. codes "chain";
  snapshot_service = λ name. service;
  create_image = λ image. pure tt;
  update_image = λ image. pure tt;
  list_images = pure [];
  unix_nano = λ m. (new_text m, m);
  rfc3339 = λ m. (codes "now", m);
  says_not_found = λ e. false;
  temp_dir = codes "/tmp";
  random_texts = codes "1" ∷ [];
  mount_loop = λ source target points. (true, target ∷ points);
  umount = λ target points. (true, without target points);
}

abbrev request : Request
request = record {
  address = codes "/c";
  snapshotter = codes "spin-erofs";
  source_image = codes "alpine";
  target_image = codes "new";
  marker = codes "/root/marker.txt";
}

abbrev alpine : tools.Image
unfolding tools
alpine = codes "alpine"
