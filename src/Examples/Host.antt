-- ===== src/Examples/Host.antt =====
-- A small host: its metadata store is the list of the keys that it knows, and each snapshot's
-- identifier is its key. Its commands and its mounts succeed.
use nexus_erofs.Prelude.{
  ◌≡◌, refl, inl, Bool, true, false, List, [], ◌∷◌, some, Bytes, codes, ◌==◌, bytes_eq,
  if◌then◌else◌,
}
use nexus_erofs.Errors.{Result, ok, err, foreign}
use nexus_erofs.Os.{World}
use nexus_erofs.Os.Tree.{Node, Files, file, folder}
use nexus_erofs.Storage.{External, IsTransactional}
use nexus_erofs.Snapshotter.Types.{Config, kind_active, kind_committed, Info, Usage}

abbrev pub no_usage : Usage
no_usage = record { inodes = 1; size = 4096 }

abbrev pub info_of : Bytes → Info
info_of key = record { kind = kind_active; name = key; labels = [] }

abbrev knows : List Bytes → Bytes → Bool
knows [] key = false
knows (k ∷ ks) key = if k == key then true else knows ks key

abbrev forget : List Bytes → Bytes → List Bytes
forget [] key = []
forget (k ∷ ks) key = let rest = forget ks key in if k == key then rest else k ∷ rest

abbrev kept : Bool → Bool → List Bytes → List Bytes → Result (Unit {0}) × List Bytes
kept true true before after = (ok tt, after)
kept true false before after = (ok tt, before)
kept false true before after = (ok tt, before)
kept false false before after = (ok tt, before)

abbrev pub host : External
host = record {
  Meta = List Bytes;
  create_snapshot = λ kind key parent opts m.
      ok (record { kind = kind; id = key; parent_ids = parent ∷ [] }, key ∷ m);
  get_info = λ key m. if knows m key then ok (key, info_of key, no_usage) else err (foreign 1);
  get_snapshot = λ key m.
      if knows m key
      then ok (record { kind = kind_active; id = key; parent_ids = [] })
      else err (foreign 1);
  id_map = λ m. ok m;
  remove_snapshot =
      λ key m. if knows m key then ok ((key, kind_committed), forget m key) else err (foreign 1);
  commit_active = λ key name u opts m. if knows m name then err (foreign 2) else ok (name ∷ m);
  update_info = λ info paths m. ok (info, m);
  walk_info = λ filters m. ok [];
  begin = λ writable m. ok tt;
  finish = kept;
  disk_usage = λ p files. ok no_usage;
  unmount_all = λ target lazily points. (ok tt, []);
  do_mount = λ m target points. (ok tt, target ∷ points);
  is_mount_point = λ target points. ok (knows points target);
  mkfs_erofs = λ args files. (true, files);
  mkfs_ext4 = λ args files. (true, files);
  unpack_key_prefix = codes "extract";
  parse_digest = λ d. some d;
}

pub host-IsTransactional : IsTransactional host
host-IsTransactional = record {
  rolled_back = rolled_back;
  atomic = λ before after. inl refl;
  read_only = λ before after. refl;
}
  where
    rolled_back :
        (writable : Bool) (before after : List Bytes)
        → (kept writable false before after).1 ≡ before
    rolled_back true before after = refl
    rolled_back false before after = refl

abbrev pub config : Config
config = record { root = codes "/r"; set_immutable = false; default_writable = 64 }

abbrev pub files : Files
files =
    (codes "/r/snapshots", folder)
    ∷ (codes "/r/snapshots/1", folder)
    ∷ (codes "/r/snapshots/1/sha256-a.erofs", file [])
    ∷ (codes "/r/snapshots/7", folder)
    ∷ []

abbrev pub world_with : List (Bytes × Node) → World (List Bytes)
world_with fs = record {
  files = fs;
  mounted = [];
  immutable = [];
  loops = [];
  meta = codes "1" ∷ [];
  background = [];
  faults = [];
}

abbrev pub world : World (List Bytes)
world = world_with files
