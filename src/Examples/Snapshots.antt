-- ===== src/Examples/Snapshots.antt =====
-- The theorems on the snapshotter, on a small host.
use nexus_erofs.Prelude.{
  ℕ, zero, suc, ◌++◌, ◌≡◌, ◌↔◌, refl, true, false, List, [], ◌∷◌, some, Bytes, codes, bytes_beq,
  All,
}
use mathlib.Core.List.{Mem}
use nexus_erofs.Errors.{Result, ok, err, wrap, foreign, os_error, Errno}
use nexus_erofs.Erofs.BlockSize.{
  can_merge_fsmeta, get_block_size, block_size, is_mergeable, int_lt, shift_one, little_endian,
}
use nexus_erofs.Erofs.BlockSize.Merge.{IsMergeableLayer, can_merge_fsmeta_sound}
use nexus_erofs.Mount.{Mount}
use nexus_erofs.Erofs.Layer.{mounts_to_layer}
use nexus_erofs.FilePath.{join_path, clean, dir, base}
use nexus_erofs.Os.{
  World, ◌>>=◌, attempt, pure, wrapping, raise, lift, system_call, stat, read_dir, read_file,
}
use nexus_erofs.Storage.{with_transaction, query, change}
use nexus_erofs.Strings.{has_prefix, has_suffix}
use nexus_erofs.Os.Tree.{file, lookup, names_in}
use nexus_erofs.Snapshotter.Types.{kind_active, Snapshot, Info}
use nexus_erofs.Snapshotter.Paths.{
  snapshot_dir, snapshots_dir, fsmeta_path, find_layer_blob, glob_blobs, matches_blob,
  block_rw_mount_path,
}
use nexus_erofs.Snapshotter.Host.{unmount_all}
use nexus_erofs.Snapshotter.Mounts.{
  mounts, writable_mount, is_extract_snapshot, active_mounts_for_kind, single_layer_mounts,
}
use nexus_erofs.Snapshotter.Mounts.Shape.{IsActiveList, mounts_active}
use nexus_erofs.Snapshotter.Mounts.Layer.{mounts_to_layer-mounts}
use nexus_erofs.Snapshotter.Commit.{commit, commit_metadata, is_mounted}
use nexus_erofs.Snapshotter.Commit.Atomic.{commit_atomic}
use nexus_erofs.Snapshotter.Remove.{
  remove_snapshot, remove_metadata, get_cleanup_directories, cleanup_after_remove, unreferenced,
  is_known,
}
use nexus_erofs.Snapshotter.Remove.Atomic.{remove_snapshot_atomic}
use nexus_erofs.Snapshotter.Remove.Directories.{IsLeftOver, get_cleanup_directories_iff}
use nexus_erofs.Snapshotter.FsMeta.{generate_fsmeta, lock_path}
use nexus_erofs.Snapshotter.FsMeta.Lock.{generate_fsmeta-locked}
use nexus_erofs.Examples.Host.{
  host, host-IsTransactional, config, world, world_with, files, info_of,
}
use nexus_erofs.Snapshotter.Mounts.Success.{mounts_returned}
use nexus_erofs.Snapshotter.FsMeta.Release.{generate_fsmeta-release}
use nexus_erofs.Prelude.{none}

-- The name is taken: the store refuses the commit, which has found its blob.
commit_refused :
    (commit host config (codes "1") (codes "1") [] world).0
    ≡ err (wrap "commit snapshot" (foreign 2))
unfolding commit ◌>>=◌ attempt wrapping raise lift system_call stat read_dir with_transaction query
    change bytes_beq find_layer_blob glob_blobs matches_blob snapshot_dir clean dir base join_path
    has_prefix has_suffix lookup names_in commit_metadata is_mounted block_rw_mount_path unmount_all
commit_refused = refl

commit_atomic_example :
    (commit host config (codes "1") (codes "1") [] world).1.meta ≡ codes "1" ∷ []
commit_atomic_example =
    commit_atomic host config host-IsTransactional (codes "1") (codes "1") [] world
      (wrap "commit snapshot" (foreign 2)) commit_refused

-- The directory of snapshots is missing: Remove fails behind the removal of the entry.
abbrev broken : World (List Bytes)
broken = world_with []

remove_refused :
    (remove_snapshot host config (codes "1") broken).0
    ≡ err (
        wrap "get directories for removal"
          (wrap "read snapshots directory" (os_error Errno.enoent)))
unfolding remove_snapshot remove_metadata get_cleanup_directories snapshots_dir cleanup_after_remove
    ◌>>=◌ attempt wrapping raise lift system_call stat read_dir with_transaction query change
    bytes_beq clean dir base join_path has_prefix has_suffix lookup names_in
remove_refused = refl

remove_snapshot_atomic_example :
    (remove_snapshot host config (codes "1") broken).1.meta ≡ codes "1" ∷ []
remove_snapshot_atomic_example =
    remove_snapshot_atomic host config host-IsTransactional (codes "1") broken _ remove_refused

abbrev touch : Info → World (List Bytes) → Result (Unit {0}) × World (List Bytes)
touch info w = (ok tt, record w { meta = [] })

one_left_over : (get_cleanup_directories host config world).0 ≡ ok (codes "/r/snapshots/7" ∷ [])
unfolding get_cleanup_directories unreferenced is_known query wrapping base dir read_dir system_call
    pure ◌>>=◌ lookup names_in bytes_beq join_path clean snapshots_dir
one_left_over = refl

get_cleanup_directories_iff_example :
    Mem (codes "/r/snapshots/7") (codes "/r/snapshots/7" ∷ [])
    ↔ ∥ IsLeftOver host config world (codes "/r/snapshots/7") ∥₁
get_cleanup_directories_iff_example =
    get_cleanup_directories_iff host config world (codes "/r/snapshots/7" ∷ [])
      (codes "/r/snapshots/7") one_left_over

abbrev chain : List Bytes
chain = codes "1" ∷ []

abbrev locked_world : World (List Bytes)
locked_world = world_with ((lock_path config (codes "1"), file []) ∷ files)

lock_stands : lookup (lock_path config (codes "1")) locked_world.files ≡ some (file [])
unfolding lookup fsmeta_path join_path clean bytes_beq
lock_stands = refl

generate_fsmeta-locked_example :
    (generate_fsmeta host config chain locked_world).1.files ≡ locked_world.files
generate_fsmeta-locked_example =
    generate_fsmeta-locked host config (codes "1") [] (file []) locked_world lock_stands

abbrev active : Snapshot
active = record { kind = kind_active; id = codes "1"; parent_ids = [] }

abbrev active_list : List Mount
active_list = writable_mount config (codes "1") ∷ []

mounts_run : (mounts config active (info_of (codes "1")) world).0 ≡ ok active_list
unfolding mounts is_extract_snapshot active_mounts_for_kind single_layer_mounts ◌>>=◌ bytes_beq
mounts_run = refl

no_label : is_extract_snapshot (info_of (codes "1")) ≡ false
unfolding is_extract_snapshot bytes_beq
no_label = refl

mounts_active_example : IsActiveList config (codes "1") active_list
mounts_active_example =
    mounts_active config active (info_of (codes "1")) world active_list refl no_label mounts_run

-- Prepare has left its marker.
abbrev marked_world : World (List Bytes)
marked_world = world_with ((codes "/r/snapshots/1/.erofslayer", file []) ∷ files)

marker_stands :
    lookup
      (join_path (snapshot_dir config (codes "1") ∷ codes ".erofslayer" ∷ []))
      marked_world.files
    ≡ some (file [])
unfolding lookup snapshot_dir join_path clean bytes_beq
marker_stands = refl

mounts_to_layer-mounts_example :
    mounts_to_layer active_list marked_world ≡ (ok (snapshot_dir config (codes "1")), marked_world)
mounts_to_layer-mounts_example =
    mounts_to_layer-mounts config active (info_of (codes "1")) world marked_world active_list
      (file []) refl mounts_run marker_stands refl

-- An EROFS image with blocks of 4096 bytes, as far as it is read.
zeros : ℕ → Bytes
zeros zero = []
zeros (suc n) = 0 ∷ zeros n

abbrev image : Bytes
image = zeros 1024 ++ 0xE2 ∷ 0xE1 ∷ 0xF5 ∷ 0xE0 ∷ (zeros 8 ++ 12 ∷ 0 ∷ 0 ∷ 0 ∷ [])

abbrev image_world : World (List Bytes)
image_world = world_with ((codes "/r/a.erofs", file image) ∷ [])

merge_allowed : (can_merge_fsmeta (codes "/r/a.erofs" ∷ []) image_world).0 ≡ true
unfolding zeros can_merge_fsmeta get_block_size block_size is_mergeable int_lt shift_one
    little_endian read_file wrapping system_call lookup bytes_beq
merge_allowed = refl

can_merge_fsmeta_example : All (IsMergeableLayer image_world.files) (codes "/r/a.erofs" ∷ [])
can_merge_fsmeta_example =
    can_merge_fsmeta_sound (codes "/r/a.erofs" ∷ []) image_world merge_allowed

abbrev child : Snapshot
child = record { kind = kind_active; id = codes "2"; parent_ids = codes "1" ∷ [] }

parent_blob :
    (find_layer_blob config (codes "1") world).0 ≡ ok (codes "/r/snapshots/1/sha256-a.erofs")
unfolding find_layer_blob glob_blobs matches_blob snapshot_dir ◌>>=◌ attempt system_call read_dir
    lookup names_in bytes_beq join_path clean dir base has_prefix has_suffix
parent_blob = refl

child_label : is_extract_snapshot (info_of (codes "2")) ≡ false
unfolding is_extract_snapshot bytes_beq
child_label = refl

mounts_returned_example :
    (ms : List Mount) × (mounts config child (info_of (codes "2")) world ≡ (ok ms, world))
mounts_returned_example =
    mounts_returned config child (info_of (codes "2")) world refl child_label refl
      (record { blob = codes "/r/snapshots/1/sha256-a.erofs"; found = parent_blob }, tt)

lock_absent : lookup (lock_path config (codes "1")) world.files ≡ none
unfolding lookup fsmeta_path join_path clean bytes_beq
lock_absent = refl

generate_fsmeta-release_example :
    lookup
      (lock_path config (codes "1"))
      (generate_fsmeta host config (codes "1" ∷ []) world).1.files
    ≡ none
generate_fsmeta-release_example =
    generate_fsmeta-release host config (codes "1") [] world refl lock_absent
