-- ===== src/Snapshotter/Mounts.antt =====
-- internal/snapshotter/mounts.go: the mounts that a snapshot is given by.
pub mod Shape
pub mod Layer
pub mod Success
pub mod Untouched
use nexus_erofs.Prelude.{
  ℕ, Bool, true, false, List, [], ◌∷◌, ◌++◌, reverse, map, Option, none, some, Bytes, codes, ◌==◌,
  bytes_eq, if◌then◌else◌,
}
use nexus_erofs.FilePath.{join_path}
use nexus_erofs.Errors.{Error, Result, ok, err, message, wrap, Errno, eexist, os_error}
use nexus_erofs.Mount.{Mount}
use nexus_erofs.Os.{
  World, Exec, pure, raise, lift, attempt, wrapping, stat, mkdir_all, create_exclusive, ◌>>=◌, ◌>>◌,
}
use nexus_erofs.Erofs.Layer.{erofs_layer_marker}
use nexus_erofs.Snapshotter.Types.{
  Config, Kind, kind_unknown, kind_view, kind_active, kind_committed, Snapshot, Info,
}
use nexus_erofs.Snapshotter.Paths.{
  writable_path, block_upper_path, fsmeta_path, vmdk_path, view_lower_path, snapshot_dir,
  find_layer_blob, lower_path,
}

abbrev pub mount_of : Bytes → Bytes → List Bytes → Mount
mount_of kind source options = record {
  kind = kind;
  source = source;
  target = [];
  options = options;
}

-- extractLabel of internal/snapshotter/snapshotter.go
abbrev pub extract_label : Bytes
extract_label = codes "containerd.io/snapshot/erofs.extract"

unfoldable pub label : Bytes → List (Bytes × Bytes) → Bytes
label k [] = []
label k ((j, v) ∷ ls) = if j == k then v else label k ls

-- isExtractSnapshot
unfoldable pub is_extract_snapshot : Info → Bool
unfolding label
is_extract_snapshot info = label extract_label info.labels == codes "true"

unfoldable pub erofs_mount : Bytes → Mount
erofs_mount path = mount_of (codes "erofs") path (codes "ro" ∷ codes "loop" ∷ [])

unfoldable pub writable_mount : Config → Bytes → Mount
writable_mount s id = mount_of (codes "ext4") (writable_path s id) (codes "rw" ∷ codes "loop" ∷ [])

unfoldable pub fsmeta_mount : Config → Bytes → List Bytes → Mount
fsmeta_mount s parent devices =
    mount_of (codes "format/erofs") (fsmeta_path s parent) (codes "ro" ∷ codes "loop" ∷ devices)

abbrev pub device : Bytes → Bytes
device blob = codes "device=" ++ blob

ignore_exists : Result (Unit {0}) → Result (Unit {0})
ignore_exists (ok _) = ok tt
ignore_exists (err (os_error eexist)) = ok tt
ignore_exists (err e) = err (wrap "create marker file" e)

module _ {Meta : Type 0} where
  -- ensureMarkerFile of internal/snapshotter/operations.go
  unfoldable pub ensure_marker_file : Bytes → Exec Meta (Unit {0})
  unfolding ignore_exists
  ensure_marker_file path = do
    created ← attempt (create_exclusive path)
    lift (ignore_exists created)

  -- the loop of mountFsMeta, over the parents in the order in which it takes them
  unfoldable pub device_options : Config → List Bytes → Exec Meta (List Bytes)
  device_options s [] = pure []
  device_options s (id ∷ ids) = do
    blob ← find_layer_blob s id
    rest ← device_options s ids
    pure (device blob ∷ rest)

  unfoldable pub fsmeta_result : Config → Bytes → Result (List Bytes) → Exec Meta (Option Mount)
  unfolding fsmeta_mount
  fsmeta_result s parent (ok devices) = pure (some (fsmeta_mount s parent devices))
  fsmeta_result s parent (err _) = pure none

  -- mountFsMeta; any error means that there is no such mount.
  unfoldable pub mount_fsmeta : Config → List Bytes → Exec Meta (Option Mount)
  unfolding fsmeta_result
  mount_fsmeta s [] = pure none
  mount_fsmeta s (parent ∷ others) = do
    found ← attempt (do
      _ ← stat (vmdk_path s parent)
      _ ← stat (fsmeta_path s parent)
      device_options s (reverse (parent ∷ others)))
    fsmeta_result s parent found

  -- getErofsLayerPaths
  unfoldable pub get_erofs_layer_paths : Config → List Bytes → Exec Meta (List Bytes)
  get_erofs_layer_paths s [] = pure []
  get_erofs_layer_paths s (id ∷ ids) = do
    blob ← lower_path s id
    rest ← get_erofs_layer_paths s ids
    pure (blob ∷ rest)

  layer_mounts : Config → List Bytes → Option Mount → Exec Meta (List Mount)
  unfolding erofs_mount
  layer_mounts s parents (some m) = pure (m ∷ [])
  layer_mounts s parents none = do
    paths ← get_erofs_layer_paths s parents
    pure (map erofs_mount paths)

  -- buildErofsLayerMounts, and viewMounts
  unfoldable pub build_erofs_layer_mounts : Config → Snapshot → Exec Meta (List Mount)
  unfolding layer_mounts
  build_erofs_layer_mounts s snap = do
    merged ← mount_fsmeta s snap.parent_ids
    layer_mounts s snap.parent_ids merged

  view_of_parents : Config → Snapshot → List Bytes → Exec Meta (List Mount)
  unfolding erofs_mount
  view_of_parents s snap [] = do
    _ ← wrapping "create view fs directory" (mkdir_all (view_lower_path s snap.id))
    pure
        (mount_of (codes "bind") (view_lower_path s snap.id) (codes "ro" ∷ codes "rbind" ∷ []) ∷ [])
  view_of_parents s snap (parent ∷ []) = do
    blob ← wrapping "get layer blob for view parent" (lower_path s parent)
    pure (erofs_mount blob ∷ [])
  view_of_parents s snap (_ ∷ _ ∷ _) = build_erofs_layer_mounts s snap

  -- viewMountsForKind
  unfoldable pub view_mounts_for_kind : Config → Snapshot → Exec Meta (List Mount)
  unfolding view_of_parents
  view_mounts_for_kind s snap = view_of_parents s snap snap.parent_ids

  single_layer_of_kind : Config → Snapshot → Kind → Exec Meta (List Mount)
  unfolding writable_mount
  single_layer_of_kind s snap kind_active = pure (writable_mount s snap.id ∷ [])
  single_layer_of_kind s snap _ = raise (message "singleLayerMounts only supports Active snapshots")

  -- singleLayerMounts
  unfoldable pub single_layer_mounts : Config → Snapshot → Exec Meta (List Mount)
  unfolding single_layer_of_kind
  single_layer_mounts s snap = single_layer_of_kind s snap snap.kind

  -- activeMounts
  unfoldable pub active_mounts : Config → Snapshot → Exec Meta (List Mount)
  unfolding writable_mount
  active_mounts s snap = do
    layers ← build_erofs_layer_mounts s snap
    pure (layers ++ writable_mount s snap.id ∷ [])

  active_of_parents : Config → Snapshot → List Bytes → Exec Meta (List Mount)
  active_of_parents s snap [] = single_layer_mounts s snap
  active_of_parents s snap (_ ∷ _) = active_mounts s snap

  -- activeMountsForKind
  unfoldable pub active_mounts_for_kind : Config → Snapshot → Exec Meta (List Mount)
  unfolding active_of_parents
  active_mounts_for_kind s snap = active_of_parents s snap snap.parent_ids

  -- diffMounts
  unfoldable pub diff_mounts : Config → Snapshot → Exec Meta (List Mount)
  diff_mounts s snap = do
    _ ←
        wrapping "create erofs marker"
          (ensure_marker_file (join_path (snapshot_dir s snap.id ∷ erofs_layer_marker ∷ [])))
    pure (
        mount_of (codes "bind") (block_upper_path s snap.id) (codes "rw" ∷ codes "rbind" ∷ []) ∷ [])

  mounts_of_kind : Config → Snapshot → Kind → Exec Meta (List Mount)
  mounts_of_kind s snap kind_view = view_mounts_for_kind s snap
  mounts_of_kind s snap kind_active = active_mounts_for_kind s snap
  mounts_of_kind s snap _ = raise (message "unsupported snapshot kind")

  -- mounts
  unfoldable pub mounts : Config → Snapshot → Info → Exec Meta (List Mount)
  unfolding mounts_of_kind
  mounts s snap info =
      if is_extract_snapshot info then diff_mounts s snap else mounts_of_kind s snap snap.kind
