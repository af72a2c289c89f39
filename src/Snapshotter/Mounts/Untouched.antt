-- ===== src/Snapshotter/Mounts/Untouched.antt =====
-- The mounts of a snapshot are made without a change of the metadata, and those of an active snapshot
-- without any change while no call is refused.
use nexus_erofs.Prelude.{◌≡◌, false, List, [], ◌∷◌, Option, none, some, Bytes}
use nexus_erofs.Errors.{Result, ok, err}
use nexus_erofs.Mount.{Mount}
use nexus_erofs.Os.{World}
use nexus_erofs.Os.Keeps.{
  Keeps, the_meta, meta_rules, Keeps-pure, Keeps-raise, Keeps-bind, Keeps-if, Keeps-wrapping,
}
use nexus_erofs.Os.Quiet.{Quiet, quiet_rules, Quiet-pure, Quiet-bind}
use nexus_erofs.Snapshotter.Types.{
  Config, Kind, kind_unknown, kind_view, kind_active, kind_committed, Snapshot, Info,
}
use nexus_erofs.Snapshotter.Paths.{lower_path}
use nexus_erofs.Snapshotter.Paths.Untouched.{find_layer_blob-meta, lower_path-meta}
use nexus_erofs.Snapshotter.Paths.Quiet.{find_layer_blob-Quiet}
use nexus_erofs.Snapshotter.Mounts.Success.{device_options-Quiet}
use nexus_erofs.Snapshotter.Mounts.{
  mounts, device_options, mount_fsmeta, fsmeta_result, get_erofs_layer_paths, layer_mounts,
  build_erofs_layer_mounts, active_mounts, single_layer_mounts, single_layer_of_kind,
  active_mounts_for_kind, active_of_parents, view_of_parents, view_mounts_for_kind, mounts_of_kind,
  diff_mounts, ensure_marker_file, is_extract_snapshot,
}

module _ {Meta : Type 0} (s : Config) where
  abbrev Still : {A : Type 0} → (World Meta → Result A × World Meta) → Type 0
  Still m = Keeps the_meta m

  pub ensure_marker_file-meta : (p : Bytes) → Still (ensure_marker_file p)
  unfolding ensure_marker_file
  ensure_marker_file-meta p = search meta_rules

  device_options-meta : (ids : List Bytes) → Still (device_options s ids)
  unfolding device_options
  device_options-meta [] = Keeps-pure []
  device_options-meta (id ∷ ids) =
      Keeps-bind _ _ (find_layer_blob-meta s id)
        λ blob. Keeps-bind _ _ (device_options-meta ids) λ rest. Keeps-pure _

  fsmeta_result-meta : (parent : Bytes) (r : Result (List Bytes)) → Still (fsmeta_result s parent r)
  unfolding fsmeta_result
  fsmeta_result-meta parent (ok devices) = Keeps-pure _
  fsmeta_result-meta parent (err e) = Keeps-pure _

  mount_fsmeta-meta : (parents : List Bytes) → Still (mount_fsmeta s parents)
  unfolding mount_fsmeta
  mount_fsmeta-meta [] = Keeps-pure _
  mount_fsmeta-meta (parent ∷ others) =
      Keeps-bind _ _ (search (meta_rules, device_options-meta))
        λ found. fsmeta_result-meta parent found

  get_erofs_layer_paths-meta : (ids : List Bytes) → Still (get_erofs_layer_paths s ids)
  unfolding get_erofs_layer_paths
  get_erofs_layer_paths-meta [] = Keeps-pure _
  get_erofs_layer_paths-meta (id ∷ ids) =
      Keeps-bind _ _ (lower_path-meta s id)
        λ blob. Keeps-bind _ _ (get_erofs_layer_paths-meta ids) λ rest. Keeps-pure _

  layer_mounts-meta : (ids : List Bytes) (merged : Option Mount) → Still (layer_mounts s ids merged)
  unfolding layer_mounts
  layer_mounts-meta ids (some m) = Keeps-pure _
  layer_mounts-meta ids none = Keeps-bind _ _ (get_erofs_layer_paths-meta ids) λ paths. Keeps-pure _

  build_erofs_layer_mounts-meta : (snap : Snapshot) → Still (build_erofs_layer_mounts s snap)
  unfolding build_erofs_layer_mounts
  build_erofs_layer_mounts-meta snap =
      Keeps-bind _ _ (mount_fsmeta-meta snap.parent_ids)
        λ merged. layer_mounts-meta snap.parent_ids merged

  view_of_parents-meta : (snap : Snapshot) (ids : List Bytes) → Still (view_of_parents s snap ids)
  unfolding view_of_parents
  view_of_parents-meta snap [] = search meta_rules
  view_of_parents-meta snap (p ∷ []) =
      Keeps-bind _ _ (Keeps-wrapping _ _ (lower_path-meta s p)) λ blob. Keeps-pure _
  view_of_parents-meta snap (p ∷ q ∷ ids) = build_erofs_layer_mounts-meta snap

  single_layer_of_kind-meta :
      (snap : Snapshot) (kind : Kind) → Still (single_layer_of_kind s snap kind)
  unfolding single_layer_mounts
  single_layer_of_kind-meta snap kind_active = Keeps-pure _
  single_layer_of_kind-meta snap kind_unknown = Keeps-raise _
  single_layer_of_kind-meta snap kind_view = Keeps-raise _
  single_layer_of_kind-meta snap kind_committed = Keeps-raise _

  active_of_parents-meta :
      (snap : Snapshot) (ids : List Bytes) → Still (active_of_parents s snap ids)
  unfolding active_of_parents single_layer_mounts active_mounts
  active_of_parents-meta snap [] = single_layer_of_kind-meta snap snap.kind
  active_of_parents-meta snap (_ ∷ _) =
      Keeps-bind _ _ (build_erofs_layer_mounts-meta snap) λ layers. Keeps-pure _

  mounts_of_kind-meta : (snap : Snapshot) (kind : Kind) → Still (mounts_of_kind s snap kind)
  unfolding mounts_of_kind view_mounts_for_kind active_mounts_for_kind
  mounts_of_kind-meta snap kind_view = view_of_parents-meta snap snap.parent_ids
  mounts_of_kind-meta snap kind_active = active_of_parents-meta snap snap.parent_ids
  mounts_of_kind-meta snap kind_unknown = Keeps-raise _
  mounts_of_kind-meta snap kind_committed = Keeps-raise _

  pub mounts-meta : (snap : Snapshot) (info : Info) → Still (mounts s snap info)
  unfolding mounts diff_mounts
  mounts-meta snap info =
      Keeps-if (is_extract_snapshot info) _ _
        (Keeps-bind _ _ (Keeps-wrapping _ _ (ensure_marker_file-meta _)) λ _. Keeps-pure _)
        (mounts_of_kind-meta snap snap.kind)

  mount_fsmeta-Quiet : (parents : List Bytes) → Quiet (mount_fsmeta {Meta = Meta} s parents)
  unfolding mount_fsmeta fsmeta_result
  mount_fsmeta-Quiet [] = Quiet-pure _
  mount_fsmeta-Quiet (parent ∷ others) =
      Quiet-bind _ _ (search (quiet_rules, device_options-Quiet)) found
    where
      found : (r : Result (List Bytes)) → Quiet (fsmeta_result {Meta = Meta} s parent r)
      found (ok devices) = Quiet-pure _
      found (err e) = Quiet-pure _

  get_erofs_layer_paths-Quiet :
      (ids : List Bytes) → Quiet (get_erofs_layer_paths {Meta = Meta} s ids)
  unfolding get_erofs_layer_paths lower_path
  get_erofs_layer_paths-Quiet [] = Quiet-pure _
  get_erofs_layer_paths-Quiet (id ∷ ids) =
      Quiet-bind _ _ (search (quiet_rules, find_layer_blob-Quiet))
        λ blob. Quiet-bind _ _ (get_erofs_layer_paths-Quiet ids) λ rest. Quiet-pure _

  layer_mounts-Quiet :
      (ids : List Bytes) (merged : Option Mount) → Quiet (layer_mounts {Meta = Meta} s ids merged)
  unfolding layer_mounts
  layer_mounts-Quiet ids (some m) = Quiet-pure _
  layer_mounts-Quiet ids none =
      Quiet-bind _ _ (get_erofs_layer_paths-Quiet ids) λ paths. Quiet-pure _

  active_of_parents-Quiet :
      (snap : Snapshot) (ids : List Bytes)
      → snap.kind ≡ kind_active
      → Quiet (active_of_parents {Meta = Meta} s snap ids)
  unfolding active_of_parents single_layer_mounts active_mounts build_erofs_layer_mounts
  active_of_parents-Quiet snap [] k = rw k (Quiet-pure _)
  active_of_parents-Quiet snap (_ ∷ _) k =
      Quiet-bind _ _
        (Quiet-bind _ _ (mount_fsmeta-Quiet snap.parent_ids)
          λ merged. layer_mounts-Quiet snap.parent_ids merged)
        λ layers. Quiet-pure _

  mounts_of_kind-Quiet :
      (snap : Snapshot) (kind : Kind)
      → snap.kind ≡ kind_active
      → kind ≡ kind_active
      → Quiet (mounts_of_kind {Meta = Meta} s snap kind)
  unfolding mounts_of_kind active_mounts_for_kind
  mounts_of_kind-Quiet snap kind_active k h = active_of_parents-Quiet snap snap.parent_ids k
  mounts_of_kind-Quiet snap kind_unknown k h = absurd cc
  mounts_of_kind-Quiet snap kind_view k h = absurd cc
  mounts_of_kind-Quiet snap kind_committed k h = absurd cc

  pub mounts-Quiet :
      (snap : Snapshot) (info : Info)
      → snap.kind ≡ kind_active
      → is_extract_snapshot info ≡ false
      → Quiet (mounts {Meta = Meta} s snap info)
  unfolding mounts
  mounts-Quiet snap info k x = rw x (mounts_of_kind-Quiet snap snap.kind k k)
