-- ===== src/Snapshotter/Mounts/Success.antt =====
-- When the mounts of an active snapshot are returned.
use nexus_erofs.Prelude.{◌≡◌, false, List, [], ◌∷◌, Option, none, some, Bytes, All}
use nexus_erofs.Errors.{Result, ok, err}
use nexus_erofs.Mount.{Mount}
use nexus_erofs.Os.{World}
use nexus_erofs.Os.Quiet.{
  Quiet, Succeeds, quiet_rules, Quiet-pure, Quiet-bind, Succeeds-bind, Succeeds-pure,
  Succeeds-attempt, Succeeds-wrapping,
}
use nexus_erofs.Snapshotter.Types.{Config, kind_active, Snapshot, Info}
use nexus_erofs.Snapshotter.Paths.{find_layer_blob, lower_path}
use nexus_erofs.Snapshotter.Paths.Quiet.{find_layer_blob-Quiet}
use nexus_erofs.Snapshotter.Mounts.{
  mounts, device_options, mount_fsmeta, fsmeta_result, get_erofs_layer_paths, layer_mounts,
  build_erofs_layer_mounts, active_mounts, single_layer_mounts, active_mounts_for_kind,
  active_of_parents, is_extract_snapshot,
}

module _ {Meta : Type 0} (s : Config) where
  pub device_options-Quiet : (ids : List Bytes) → Quiet {Meta = Meta} (device_options s ids)
  unfolding device_options
  device_options-Quiet [] = Quiet-pure []
  device_options-Quiet (id ∷ ids) =
      Quiet-bind _ _ (find_layer_blob-Quiet s id)
        λ blob. Quiet-bind _ _ (device_options-Quiet ids) λ rest. Quiet-pure _

  fsmeta_result-Succeeds :
      (parent : Bytes) (r : Result (List Bytes)) (w : World Meta)
      → Succeeds (fsmeta_result s parent r) w
  unfolding fsmeta_result
  fsmeta_result-Succeeds parent (ok devices) w = Succeeds-pure _ w
  fsmeta_result-Succeeds parent (err e) w = Succeeds-pure _ w

  mount_fsmeta-Succeeds :
      (parents : List Bytes) (w : World Meta) → w.faults ≡ [] → Succeeds (mount_fsmeta s parents) w
  unfolding mount_fsmeta
  mount_fsmeta-Succeeds [] w h = Succeeds-pure _ w
  mount_fsmeta-Succeeds (parent ∷ others) w h =
      Succeeds-bind _ _ w (Succeeds-attempt _ w (search (quiet_rules, device_options-Quiet)) h)
        (λ found. fsmeta_result-Succeeds parent found w)

  -- A blob is found for the snapshot.
  pub record HasBlob (w : World Meta) (id : Bytes) : Type 0 where
    pub blob : Bytes
    pub found : (find_layer_blob s id w).0 ≡ ok blob

  lower_path-Succeeds :
      (id : Bytes) (w : World Meta) → w.faults ≡ [] → HasBlob w id → Succeeds (lower_path s id) w
  unfolding lower_path
  lower_path-Succeeds id w h b =
      Succeeds-wrapping _ _ w b.blob (find_layer_blob-Quiet s id) h b.found

  get_erofs_layer_paths-Succeeds :
      (ids : List Bytes) (w : World Meta)
      → w.faults ≡ []
      → All (HasBlob w) ids
      → Succeeds (get_erofs_layer_paths s ids) w
  unfolding get_erofs_layer_paths
  get_erofs_layer_paths-Succeeds [] w h all = Succeeds-pure _ w
  get_erofs_layer_paths-Succeeds (id ∷ ids) w h (b, all) =
      Succeeds-bind _ _ w (lower_path-Succeeds id w h b) λ blob.
        Succeeds-bind _ _ w (get_erofs_layer_paths-Succeeds ids w h all) λ rest. Succeeds-pure _ w

  layer_mounts_returned :
      (ids : List Bytes) (merged : Option Mount) (w : World Meta)
      → w.faults ≡ []
      → All (HasBlob w) ids
      → Succeeds (layer_mounts s ids merged) w
  unfolding layer_mounts
  layer_mounts_returned ids (some m) w h all = Succeeds-pure _ w
  layer_mounts_returned ids none w h all =
      Succeeds-bind _ _ w (get_erofs_layer_paths-Succeeds ids w h all) λ paths. Succeeds-pure _ w

  active_of_parents-Succeeds :
      (snap : Snapshot) (parents : List Bytes) (w : World Meta)
      → snap.kind ≡ kind_active
      → w.faults ≡ []
      → All (HasBlob w) snap.parent_ids
      → Succeeds (active_of_parents s snap parents) w
  unfolding active_mounts_for_kind single_layer_mounts active_mounts build_erofs_layer_mounts
  active_of_parents-Succeeds snap [] w k h all = rw k (Succeeds-pure _ w)
  active_of_parents-Succeeds snap (_ ∷ _) w k h all =
      Succeeds-bind _ _ w
        (Succeeds-bind _ _ w (mount_fsmeta-Succeeds snap.parent_ids w h)
          (λ merged. layer_mounts_returned snap.parent_ids merged w h all))
        (λ layers. Succeeds-pure _ w)

  -- While no call is refused and a blob is found for each parent: the mounts of an active snapshot
  -- that is not for extraction are returned, and no state is changed, whether merged metadata stands
  -- there or not.
  pub mounts_returned :
      (snap : Snapshot) (info : Info) (w : World Meta)
      → snap.kind ≡ kind_active
      → is_extract_snapshot info ≡ false
      → w.faults ≡ []
      → All (HasBlob w) snap.parent_ids
      → (ms : List Mount) × (mounts s snap info w ≡ (ok ms, w))
  unfolding mounts
  mounts_returned snap info w k x h all =
      let done : Succeeds (active_mounts_for_kind s snap) w =
        unfold active_mounts_for_kind in
        active_of_parents-Succeeds snap snap.parent_ids w k h all in
      (done.result, simp (x, k) done.runs)
