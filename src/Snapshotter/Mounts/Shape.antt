-- ===== src/Snapshotter/Mounts/Shape.antt =====
-- What the lists of mounts consist of.
use nexus_erofs.Prelude.{
  false, ◌≡◌, refl, ◌⊎◌, inl, inr, List, [], ◌∷◌, ◌++◌, map, Option, none, some, Bytes, codes, All,
}
use nexus_erofs.Errors.{Result, ok, err}
use nexus_erofs.Mount.{Mount}
use nexus_erofs.Os.{World}
use nexus_erofs.Os.Ensures.{Ensures, Ensures-pure, Ensures-any, Ensures-bind}
use nexus_erofs.Snapshotter.Types.{Config, kind_active, Snapshot, Info}
use nexus_erofs.Snapshotter.Mounts.{
  erofs_mount, writable_mount, fsmeta_mount, is_extract_snapshot, mount_fsmeta, fsmeta_result,
  layer_mounts, build_erofs_layer_mounts, active_mounts, single_layer_mounts,
  active_mounts_for_kind, active_of_parents, mounts,
}

-- A mount of a layer: read-only, and an EROFS image.
abbrev pub IsLayerMount : Mount → Type 0
IsLayerMount m =
    ((m.kind ≡ codes "erofs") × (m.options ≡ codes "ro" ∷ codes "loop" ∷ []))
    ⊎ ((m.kind ≡ codes "format/erofs")
        × ((devices : List Bytes) × (m.options ≡ codes "ro" ∷ codes "loop" ∷ devices)))

erofs_mounts-All : (paths : List Bytes) → All IsLayerMount (map erofs_mount paths)
unfolding erofs_mount
erofs_mounts-All [] = tt
erofs_mounts-All (p ∷ paths) = (inl (refl, refl), erofs_mounts-All paths)

abbrev IsMerged : Option Mount → Type 0
IsMerged none = Unit
IsMerged (some m) = IsLayerMount m

-- Read-only layers, and the writable layer of the snapshot behind them.
pub record IsActiveList (s : Config) (id : Bytes) (ms : List Mount) : Type 0 where
  pub layers : List Mount
  pub read_only : All IsLayerMount layers
  pub splits : ms ≡ layers ++ writable_mount s id ∷ []

module _ {Meta : Type 0} (s : Config) where
  fsmeta_result-IsMerged :
      (parent : Bytes) (r : Result (List Bytes))
      → Ensures {Meta = Meta} IsMerged (fsmeta_result s parent r)
  unfolding fsmeta_result
  fsmeta_result-IsMerged parent (ok devices) =
      Ensures-pure _ (unfold fsmeta_mount in inr (refl, (devices, refl)))
  fsmeta_result-IsMerged parent (err e) = Ensures-pure _ tt

  mount_fsmeta-IsMerged :
      (parents : List Bytes) → Ensures {Meta = Meta} IsMerged (mount_fsmeta s parents)
  unfolding mount_fsmeta
  mount_fsmeta-IsMerged [] = Ensures-pure _ tt
  mount_fsmeta-IsMerged (parent ∷ others) =
      Ensures-bind _ _ (Ensures-any _) (λ r _. fsmeta_result-IsMerged parent r)

  layer_mounts-All :
      (parents : List Bytes) (merged : Option Mount)
      → IsMerged merged
      → Ensures {Meta = Meta} (All IsLayerMount) (layer_mounts s parents merged)
  unfolding layer_mounts
  layer_mounts-All parents (some m) h = Ensures-pure _ (h, tt)
  layer_mounts-All parents none h =
      Ensures-bind _ _ (Ensures-any _) (λ paths _. Ensures-pure _ (erofs_mounts-All paths))

  pub build_erofs_layer_mounts-All :
      (snap : Snapshot) → Ensures {Meta = Meta} (All IsLayerMount) (build_erofs_layer_mounts s snap)
  unfolding build_erofs_layer_mounts
  build_erofs_layer_mounts-All snap =
      Ensures-bind _ _ (mount_fsmeta-IsMerged snap.parent_ids)
        (λ merged h. layer_mounts-All snap.parent_ids merged h)

  active_mounts-IsActiveList :
      (snap : Snapshot) → Ensures {Meta = Meta} (IsActiveList s snap.id) (active_mounts s snap)
  unfolding active_mounts
  active_mounts-IsActiveList snap =
      Ensures-bind _ _ (build_erofs_layer_mounts-All snap)
        (λ layers h. Ensures-pure _ (record { layers = layers; read_only = h; splits = refl }))

  single_layer_mounts-IsActiveList :
      (snap : Snapshot)
      → snap.kind ≡ kind_active
      → Ensures {Meta = Meta} (IsActiveList s snap.id) (single_layer_mounts s snap)
  unfolding single_layer_mounts
  single_layer_mounts-IsActiveList snap k =
      rw k (Ensures-pure _ (record { layers = []; read_only = tt; splits = refl }))

  active_of_parents-IsActiveList :
      (snap : Snapshot) (parents : List Bytes)
      → snap.kind ≡ kind_active
      → Ensures {Meta = Meta} (IsActiveList s snap.id) (active_of_parents s snap parents)
  unfolding active_mounts_for_kind
  active_of_parents-IsActiveList snap [] k = single_layer_mounts-IsActiveList snap k
  active_of_parents-IsActiveList snap (_ ∷ _) k = active_mounts-IsActiveList snap

  pub mounts-IsActiveList :
      (snap : Snapshot) (info : Info)
      → snap.kind ≡ kind_active
      → is_extract_snapshot info ≡ false
      → Ensures {Meta = Meta} (IsActiveList s snap.id) (mounts s snap info)
  unfolding mounts
  mounts-IsActiveList snap info k x =
      simp (x, k)
        (unfold active_mounts_for_kind in active_of_parents-IsActiveList snap snap.parent_ids k)

  -- The list that is returned for an active snapshot that is not one for extraction consists of
  -- read-only EROFS mounts and, behind them, its own writable ext4 layer: from any state and under
  -- any refused calls.
  pub mounts_active :
      (snap : Snapshot) (info : Info) (w : World Meta) (ms : List Mount)
      → snap.kind ≡ kind_active
      → is_extract_snapshot info ≡ false
      → (mounts s snap info w).0 ≡ ok ms
      → IsActiveList s snap.id ms
  mounts_active snap info w ms k x = (mounts-IsActiveList snap info k x).at w ms
