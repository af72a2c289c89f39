-- ===== src/Snapshotter/Mounts/Layer.antt =====
-- The mounts that the snapshotter gives lead the differ back to the snapshot's directory.
use nexus_erofs.Prelude.{
  false, ◌≡◌, refl, ap, ◌∙◌, inl, inr, List, [], ◌∷◌, ◌++◌, Bytes, codes, some, All, Bool-cases,
  bytes_beq,
}
use nexus_erofs.Strings.{has_prefix}
use nexus_erofs.FilePath.{dir, join_path}
use nexus_erofs.Errors.{Result, ok, err, not_implemented}
use nexus_erofs.Mount.{Mount}
use nexus_erofs.Os.{World, pure, lift, attempt, system_call, stat, ◌>>=◌}
use nexus_erofs.Os.Tree.{Node, lookup}
use nexus_erofs.Os.Ensures.{Ensures, Ensures-pure, Ensures-any, Ensures-bind}
use nexus_erofs.Erofs.Layer.{
  mount_base_type, last_mount, extract_layer_path, layer_from_bind_mount, mounts_to_layer,
  has_erofs_mount_type, erofs_layer_marker,
}
use nexus_erofs.Snapshotter.Types.{Config, kind_active, Snapshot, Info}
use nexus_erofs.Snapshotter.Paths.{writable_path, block_upper_path, snapshot_dir}
use nexus_erofs.Snapshotter.Paths.Parents.{
  dir-writable_path, dir-block_upper_path, dir-block_rw_mount_path, base-block_rw_mount_path,
}
use nexus_erofs.Snapshotter.Mounts.{
  mount_of, writable_mount, diff_mounts, mounts, is_extract_snapshot,
}
use nexus_erofs.Snapshotter.Mounts.Shape.{IsLayerMount, IsActiveList, mounts-IsActiveList}

-- extractLayerPath of a list of mounts
abbrev pub layer_of : List Mount → Result Bytes
layer_of [] = err not_implemented
layer_of (m ∷ ms) = extract_layer_path m ms

last_mount-append : (m : Mount) (ls : List Mount) (x : Mount) → last_mount m (ls ++ x ∷ []) ≡ x
unfolding last_mount
last_mount-append m [] x = refl
last_mount-append m (l ∷ ls) x = last_mount-append l ls x

not_mkfs : (m : Mount) → IsLayerMount m → has_prefix m.kind (codes "mkfs/") ≡ false
unfolding has_prefix
not_mkfs m (inl (k, _)) = rw k refl
not_mkfs m (inr (k, _)) = rw k refl

module _ (s : Config) (id : Bytes) where
  layer_of_one : layer_of (writable_mount s id ∷ []) ≡ ok (dir (writable_path s id))
  unfolding extract_layer_path writable_mount last_mount mount_base_type has_prefix bytes_beq
  layer_of_one = refl

  layer_of_more :
      (m : Mount) (ls : List Mount)
      → IsLayerMount m
      → layer_of (m ∷ (ls ++ writable_mount s id ∷ [])) ≡ ok (dir (writable_path s id))
  unfolding extract_layer_path
  layer_of_more m ls h =
      rw (not_mkfs m h, last_mount-append m ls (writable_mount s id))
        (unfold writable_mount mount_base_type bytes_beq in refl)

  layer_of-append :
      (ls : List Mount)
      → All IsLayerMount ls
      → layer_of (ls ++ writable_mount s id ∷ []) ≡ ok (dir (writable_path s id))
  layer_of-append [] h = layer_of_one
  layer_of-append (m ∷ ls) (h, _) = layer_of_more m ls h

  layer_of-IsActiveList :
      (ms : List Mount) → IsActiveList s id ms → layer_of ms ≡ ok (snapshot_dir s id)
  layer_of-IsActiveList ms h =
      ap layer_of h.splits ∙ layer_of-append h.layers h.read_only ∙ ap ok (dir-writable_path s id)

  layer_of_upper :
      layer_of
        (mount_of (codes "bind") (block_upper_path s id) (codes "rw" ∷ codes "rbind" ∷ []) ∷ [])
      ≡ ok (layer_from_bind_mount (block_upper_path s id))
  unfolding extract_layer_path last_mount mount_base_type has_prefix bytes_beq
  layer_of_upper = refl

  layer_of_bind : layer_from_bind_mount (block_upper_path s id) ≡ snapshot_dir s id
  unfolding layer_from_bind_mount bytes_beq
  layer_of_bind =
      rw (dir-block_upper_path s id, base-block_rw_mount_path s id) (dir-block_rw_mount_path s id)

module _ {Meta : Type 0} (s : Config) where
  diff_mounts-layer :
      (snap : Snapshot)
      → Ensures {Meta = Meta} (λ ms. layer_of ms ≡ ok (snapshot_dir s snap.id)) (diff_mounts s snap)
  unfolding diff_mounts
  diff_mounts-layer snap =
      Ensures-bind _ _ (Ensures-any _)
        (λ _ _. Ensures-pure _ (layer_of_upper s snap.id ∙ ap ok (layer_of_bind s snap.id)))

  pub mounts-layer :
      (snap : Snapshot) (info : Info)
      → snap.kind ≡ kind_active
      → Ensures {Meta = Meta} (λ ms. layer_of ms ≡ ok (snapshot_dir s snap.id)) (mounts s snap info)
  mounts-layer snap info k = elim (Bool-cases (is_extract_snapshot info)) [
    | inl extract ↦ (unfold mounts in simp extract (diff_mounts-layer snap))
    | inr other ↦ record {
      at = λ w ms h.
          layer_of-IsActiveList s snap.id ms ((mounts-IsActiveList s snap info k other).at w ms h);
    }
  ]

  mounts_layer :
      (snap : Snapshot) (info : Info) (w : World Meta) (ms : List Mount)
      → snap.kind ≡ kind_active
      → (mounts s snap info w).0 ≡ ok ms
      → layer_of ms ≡ ok (snapshot_dir s snap.id)
  mounts_layer snap info w ms k = (mounts-layer snap info k).at w ms

  -- MountsToLayer of mounts whose layer's directory holds the marker file
  marked_layer :
      (ms : List Mount) (layer : Bytes) (n : Node) (v : World Meta)
      → layer_of ms ≡ ok layer
      → lookup (join_path (layer ∷ codes ".erofslayer" ∷ [])) v.files ≡ some n
      → v.faults ≡ []
      → mounts_to_layer ms v ≡ (ok layer, v)
  unfolding mounts_to_layer stat system_call attempt lift pure ◌>>=◌ erofs_layer_marker
  marked_layer [] layer n v h found free = absurd cc
  marked_layer (m ∷ ms) layer n v h found free = elim (Bool-cases (has_erofs_mount_type (m ∷ ms))) [
    | inl erofs ↦ rw (h, erofs) refl
    | inr other ↦ rw (h, other, free, found) refl
  ]

  -- MountsToLayer of the differ, given the mounts that the snapshotter has returned for an active
  -- snapshot, for extraction or not, returns the directory of that snapshot, if the marker file that
  -- Prepare leaves stands in that directory and no call is refused.
  pub mounts_to_layer-mounts :
      (snap : Snapshot) (info : Info) (w v : World Meta) (ms : List Mount) (marker : Node)
      → snap.kind ≡ kind_active
      → (mounts s snap info w).0 ≡ ok ms
      → lookup (join_path (snapshot_dir s snap.id ∷ codes ".erofslayer" ∷ [])) v.files ≡ some marker
      → v.faults ≡ []
      → mounts_to_layer ms v ≡ (ok (snapshot_dir s snap.id), v)
  mounts_to_layer-mounts snap info w v ms marker k h found free =
      marked_layer ms (snapshot_dir s snap.id) marker v (mounts_layer snap info w ms k h) found free
