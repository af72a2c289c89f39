-- ===== src/Snapshotter/FsMeta/DeviceOrder.antt =====
-- The order of the layers in merged metadata, and the order of the devices of its mount.
use nexus_erofs.Prelude.{
  ◌≡◌, refl, ap, sym, ◌∙◌, List, [], ◌∷◌, map, reverse, Bytes, ◌++◌, codes, some, Bool, true, false,
  arith,
}
use nexus_erofs.Errors.{Result, ok, err}
use mathlib.Core.Path.{subst}
use nexus_erofs.Os.Invert.{bind-ok, ok-injective}
use nexus_erofs.Snapshotter.Paths.Quiet.{find_layer_blob-Quiet}
use nexus_erofs.Os.{Exec, World, system_call, continue, pure, raise, attempt, stat, ◌>>=◌}
use nexus_erofs.Os.Quiet.{Quiet, Quiet-pure, Quiet-bind, stat-Quiet}
use nexus_erofs.Mount.{Mount}
use nexus_erofs.LayerOrder.{reverse_strings, reverse_strings-reverse}
use nexus_erofs.Snapshotter.Types.{Config}
use nexus_erofs.Snapshotter.Paths.{find_layer_blob, fsmeta_path, vmdk_path}
use nexus_erofs.Snapshotter.Mounts.{
  device, device_options, fsmeta_mount, fsmeta_result, mount_fsmeta,
}
use nexus_erofs.Snapshotter.FsMeta.{
  collect_blobs, require_merge, check_merge, fsmeta_args, generate,
}
use nexus_erofs.Erofs.BlockSize.Merge.{files-can_merge_fsmeta}
use nexus_erofs.Storage.{External, run_mkfs_erofs}

abbrev pub devices_of : {X : Type 0} → Result (List Bytes) × X → Result (List Bytes) × X
devices_of (ok blobs, w) = (ok (map device blobs), w)
devices_of (err e, w) = (err e, w)

module _ {Meta : Type 0} (s : Config) where
  extend :
      (r : Result (List Bytes)) (blob : Bytes) (v : World Meta)
      → continue (devices_of (r, v)).0 (λ rest. pure (device blob ∷ rest)) (devices_of (r, v)).1
        ≡ devices_of (continue r (λ rest. pure (blob ∷ rest)) v)
  unfolding pure
  extend (ok blobs) blob v = refl
  extend (err e) blob v = refl

  behind_blob :
      (r : Result Bytes) (w : World Meta) (ids : List Bytes)
      → ((v : World Meta) → device_options s ids v ≡ devices_of (collect_blobs s ids v))
      → continue r (λ blob. device_options s ids >>= λ rest. pure (device blob ∷ rest)) w
        ≡ devices_of (continue r (λ blob. collect_blobs s ids >>= λ rest. pure (blob ∷ rest)) w)
  unfolding ◌>>=◌
  behind_blob (ok blob) w ids h =
      ap
        (λ (p : Result (List Bytes) × World Meta).
          continue p.0 (λ rest. pure (device blob ∷ rest)) p.1)
        (h w)
      ∙ extend (collect_blobs s ids w).0 blob (collect_blobs s ids w).1
  behind_blob (err e) w ids h = refl

  device_options-collect_blobs :
      (ids : List Bytes) (w : World Meta)
      → device_options s ids w ≡ devices_of (collect_blobs s ids w)
  unfolding device_options collect_blobs ◌>>=◌
  device_options-collect_blobs [] w = refl
  device_options-collect_blobs (id ∷ ids) w =
      behind_blob (find_layer_blob s id w).0 (find_layer_blob s id w).1 ids
        (device_options-collect_blobs ids)

-- The blobs are those that are found in this state for the snapshots, one for each, in their order.
abbrev pub Found : {Meta : Type 0} → Config → World Meta → List Bytes → List Bytes → Type 0
Found s w [] [] = Unit {0}
Found s w [] (blob ∷ blobs) = ⊥
Found s w (id ∷ ids) [] = ⊥
Found s w (id ∷ ids) (blob ∷ blobs) = ((find_layer_blob s id w).0 ≡ ok blob) × Found s w ids blobs

step-ok :
    {Meta A B : Type 0} (m : Exec Meta A) (f : A → Exec Meta B) (w : World Meta) (b : B)
    → ((m >>= f) w).0 ≡ ok b
    → (a : A) × ((m w).0 ≡ ok a) × ((f a (m w).1).0 ≡ ok b)
step-ok m f w b h =
    let (a, first, whole) = bind-ok m f w b h in (a, first, ap (λ p. p.0) (sym whole) ∙ h)

-- An action that changes nothing has succeeded in front of one that succeeds, in the same state.
unchanged_step :
    {Meta A B : Type 0} (m : Exec Meta A) (f : A → Exec Meta B) (w : World Meta) (b : B)
    → Quiet m
    → w.faults ≡ []
    → ((m >>= f) w).0 ≡ ok b
    → (a : A) × ((m w).0 ≡ ok a) × ((f a w).0 ≡ ok b)
unchanged_step m f w b quiet free h =
    let (a, first, next) = step-ok m f w b h in
    (a, first, ap (λ v. (f a v).0) (sym (quiet.at w free)) ∙ next)

module _ {Meta : Type 0} (s : Config) where
  collect_blobs-Quiet : (ids : List Bytes) → Quiet {Meta = Meta} (collect_blobs s ids)
  unfolding collect_blobs
  collect_blobs-Quiet [] = Quiet-pure _
  collect_blobs-Quiet (id ∷ ids) =
      Quiet-bind _ _ (find_layer_blob-Quiet s id)
        λ blob. Quiet-bind _ _ (collect_blobs-Quiet ids) λ rest. Quiet-pure _

module _ {Meta : Type 0} (s : Config) (w : World Meta) (free : w.faults ≡ []) where
  collect_blobs-Found :
      (ids blobs : List Bytes) → (collect_blobs s ids w).0 ≡ ok blobs → Found s w ids blobs
  unfolding collect_blobs pure
  collect_blobs-Found [] blobs h = subst (Found s w []) (ok-injective [] blobs h) tt
  collect_blobs-Found (id ∷ ids) blobs h =
      let (blob, found, behind) =
        unchanged_step (find_layer_blob s id) _ w blobs (find_layer_blob-Quiet s id) free h in
      let (rest, collected, last) =
        unchanged_step (collect_blobs s ids) _ w blobs (collect_blobs-Quiet s ids) free behind in
      subst (Found s w (id ∷ ids)) (ok-injective (blob ∷ rest) blobs last)
        (found, collect_blobs-Found ids rest collected)

  devices-Found :
      (ids : List Bytes) (r : Result (List Bytes)) (v : World Meta) (devices : List Bytes)
      → (devices_of (r, v)).0 ≡ ok devices
      → (collect_blobs s ids w).0 ≡ r
      → (blobs : List Bytes) × Found s w ids blobs × (devices ≡ map device blobs)
  devices-Found ids (err e) v devices h collected = absurd cc
  devices-Found ids (ok blobs) v devices h collected = (
    blobs,
    collect_blobs-Found ids blobs collected,
    sym (ok-injective (map device blobs) devices h),
  )

  -- The merged mount of a chain names its devices from the oldest layer to the newest.
  abbrev pub IsOrdered : Bytes → List Bytes → Mount → Type 0
  IsOrdered parent others m =
      (blobs : List Bytes) × Found s w (reverse (parent ∷ others)) blobs
      × (m ≡ record {
        kind = codes "format/erofs";
        source = fsmeta_path s parent;
        target = [];
        options = codes "ro" ∷ codes "loop" ∷ map (λ blob. codes "device=" ++ blob) blobs;
      })

  fsmeta_result-IsOrdered :
      (parent : Bytes) (others : List Bytes) (m : Mount) (r : Result (List Bytes)) (v : World Meta)
      → (fsmeta_result s parent r v).0 ≡ ok (some m)
      → ((devices : List Bytes)
          → r ≡ ok devices
          → (blobs : List Bytes) × Found s w (reverse (parent ∷ others)) blobs
            × (devices ≡ map device blobs))
      → IsOrdered parent others m
  unfolding fsmeta_result pure
  fsmeta_result-IsOrdered parent others m (err e) v h of_devices = absurd cc
  fsmeta_result-IsOrdered parent others m (ok devices) v h of_devices =
      let (blobs, found, same) = of_devices devices refl in
      let whole : fsmeta_mount s parent devices ≡ m = cc in
      (
        blobs,
        found,
        sym whole ∙ ap (λ ds. fsmeta_mount s parent ds) same ∙ unfold fsmeta_mount in refl,
      )

  -- While no call is refused: the mount that mountFsMeta returns for a chain is that of the merged
  -- metadata of the newest snapshot, and its devices are the blobs that are found for the snapshots of
  -- the chain, each once, from the oldest snapshot to the newest.
  pub mount_fsmeta-IsOrdered :
      (parent : Bytes) (others : List Bytes) (m : Mount)
      → (mount_fsmeta s (parent ∷ others) w).0 ≡ ok (some m)
      → IsOrdered parent others m
  unfolding mount_fsmeta attempt ◌>>=◌
  mount_fsmeta-IsOrdered parent others m h =
      fsmeta_result-IsOrdered parent others m _ _ h λ devices found.
        let (_, _, second) =
          unchanged_step (stat (vmdk_path s parent)) _ w devices (stat-Quiet _) free found in
        let (_, _, third) =
          unchanged_step (stat (fsmeta_path s parent)) _ w devices (stat-Quiet _) free second in
        devices-Found (reverse (parent ∷ others)) _ _ devices
          (ap (λ p. p.0) (sym (device_options-collect_blobs s (reverse (parent ∷ others)) w))
            ∙ third)
          refl

module _ (E : External) (s : Config) (w : World E.Meta) (free : w.faults ≡ []) where
  require_merge-state : (mergeable : Bool) (v : World E.Meta) → (require_merge mergeable v).1 ≡ v
  unfolding generate pure raise
  require_merge-state true v = refl
  require_merge-state false v = refl

  mkfs-ok :
      (args : List Bytes) (v : World E.Meta) (u : Unit {0})
      → (run_mkfs_erofs E args v).0 ≡ ok u
      → (E.mkfs_erofs args v.files).0 ≡ true
  unfolding run_mkfs_erofs system_call
  mkfs-ok args v u h = ground arith

  -- mkfs.erofs is given the blobs from the oldest layer to the newest.
  abbrev pub IsMerged : Bytes → List Bytes → Type 0
  IsMerged newest parent_ids =
      (blobs : List Bytes) × Found s w (reverse parent_ids) blobs
      × ((E.mkfs_erofs
            (codes "--quiet"
              ∷ (codes "--vmdk-desc=" ++ (vmdk_path s newest ++ codes ".tmp"))
              ∷ (fsmeta_path s newest ++ codes ".tmp")
              ∷ blobs)
            w.files).0
          ≡ true)

  merged_files :
      (blobs : List Bytes) (mergeable : Bool)
      → (require_merge mergeable (check_merge blobs w).1).1.files ≡ w.files
  unfolding check_merge
  merged_files blobs mergeable =
      ap (λ v. v.files) (require_merge-state mergeable (check_merge blobs w).1)
      ∙ files-can_merge_fsmeta blobs w

  -- While no call is refused: a generation that gets through has run mkfs.erofs with success on the
  -- files as they were, and has given it the blobs that are found for the snapshots of the chain, each
  -- once, from the oldest snapshot to the newest.
  pub generate-IsMerged :
      (newest : Bytes) (parent_ids blobs : List Bytes)
      → (generate E s newest parent_ids w).0 ≡ ok blobs
      → IsMerged newest parent_ids
  unfolding generate fsmeta_args
  generate-IsMerged newest parent_ids result h =
      let (blobs, collected, behind) =
        unchanged_step (collect_blobs s (reverse_strings parent_ids)) _ w result
          (collect_blobs-Quiet s _) free h in
      let (mergeable, _, second) = step-ok (check_merge blobs) _ w result behind in
      let (_, _, third) = step-ok (require_merge mergeable) _ _ result second in
      let (done, merged, _) =
        step-ok (run_mkfs_erofs E (fsmeta_args s newest blobs)) _ _ result third in
      (
        blobs,
        subst (λ ids. Found s w ids blobs) (reverse_strings-reverse parent_ids)
            (collect_blobs-Found s w free (reverse_strings parent_ids) blobs collected),
        subst (λ fs. (E.mkfs_erofs (fsmeta_args s newest blobs) fs).0 ≡ true)
            (merged_files blobs mergeable) (mkfs-ok (fsmeta_args s newest blobs) _ done merged),
      )
