-- ===== src/Erofs/Layer.antt =====
-- MountsToLayer and its helpers: the directory of a layer from the mounts of its snapshot.
use nexus_erofs.Prelude.{
  Bool, true, false, not, List, [], ◌∷◌, Option, none, some, Bytes, codes, ◌==◌, nat_eq, bytes_eq,
  if◌then◌else◌,
}
use nexus_erofs.Strings.{has_prefix, split, last_part, cut}
use nexus_erofs.FilePath.{slash, dir, base, join_path}
use nexus_erofs.Errors.{Result, ok, err, not_implemented, wrap}
use nexus_erofs.Mount.{Mount}
use nexus_erofs.Os.{Exec, pure, raise, lift, attempt, stat, ◌>>=◌}
use nexus_erofs.Os.Tree.{Node}

unfoldable pub erofs_layer_marker : Bytes
erofs_layer_marker = codes ".erofslayer"

-- mountBaseType
unfoldable pub mount_base_type : Bytes → Bytes
unfolding split last_part
mount_base_type t = last_part (split t slash)

-- hasErofsMountType
unfoldable pub has_erofs_mount_type : List Mount → Bool
unfolding mount_base_type
has_erofs_mount_type [] = false
has_erofs_mount_type (m ∷ ms) =
    if mount_base_type m.kind == codes "erofs" then true else has_erofs_mount_type ms

-- layerFromBindMount and layerFromUpperdir, whose bodies agree: the parent, or the grandparent of
-- a path that stands in a directory `rw`.
unfoldable pub layer_from_bind_mount : Bytes → Bytes
layer_from_bind_mount source =
    let parent = dir source in if base parent == codes "rw" then dir parent else parent

unfoldable pub layer_from_upperdir : Bytes → Bytes
layer_from_upperdir upperdir =
    let parent = dir upperdir in if base parent == codes "rw" then dir parent else parent

-- one round of the loop in layerFromOverlay; the pair is (upperLayer, lowerLayer)
overlay_option : Bytes → Option (Bytes × Bytes) → Bytes × Bytes → Bytes × Bytes
unfolding layer_from_upperdir
overlay_option first_source none (upper, lower) = (upper, lower)
overlay_option first_source (some (key, value)) (upper, lower) =
    if key == codes "upperdir"
    then (layer_from_upperdir value, lower)
    else if key == codes "lowerdir"
    then (upper, dir first_source)
    else (upper, lower)

overlay_options : Bytes → List Bytes → Bytes × Bytes → Bytes × Bytes
unfolding overlay_option cut
overlay_options first_source [] layers = layers
overlay_options first_source (opt ∷ opts) layers =
    overlay_options first_source opts (overlay_option first_source (cut opt b'=') layers)

overlay_result : Bytes × Bytes → Result Bytes
overlay_result (upper, lower) =
    if not (upper == [])
    then ok upper
    else if not (lower == [])
    then ok lower
    else err (wrap "overlay mount has no upperdir or lowerdir" not_implemented)

-- layerFromOverlay; the first argument is the source of the first mount
unfoldable pub layer_from_overlay : Bytes → Mount → Result Bytes
unfolding overlay_options overlay_result
layer_from_overlay first_source mnt =
    overlay_result (overlay_options first_source mnt.options ([], []))

-- The switch of extractLayerPath on the base type of the last mount.
layer_of_type : Bytes → Bytes → Mount → Result Bytes
unfolding layer_from_bind_mount layer_from_overlay
layer_of_type base_type first_source mnt =
    if base_type == codes "bind"
    then ok (layer_from_bind_mount mnt.source)
    else if base_type == codes "erofs"
    then ok (dir mnt.source)
    else if base_type == codes "ext4"
    then ok (dir mnt.source)
    else if base_type == codes "overlay"
    then layer_from_overlay first_source mnt
    else err (wrap "unsupported filesystem type for erofs differ" not_implemented)

unfoldable pub last_mount : Mount → List Mount → Mount
last_mount m [] = m
last_mount m (n ∷ ms) = last_mount n ms

-- extractLayerPath of the mounts `m ∷ ms`
unfoldable pub extract_layer_path : Mount → List Mount → Result Bytes
unfolding layer_of_type
extract_layer_path m ms =
    let mnt = last_mount m ms in
    if has_prefix m.kind (codes "mkfs/")
    then ok (dir m.source)
    else layer_of_type (mount_base_type mnt.kind) m.source mnt

module _ {Meta : Type 0} where
  -- the test for the marker file
  check_marker : Bytes → Result Node → Exec Meta Bytes
  check_marker layer (ok _) = pure layer
  check_marker layer (err _) = raise (wrap "mount layer type must be erofs-layer" not_implemented)

  validate_layer : List Mount → Bytes → Exec Meta Bytes
  unfolding check_marker
  validate_layer ms layer = if has_erofs_mount_type ms then pure layer else do
    found ← attempt (stat (join_path (layer ∷ erofs_layer_marker ∷ [])))
    check_marker layer found

  -- MountsToLayer
  unfoldable pub mounts_to_layer : List Mount → Exec Meta Bytes
  unfolding validate_layer extract_layer_path
  mounts_to_layer [] = raise (wrap "no mounts provided" not_implemented)
  mounts_to_layer (m ∷ ms) = do
    layer ← lift (extract_layer_path m ms)
    validate_layer (m ∷ ms) layer
