-- ===== src/Differ/Media.antt =====
-- internal/differ/differ.go and compare_linux.go: media types, and what is read off the mounts that
-- the mount manager activated.
use nexus_erofs.Prelude.{
  Bool, true, false, ◌&&◌, not, List, [], ◌∷◌, Option, none, some, Bytes, codes, reverse, ◌==◌,
  bytes_eq, if◌then◌else◌,
}
use nexus_erofs.Strings.{has_prefix, has_suffix, cut}
use nexus_erofs.Errors.{Result, ok, err, not_implemented, wrap}
use nexus_erofs.Mount.{Mount}
use nexus_erofs.MountUtils.{type_suffix, has_device_option}
use nexus_erofs.Differ.{ActiveMount, Compression, uncompressed, gzip, zstd}

abbrev pub media_type_image_layer : Bytes
media_type_image_layer = codes "application/vnd.oci.image.layer.v1.tar"

abbrev pub media_type_image_layer_gzip : Bytes
media_type_image_layer_gzip = codes "application/vnd.oci.image.layer.v1.tar+gzip"

abbrev pub media_type_image_layer_zstd : Bytes
media_type_image_layer_zstd = codes "application/vnd.oci.image.layer.v1.tar+zstd"

without_suffix : Bytes → Option (Bytes × Bytes) → Bool
without_suffix mt none = has_suffix mt (codes ".erofs")
without_suffix mt (some _) = false

-- isErofsMediaType
unfoldable pub is_erofs_media_type : Bytes → Bool
unfolding without_suffix cut
is_erofs_media_type mt = without_suffix mt (cut mt b'+')

-- compressionTypeFromMediaType
unfoldable pub compression_type_from_media_type : Bytes → Result Compression
compression_type_from_media_type mt =
    if mt == media_type_image_layer
    then ok uncompressed
    else if mt == media_type_image_layer_gzip
    then ok gzip
    else if mt == media_type_image_layer_zstd
    then ok zstd
    else err (wrap "unsupported diff media type" not_implemented)

-- the loop over the options in lowerOverlayOnly, with its flag
lower_options : List Bytes → Bool → Bool
lower_options [] has_lower = has_lower
lower_options (opt ∷ opts) has_lower =
    if has_prefix opt (codes "upperdir=")
    then false
    else lower_options opts (if has_prefix opt (codes "lowerdir=") then true else has_lower)

-- lowerOverlayOnly
unfoldable pub lower_overlay_only : List Mount → Bool
unfolding lower_options
lower_overlay_only [] = false
lower_overlay_only (m ∷ []) =
    if not (type_suffix m.kind == codes "overlay") then false else lower_options m.options false
lower_overlay_only (m ∷ n ∷ ms) = false

-- the search from the end of the list
merged_lower_in : List ActiveMount → Option Bytes
unfolding has_device_option
merged_lower_in [] = none
merged_lower_in (a ∷ rest) =
    let next = merged_lower_in rest in
    if not (type_suffix a.mount.kind == codes "erofs")
    then next
    else if has_suffix a.mount.source (codes "fsmeta.erofs")
    then some a.mount_point
    else if has_device_option a.mount.options
    then some a.mount_point
    else next

-- mergedLowerFromActive
unfoldable pub merged_lower_from_active : List ActiveMount → Option Bytes
unfolding merged_lower_in
merged_lower_from_active active = merged_lower_in (reverse active)

-- a single bind mount, whose source serves as the root
unfoldable pub single_bind : List Mount → Option Bytes
single_bind [] = none
single_bind (m ∷ []) =
    if type_suffix m.kind == codes "bind" && not (m.source == []) then some m.source else none
single_bind (m ∷ n ∷ ms) = none

-- the last shortcut of withLowerMount: the merged lower, where the mounts are an overlay without an
-- upper directory
merged_choice : List Mount → Option Bytes → Option Bytes
unfolding lower_overlay_only
merged_choice system none = none
merged_choice system (some root) = if lower_overlay_only system then some root else none

-- a bind mount comes first
lower_choice : List Mount → Option Bytes → Option Bytes → Option Bytes
unfolding merged_choice
lower_choice system (some root) merged = some root
lower_choice system none merged = merged_choice system merged

-- the shortcuts of withLowerMount
unfoldable pub lower_root : List Mount → List ActiveMount → Option Bytes
unfolding single_bind merged_lower_from_active lower_choice
lower_root system active =
    lower_choice system (single_bind system) (merged_lower_from_active active)
