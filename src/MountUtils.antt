-- ===== src/MountUtils.antt =====
-- internal/mountutils/helpers.go: what kind of handling a list of mounts needs.
pub mod Laws
pub mod Host
use nexus_erofs.Prelude.{
  ℕ, Bool, true, false, not, ◌&&◌, ◌||◌, List, [], ◌∷◌, ◌++◌, Bytes, codes, ◌==◌, nat_eq, bytes_eq,
  if◌then◌else◌,
}
use nexus_erofs.Strings.{has_prefix, contains, split, first_part, last_part}
use nexus_erofs.Mount.{Mount}

abbrev pub slash : ℕ
slash = b'/'

abbrev pub fs_type_erofs : Bytes
fs_type_erofs = codes "erofs"

abbrev pub device_prefix : Bytes
device_prefix = codes "device="

abbrev pub template_mark : Bytes
template_mark = codes "{{"

-- hasLoopOption
unfoldable pub has_loop_option : List Bytes → Bool
has_loop_option [] = false
has_loop_option (opt ∷ opts) = opt == codes "loop" || has_loop_option opts

-- the loop over the options in HasTemplate
option_has_template : List Bytes → Bool
option_has_template [] = false
option_has_template (opt ∷ opts) = contains opt template_mark || option_has_template opts

-- HasTemplate
unfoldable pub has_template : Mount → Bool
unfolding option_has_template
has_template m =
    if contains m.source template_mark || contains m.target template_mark
    then true
    else option_has_template m.options

-- TypeBase
unfoldable pub type_base : Bytes → Bytes
unfolding first_part split
type_base [] = []
type_base (c ∷ t) = first_part (split (c ∷ t) slash)

-- TypeSuffix
unfoldable pub type_suffix : Bytes → Bytes
unfolding last_part split
type_suffix [] = []
type_suffix (c ∷ t) = last_part (split (c ∷ t) slash)

is_formatted_base : Bytes → Bool
is_formatted_base mt = mt == codes "format" || (mt == codes "mkfs" || mt == codes "mkdir")

-- NeedsMountManager
unfoldable pub needs_mount_manager : List Mount → Bool
unfolding has_template type_base is_formatted_base has_loop_option
needs_mount_manager [] = false
needs_mount_manager (m ∷ ms) =
    if has_template m
    then true
    else if is_formatted_base (type_base m.kind)
    then true
    else if has_loop_option m.options
    then true
    else needs_mount_manager ms

is_persistent : Bytes → Bool
is_persistent t =
    has_prefix t (codes "format/")
    || (has_prefix t (codes "mkfs/") || has_prefix t (codes "mkdir/"))

-- NeedsNonTemporaryActivation
unfoldable pub needs_non_temporary_activation : List Mount → Bool
unfolding is_persistent
needs_non_temporary_activation [] = false
needs_non_temporary_activation (m ∷ ms) =
    if is_persistent m.kind then true else needs_non_temporary_activation ms

-- hasDeviceOption
unfoldable pub has_device_option : List Bytes → Bool
has_device_option [] = false
has_device_option (opt ∷ opts) =
    if has_prefix opt device_prefix then true else has_device_option opts

-- HasErofsMultiDevice
unfoldable pub has_erofs_multi_device : List Mount → Bool
unfolding type_suffix has_device_option
has_erofs_multi_device [] = false
has_erofs_multi_device (m ∷ ms) =
    if type_suffix m.kind == fs_type_erofs && has_device_option m.options
    then true
    else has_erofs_multi_device ms

-- the loop of HasActiveSnapshotMounts, with its two flags
active_loop : List Mount → Bool → Bool → Bool
unfolding type_suffix
active_loop [] has_erofs has_ext4 = has_erofs && has_ext4
active_loop (m ∷ ms) has_erofs has_ext4 =
    let kind = type_suffix m.kind in
    active_loop ms (if kind == fs_type_erofs then true else has_erofs)
      (if kind == fs_type_erofs then has_ext4 else if kind == codes "ext4" then true else has_ext4)

-- HasActiveSnapshotMounts
unfoldable pub has_active_snapshot_mounts : List Mount → Bool
unfolding active_loop
has_active_snapshot_mounts ms = active_loop ms false false
