-- ===== src/Snapshotter/Vmdk/Descriptor.antt =====
-- internal/snapshotter/vmdk.go: ParseVMDK.
use nexus_erofs.Prelude.{List, [], ◌∷◌, Option, none, some, Bytes, if◌then◌else◌}
use nexus_erofs.Strings.{split}
use nexus_erofs.Errors.{Result, ok, err, message}
use nexus_erofs.Os.{Exec, wrapping, read_file, lift, ◌>>=◌}
use nexus_erofs.Erofs.Blob.{digest_from_layer_blob_path}
use nexus_erofs.Snapshotter.Vmdk.{LayerInfo, trim_space, scanned_lines, lines_fit, newline_code}
use nexus_erofs.Snapshotter.Vmdk.Extents.{find_extent, sectors_of}

-- one round of the loop in ParseVMDK
add_layer : (Bytes → Option Bytes) → Option (Bytes × Bytes) → List LayerInfo → List LayerInfo
unfolding sectors_of digest_from_layer_blob_path
add_layer parse none layers = layers
add_layer parse (some (sectors, path)) layers =
    record {
      path = path;
      digest = digest_from_layer_blob_path parse path;
      sectors = sectors_of sectors;
    }
    ∷ layers

layers_of_lines : (Bytes → Option Bytes) → List Bytes → List LayerInfo
unfolding add_layer find_extent trim_space
layers_of_lines parse [] = []
layers_of_lines parse (line ∷ lines) =
    add_layer parse (find_extent (trim_space line)) (layers_of_lines parse lines)

-- ParseVMDK of what the file holds
unfoldable pub parse_descriptor : (Bytes → Option Bytes) → Bytes → Result (List LayerInfo)
unfolding layers_of_lines lines_fit scanned_lines split
parse_descriptor parse content =
    if lines_fit (split content newline_code)
    then ok (layers_of_lines parse (scanned_lines (split content newline_code)))
    else err (message "scan vmdk")

-- ParseVMDK
unfoldable pub parse_vmdk :
    {Meta : Type 0} → (Bytes → Option Bytes) → Bytes → Exec Meta (List LayerInfo)
unfolding parse_descriptor
parse_vmdk parse path = do
  content ← wrapping "open vmdk" (read_file path)
  lift (parse_descriptor parse content)
