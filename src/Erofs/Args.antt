-- ===== src/Erofs/Args.antt =====
-- The command lines of mkfs.erofs: buildTarErofsArgs, buildTarIndexArgs, and the one that
-- ConvertErofs builds.
use nexus_erofs.Prelude.{List, [], ◌∷◌, ◌++◌, Bytes, codes, ◌==◌, bytes_eq, if◌then◌else◌}

unfoldable pub build_tar_erofs_args : Bytes → Bytes → List Bytes → List Bytes
build_tar_erofs_args layer_path uuid extra =
    let options : List Bytes =
      codes "--tar=f"
      ∷ codes "--aufs"
      ∷ codes "--quiet"
      ∷ codes "-Enoinline_data"
      ∷ codes "--sort=none"
      ∷ [] in
    let args = options ++ extra in
    let args' = if uuid == [] then args else args ++ (codes "-U" ∷ uuid ∷ []) in
    args' ++ layer_path ∷ []

unfoldable pub build_tar_index_args : Bytes → List Bytes → List Bytes
build_tar_index_args layer_path extra =
    let options : List Bytes = codes "--tar=i" ∷ codes "--aufs" ∷ codes "--quiet" ∷ [] in
    (options ++ extra) ++ layer_path ∷ []

unfoldable pub convert_erofs_args : Bytes → Bytes → List Bytes → List Bytes
convert_erofs_args layer_path src_dir extra =
    let options : List Bytes = codes "--quiet" ∷ codes "-Enoinline_data" ∷ [] in
    (options ++ extra) ++ (layer_path ∷ src_dir ∷ [])
