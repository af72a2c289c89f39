-- ===== src/Examples/Layers.antt =====
-- The theorems on layers that are applied, and on the index of a tar stream.
use nexus_erofs.Prelude.{
  ◌≡◌, refl, true, false, List, [], ◌∷◌, ◌++◌, none, some, Bytes, codes, length, ltb, bytes_beq,
  bytes_eq, ◌==◌,
}
use nexus_erofs.Errors.{ok}
use nexus_erofs.Mount.{Mount}
use nexus_erofs.FilePath.{join_path, clean, dir, base}
use nexus_erofs.Strings.{has_prefix, has_suffix, cut, split, last_part}
use nexus_erofs.Os.{World, ◌>>=◌, lift, pure}
use nexus_erofs.Os.Tree.{file, lookup, insert}
use nexus_erofs.Erofs.Layer.{
  mounts_to_layer, extract_layer_path, has_erofs_mount_type, mount_base_type, last_mount,
}
use nexus_erofs.Erofs.Tar.{Reader, TarTools, generate_tar_index_and_append_tar}
use nexus_erofs.Erofs.Tar.Index.{temp_path, index_run, generate_tar_index}
use nexus_erofs.Differ.{Descriptor}
use nexus_erofs.Differ.Media.{is_erofs_media_type, media_type_image_layer}
use nexus_erofs.Differ.Apply.{Processor, ApplyTools, layer_blob_path, apply}
use nexus_erofs.Differ.Apply.Native.{apply-native}
use nexus_erofs.Examples.Host.{world_with}

abbrev layer_file : Bytes
layer_file = codes "/l"

-- mkfs.erofs reads all of its input and leaves a small index.
tar_tools : TarTools
unfolding insert
tar_tools = record {
  mkfs_stdin = λ args bytes files. record {
    success = true;
    taken = length bytes;
    files = insert layer_file (file (codes "index")) files;
  };
  mkfs_help = (true, codes "--tar=X");
  temp_dir = codes "/tmp";
  random_text = λ files. codes "1";
}

abbrev a_stream : Reader
a_stream = record { content = codes "tar"; outcome = ok tt }

abbrev empty_world : World (List Bytes)
empty_world = world_with []

no_temp_file : lookup (temp_path tar_tools []) [] ≡ none
unfolding lookup
no_temp_file = refl

temp_apart : (temp_path tar_tools [] == layer_file) ≡ false
unfolding tar_tools join_path clean bytes_beq
temp_apart = refl

layer_apart : (layer_file == temp_path tar_tools []) ≡ false
unfolding tar_tools join_path clean bytes_beq
layer_apart = refl

index_left :
    lookup layer_file (index_run tar_tools a_stream layer_file [] []).files
    ≡ some (file (codes "index"))
unfolding tar_tools join_path clean bytes_beq lookup insert
index_left = refl

temp_left :
    lookup (temp_path tar_tools []) (index_run tar_tools a_stream layer_file [] []).files
    ≡ some (file (codes "tar"))
unfolding tar_tools join_path clean bytes_beq lookup insert
temp_left = refl

index_success : (index_run tar_tools a_stream layer_file [] []).success ≡ true
unfolding tar_tools
index_success = refl

all_taken :
    ltb (index_run tar_tools a_stream layer_file [] []).taken (length a_stream.content) ≡ false
unfolding tar_tools
all_taken = refl

generate_tar_index_example :
    ((generate_tar_index_and_append_tar tar_tools a_stream layer_file [] empty_world).0 ≡ ok tt)
    × (lookup layer_file
          (generate_tar_index_and_append_tar tar_tools a_stream layer_file [] empty_world).1.files
        ≡ some (file (codes "index" ++ codes "tar")))
    × (lookup
          (temp_path tar_tools [])
          (generate_tar_index_and_append_tar tar_tools a_stream layer_file [] empty_world).1.files
        ≡ none)
generate_tar_index_example =
    generate_tar_index tar_tools a_stream layer_file [] (codes "index") empty_world refl refl
      no_temp_file temp_apart layer_apart index_success all_taken index_left temp_left

abbrev native_layer : Descriptor
native_layer = record {
  media_type = codes "application/vnd.image.layer.erofs";
  size = 3;
  digest = codes "sha256:b";
}

abbrev tar_layer : Descriptor
tar_layer = record {
  media_type = codes "application/vnd.oci.image.layer.v1.tar+gzip";
  size = 3;
  digest = codes "sha256:c";
}

-- A processor that yields a plain layer at once.
apply_tools : ApplyTools (List Bytes)
apply_tools = record {
  reader_at = λ desc m. (ok a_stream, m);
  is_diff_type = λ media_type. true;
  get_processor = λ p. ok (record { media_type = media_type_image_layer; stream = p.stream });
  sha256 = λ bytes. bytes;
  uuid_of = λ text. text;
  goos = codes "linux";
  tar_tools = tar_tools;
}

abbrev one_mount : List Mount
one_mount =
    record {
      kind = codes "erofs";
      source = codes "/r/snapshots/1/layer.erofs";
      target = [];
      options = [];
    }
    ∷ []

is_native : is_erofs_media_type native_layer.media_type ≡ true
unfolding is_erofs_media_type has_suffix cut bytes_beq
is_native = refl

directory_found : mounts_to_layer one_mount empty_world ≡ (ok (codes "/r/snapshots/1"), empty_world)
unfolding mounts_to_layer extract_layer_path has_erofs_mount_type mount_base_type last_mount
    has_prefix split last_part dir base clean bytes_beq ◌>>=◌ lift pure
directory_found = refl

readable : (apply_tools.reader_at native_layer empty_world.meta).0 ≡ ok a_stream
unfolding apply_tools
readable = refl

apply-native_example :
    ((apply apply_tools 1 native_layer one_mount empty_world).0 ≡ ok native_layer)
    × (lookup
          (layer_blob_path (codes "/r/snapshots/1") native_layer)
          (apply apply_tools 1 native_layer one_mount empty_world).1.files
        ≡ some (file (codes "tar")))
apply-native_example =
    apply-native apply_tools 1 native_layer one_mount (codes "/r/snapshots/1") a_stream empty_world
      is_native directory_found readable refl refl

abbrev compressed : Processor
compressed = record { media_type = tar_layer.media_type; stream = a_stream }

abbrev plain : Processor
plain = record { media_type = media_type_image_layer; stream = a_stream }

-- the descriptor of the plain layer
abbrev tar_described : Descriptor
tar_described = record {
  media_type = codes "application/vnd.oci.image.layer.v1.tar";
  size = 3;
  digest = codes "tar";
}
