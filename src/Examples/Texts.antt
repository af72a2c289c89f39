-- ===== src/Examples/Texts.antt =====
-- The theorems on pure functions, at concrete inputs.
use nexus_erofs.Prelude.{
  ◌+◌, ◌≤◌, ◌&&◌, leb, ◌≡◌, ◌↔◌, refl, List, [], ◌∷◌, take, length, some, codes, arith,
}
use nexus_erofs.Errors.{ok}
use nexus_erofs.Mount.{Mount}
use nexus_erofs.Strings.{has_byte}
use nexus_erofs.FilePath.{join_path}
use nexus_erofs.StringUtil.{truncate_output, truncate_output_bounds}
use nexus_erofs.LayerOrder.{reverse_strings, reverse_strings-reverse}
use nexus_erofs.Preflight.{Version, parse_version, check_kernel_version}
use nexus_erofs.Preflight.Order.{Before, check_kernel_version_iff}
use nexus_erofs.Erofs.Blob.{
  IsDigest, layer_blob_filename, digest_from_layer_blob_path,
  digest_from_layer_blob_path-layer_blob_filename,
}
use nexus_erofs.Erofs.BlockSize.{is_mergeable, shift_one}
use nexus_erofs.Erofs.BlockSize.Merge.{is_mergeable-shift_one}
use nexus_erofs.Snapshotter.FsMeta.{manifest_content}
use nexus_erofs.Snapshotter.Vmdk.{is_space, parse_manifest}
use nexus_erofs.Snapshotter.Vmdk.RoundTrip.{IsLine, parse_manifest-manifest_content}

reverse_strings_example :
    reverse_strings (codes "c" ∷ codes "b" ∷ codes "a" ∷ [])
    ≡ codes "a" ∷ codes "b" ∷ codes "c" ∷ []
reverse_strings_example = reverse_strings-reverse (codes "c" ∷ codes "b" ∷ codes "a" ∷ [])

truncate_output_example :
    (length (truncate_output (codes "mkfs failed") 4) ≤ 4 + 15)
    × (take 4 (truncate_output (codes "mkfs failed") 4) ≡ codes "mkfs")
    × (truncate_output (codes "mkfs") 4 ≡ codes "mkfs")
truncate_output_example = truncate_output_bounds (codes "mkfs failed") 4

abbrev erofs_and_ext4 : List Mount
erofs_and_ext4 =
    record { kind = codes "format/erofs"; source = []; target = []; options = [] }
    ∷ record { kind = codes "ext4"; source = []; target = []; options = [] }
    ∷ []

abbrev required : Version
required = record { major = 6; minor = 10; patch = 0 }

abbrev running : Version
running = record { major = 6; minor = 16; patch = 2 }

parse_running : parse_version (codes "6.16.2-rc1") ≡ ok running
unfolding parse_version
parse_running = refl

parse_required : parse_version (codes "6.10") ≡ ok required
unfolding parse_version
parse_required = refl

check_kernel_version_example :
    (check_kernel_version (ok (codes "6.16.2-rc1")) (codes "6.10") ≡ ok tt)
    ↔ (¬ Before running required)
check_kernel_version_example =
    check_kernel_version_iff (codes "6.16.2-rc1") (codes "6.10") parse_running parse_required

sha-IsDigest : IsDigest (codes "sha256") (codes "ab12")
unfolding has_byte
sha-IsDigest = record {
  one_colon = refl;
  no_colon = refl;
  no_dash = refl;
  no_slash = refl;
  no_slash_behind = refl;
}

layer_blob_example :
    digest_from_layer_blob_path
      (λ d. some d)
      (join_path (codes "/r/snapshots/1" ∷ layer_blob_filename (codes "sha256:ab12") ∷ []))
    ≡ codes "sha256:ab12"
layer_blob_example =
    digest_from_layer_blob_path-layer_blob_filename (codes "sha256") (codes "ab12") sha-IsDigest
      (λ d. some d) (codes "/r/snapshots/1") refl

is_mergeable_example : is_mergeable (ok (shift_one 12)) ≡ (leb 12 12 && leb 12 62)
is_mergeable_example = is_mergeable-shift_one 12 (omega arith)

sha-IsLine : IsLine (λ d. some d) (codes "sha256:ab12")
unfolding is_space
sha-IsLine = record {
  accepted = refl;
  not_empty = λ e. cc;
  fits = omega arith;
  plain =
      (refl, (refl, (refl, (refl, (refl, (refl, (refl, (refl, (refl, (refl, (refl, tt)))))))))));
}

manifest_example :
    parse_manifest (λ d. some d) (manifest_content (codes "sha256:ab12" ∷ codes "sha256:ab12" ∷ []))
    ≡ ok (codes "sha256:ab12" ∷ codes "sha256:ab12" ∷ [])
manifest_example =
    parse_manifest-manifest_content (λ d. some d) (codes "sha256:ab12") (codes "sha256:ab12" ∷ [])
      (sha-IsLine, (sha-IsLine, tt))
