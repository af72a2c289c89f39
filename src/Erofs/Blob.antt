-- ===== src/Erofs/Blob.antt =====
-- LayerBlobFilename and DigestFromLayerBlobPath. Parse of the package go-digest is a parameter; a
-- digest is a text, and the empty text is no digest.
use nexus_erofs.Prelude.{
  ℕ, false, not, ◌≡◌, refl, ap, [], ◌∷◌, ◌++◌, Option, none, some, Bytes, codes, length,
  length-append, arith, if◌then◌else◌,
}
use nexus_erofs.Strings.{has_suffix, trim_suffix, replace_all, replace_first, has_byte}
use nexus_erofs.Strings.Affix.{has_suffix-append, trim_suffix-append}
use nexus_erofs.Strings.Split.{has_byte-append}
use nexus_erofs.Strings.Replace.{replace_all-append, replace_first-append}
use nexus_erofs.FilePath.{slash, base, join_path}
use nexus_erofs.FilePath.Clean.{IsName}
use nexus_erofs.FilePath.Nest.{base-join_path_one}

abbrev colon : Bytes
colon = b':' ∷ []

abbrev dash : Bytes
dash = b'-' ∷ []

unfoldable pub layer_blob_extension : Bytes
layer_blob_extension = codes ".erofs"

-- LayerBlobFilename
unfoldable pub layer_blob_filename : Bytes → Bytes
unfolding layer_blob_extension
layer_blob_filename d = replace_all d colon dash ++ layer_blob_extension

or_empty : Option Bytes → Bytes
or_empty none = []
or_empty (some d) = d

-- DigestFromLayerBlobPath
unfoldable pub digest_from_layer_blob_path : (Bytes → Option Bytes) → Bytes → Bytes
unfolding layer_blob_extension or_empty
digest_from_layer_blob_path parse path =
    let filename = base path in
    if not (has_suffix filename layer_blob_extension)
    then []
    else or_empty (parse (replace_first (trim_suffix filename layer_blob_extension) b'-' b':'))

-- A digest as its algorithm and its encoded value: one colon, no dash before it, no slash.
pub record IsDigest (algorithm encoded : Bytes) : Type 0 where
  pub one_colon : has_byte algorithm b':' ≡ false
  pub no_colon : has_byte encoded b':' ≡ false
  pub no_dash : has_byte algorithm b'-' ≡ false
  pub no_slash : has_byte algorithm slash ≡ false
  pub no_slash_behind : has_byte encoded slash ≡ false

abbrev pub digest_of : Bytes → Bytes → Bytes
digest_of algorithm encoded = algorithm ++ (b':' ∷ encoded)

-- A text with the extension behind it is the name of a file.
IsName-extension : (t : Bytes) → has_byte t slash ≡ false → IsName (t ++ layer_blob_extension)
unfolding layer_blob_extension
IsName-extension t h = record {
  not_empty = λ e. absurd (omega (arith, ap (length {A = ℕ}) e, length-append t (codes ".erofs")));
  not_dot = λ e. absurd (omega (arith, ap (length {A = ℕ}) e, length-append t (codes ".erofs")));
  not_dot_dot =
      λ e. absurd (omega (arith, ap (length {A = ℕ}) e, length-append t (codes ".erofs")));
  no_slash = rw (has_byte-append, h) (unfold has_byte in refl);
}

module _ (algorithm encoded : Bytes) (h : IsDigest algorithm encoded) where
  layer_blob_filename_lem :
      layer_blob_filename (digest_of algorithm encoded)
      ≡ (algorithm ++ (b'-' ∷ encoded)) ++ layer_blob_extension
  unfolding layer_blob_filename
  layer_blob_filename_lem =
      ap (λ (t : Bytes). t ++ layer_blob_extension)
        (replace_all-append algorithm encoded b':' b'-' h.one_colon h.no_colon)

  layer_blob_filename-IsName : IsName (layer_blob_filename (digest_of algorithm encoded))
  layer_blob_filename-IsName = rw layer_blob_filename_lem (
      IsName-extension (algorithm ++ (b'-' ∷ encoded))
        (rw (has_byte-append, h.no_slash) (unfold has_byte in h.no_slash_behind)))

  -- The digest of a layer is read back from the path of its blob, in any directory.
  pub digest_from_layer_blob_path-layer_blob_filename :
      (parse : Bytes → Option Bytes) (layer : Bytes)
      → parse (digest_of algorithm encoded) ≡ some (digest_of algorithm encoded)
      → digest_from_layer_blob_path parse
          (join_path (layer ∷ layer_blob_filename (digest_of algorithm encoded) ∷ []))
        ≡ digest_of algorithm encoded
  unfolding digest_from_layer_blob_path
  digest_from_layer_blob_path-layer_blob_filename parse layer p = rw (
    base-join_path_one layer (layer_blob_filename (digest_of algorithm encoded))
        layer_blob_filename-IsName,
    layer_blob_filename_lem,
    has_suffix-append,
    trim_suffix-append,
    replace_first-append algorithm encoded b'-' b':' h.no_dash,
    p,
  )
