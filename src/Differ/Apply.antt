-- ===== src/Differ/Apply.antt =====
-- internal/differ/differ.go: Apply. The processors of package `diff`, readers of the content store,
-- and SHA-1 names are parameters.
pub mod Native
use nexus_erofs.Prelude.{
  ℕ, zero, suc, Bool, true, false, String, List, [], ◌∷◌, ◌++◌, Option, none, some, Bytes, codes,
  length, ◌==◌, bytes_eq, if◌then◌else◌,
}
use nexus_erofs.FilePath.{join_path}
use nexus_erofs.Errors.{Error, Result, ok, err, message, wrap}
use nexus_erofs.Mount.{Mount}
use nexus_erofs.Os.{World, Exec, pure, raise, lift, attempt, wrapping, write_file, ◌>>=◌}
use nexus_erofs.Erofs.Blob.{layer_blob_filename}
use nexus_erofs.Erofs.Layer.{mounts_to_layer}
use nexus_erofs.Erofs.Tar.{Reader, TarTools, convert_tar_erofs}
use nexus_erofs.Differ.{Descriptor}
use nexus_erofs.Differ.Media.{is_erofs_media_type, media_type_image_layer}
use nexus_erofs.Differ.Mounted.{call}

-- a stream processor
pub record Processor : Type 0 where
  pub media_type : Bytes
  pub stream : Reader

pub record ApplyTools (Meta : Type 0) : Type 0 where
  -- the reader of a descriptor's content
  pub reader_at : Descriptor → Meta → Result Reader × Meta
  -- whether images.DiffCompression knows the media type
  pub is_diff_type : Bytes → Bool
  -- diff.GetProcessor, with the payloads of the options
  pub get_processor : Processor → Result Processor
  pub sha256 : Bytes → Bytes
  -- uuid.NewSHA1 in the name space of URLs
  pub uuid_of : Bytes → Bytes
  -- runtime.GOOS
  pub goos : Bytes
  pub tar_tools : TarTools

-- defaultMkfsOpts
unfoldable pub default_mkfs_opts : Bytes → List Bytes
default_mkfs_opts goos = if goos == codes "darwin" then codes "-b4096" ∷ [] else []

abbrev pub unsupported_text : String
unsupported_text = "currently unsupported media type"

-- the blob's file name: that of the digest
abbrev pub layer_blob_path : Bytes → Descriptor → Bytes
layer_blob_path layer desc = join_path (layer ∷ layer_blob_filename desc.digest ∷ [])

module _ {Meta : Type 0} (A : ApplyTools Meta) where
  process_next : (Processor → Result Processor) → Result Processor → Result Processor
  process_next again (err e) = err (wrap "failed to get stream processor" e)
  process_next again (ok p) =
      let more = again p in if p.media_type == media_type_image_layer then ok p else more

  -- The loop over the processors, which ends at one that yields a plain layer. A chain that is
  -- longer than the fuel is an error here.
  unfoldable pub process : ℕ → Processor → Result Processor
  unfolding process_next
  process zero p = err (message "processor chain")
  process (suc fuel) p = process_next (process fuel) (A.get_processor p)

  -- os.Create, and io.Copy of the content: what was read before a failure is written.
  store_native : Bytes → Descriptor → Reader → Exec Meta Descriptor
  store_native path desc r = do
    _ ← write_file path []
    _ ← write_file path r.content
    _ ← lift r.outcome
    pure desc

  -- The digest and the count are of all that is read from the processor.
  unfoldable pub described : Reader → Descriptor
  described r = record {
    media_type = media_type_image_layer;
    size = length r.content;
    digest = A.sha256 r.content;
  }

  store_tar : Bytes → Descriptor → Processor → Exec Meta Descriptor
  unfolding described default_mkfs_opts
  store_tar path desc p = do
    _ ← wrapping "failed to convert tar to erofs" (
        convert_tar_erofs A.tar_tools p.stream path
          (A.uuid_of (codes "erofs:blobs/" ++ desc.digest)) (default_mkfs_opts A.goos))
    pure (described p.stream)

  store : ℕ → Bool → Bytes → Descriptor → Reader → Exec Meta Descriptor
  unfolding store_native store_tar
  store fuel native path desc r = if native then store_native path desc r else do
    p ← lift (process fuel (record { media_type = desc.media_type; stream = r }))
    store_tar path desc p

  check_media_type : Bool → Bytes → Exec Meta (Unit {0})
  check_media_type true media_type = pure tt
  check_media_type false media_type =
      if A.is_diff_type media_type then pure tt else raise (message unsupported_text)

  -- Apply
  unfoldable pub apply : ℕ → Descriptor → List Mount → Exec Meta Descriptor
  unfolding check_media_type store is_erofs_media_type
  apply fuel desc mounts = do
    let native = is_erofs_media_type desc.media_type
    _ ← check_media_type native desc.media_type
    layer ← wrapping "MountsToLayer failed" (mounts_to_layer mounts)
    r ← wrapping "failed to get reader from content store" (call (A.reader_at desc))
    store fuel native (layer_blob_path layer desc) desc r
