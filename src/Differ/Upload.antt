-- ===== src/Differ/Upload.antt =====
-- internal/differ/compare_linux.go: Compare, and the upload of a diff to the content store.
pub mod Tracks
pub mod Steps
pub mod Committing
pub mod Ingests
use nexus_erofs.Prelude.{
  ℕ, Bool, true, false, not, String, List, [], ◌∷◌, ◌++◌, Option, none, some, Bytes, codes, ◌==◌,
  bytes_eq, if◌then◌else◌,
}
use nexus_erofs.Errors.{Error, Result, ok, err, wrap}
use nexus_erofs.Mount.{Mount}
use nexus_erofs.Os.{World, Exec, pure, raise, lift, attempt, wrapping, ◌>>=◌}
use nexus_erofs.MountUtils.Host.{MountTools}
use nexus_erofs.Storage.{Labels}
use nexus_erofs.Differ.{
  Services, Manager, ContentStore, Stream, Descriptor, ContentInfo, Compression, uncompressed, gzip,
  zstd,
}
use nexus_erofs.Differ.Media.{compression_type_from_media_type, media_type_image_layer_gzip}
use nexus_erofs.Differ.Mounted.{call, unique_ref, write_diff_from_mounts}

-- labels.LabelUncompressed
abbrev pub label_uncompressed : Bytes
label_uncompressed = codes "containerd.io/uncompressed"

-- diff.Config; no compressor of the caller's own is `none`
pub record DiffConfig (Meta : Type 0) : Type 0 where
  pub media_type : Bytes
  pub reference : Bytes
  pub labels : Option Labels
  pub compressor : Option (Stream Meta)

-- the value of a label, and the empty text where there is none
unfoldable pub label_of : Bytes → Labels → Option Bytes
label_of key [] = none
label_of key ((k, v) ∷ ls) = let rest = label_of key ls in if k == key then some v else rest

-- an assignment to a map
unfoldable pub set_label : Bytes → Bytes → Labels → Labels
set_label key value [] = (key, value) ∷ []
set_label key value ((k, v) ∷ ls) =
    let rest = set_label key value ls in if k == key then (key, value) ∷ ls else (k, v) ∷ rest

abbrev pub labels_or_empty : Option Labels → Labels
labels_or_empty none = []
labels_or_empty (some ls) = ls

text_or_empty : Option Bytes → Bytes
text_or_empty none = []
text_or_empty (some v) = v

-- config.Labels[labels.LabelUncompressed]
unfoldable pub label_in_config : Option Labels → Bytes
unfolding text_or_empty label_of
label_in_config ls = text_or_empty (label_of label_uncompressed (labels_or_empty ls))

-- newReference
is_empty : Bytes → Bool
is_empty [] = true
is_empty (c ∷ cs) = false

abbrev pub is_uncompressed : Compression → Bool
is_uncompressed uncompressed = true
is_uncompressed gzip = false
is_uncompressed zstd = false

module _ {Meta : Type 0} (S : Services Meta) where
  -- What the function writes goes to the writer, and so does what it returns.
  abbrev pub DiffWriteFunc : Type 0
  DiffWriteFunc = (Bytes → Exec Meta (Unit {0})) → Exec Meta Bytes

  stream_or : Compression → Option (Stream Meta) → Stream Meta
  stream_or kind (some own) = own
  stream_or kind none = S.compress kind

  stream_of : DiffConfig Meta → Compression → Stream Meta
  unfolding stream_or
  stream_of config kind = stream_or kind config.compressor

  -- writeCompressedDiff: the digest is of the bytes before their compression.
  unfoldable pub write_compressed_diff :
      Bytes → Bytes → Stream Meta → DiffWriteFunc → Exec Meta Bytes
  write_compressed_diff ref media_type stream write_fn = do
    _ ← wrapping "failed to get compressed stream" (call (stream.start ref media_type))
    written ← attempt (write_fn (λ piece. call (stream.write ref piece)))
    _ ← attempt (call (stream.close ref))
    bytes ← wrapping "failed to write compressed diff" (lift written)
    pure (S.sha256 bytes)

  update_unless : ContentInfo → Bytes → Option Bytes → Exec Meta (Unit {0})
  unfolding set_label
  update_unless info digest (some _) = pure tt
  update_unless info digest none = wrapping "error setting uncompressed label" (
      call (
        S.store.update
          (record info {
            labels = some (set_label label_uncompressed digest (labels_or_empty info.labels));
          })
          (codes "labels." ++ label_uncompressed)))

  -- ensureUncompressedLabel
  unfoldable pub ensure_uncompressed_label : ContentInfo → Bytes → Exec Meta (Unit {0})
  unfolding update_unless label_of
  ensure_uncompressed_label info digest =
      update_unless info digest (label_of label_uncompressed (labels_or_empty info.labels))

  abort_if : Bool → Bytes → Exec Meta (Unit {0})
  abort_if false ref = pure tt
  abort_if true ref = do _ ← attempt (call (S.store.abort ref)); pure tt

  committed : Result (Unit {0}) → Result (Unit {0})
  committed (ok _) = ok tt
  committed (err e) = if S.is_already_exists e then ok tt else err (wrap "failed to commit" e)

  -- The diff is written, compressed or not; the labels come back.
  fill : DiffConfig Meta → Bytes → Compression → DiffWriteFunc → Exec Meta (Option Labels)
  unfolding write_compressed_diff set_label stream_of
  fill config ref kind write_fn =
      if is_uncompressed kind
      then (do
        _ ← wrapping "failed to write diff" (write_fn (λ piece. call (S.store.write ref piece)))
        pure config.labels)
      else (do
        digest ← write_compressed_diff ref config.media_type (stream_of config kind) write_fn
        pure (some (set_label label_uncompressed digest (labels_or_empty config.labels))))

  truncate_if_old : Bool → Bytes → Exec Meta (Unit {0})
  truncate_if_old true ref = pure tt
  truncate_if_old false ref = call (S.store.truncate ref)

  digest_now : Bytes → Exec Meta Bytes
  digest_now ref = call (λ m. (ok (S.store.digest ref m), m))

  -- from Truncate to Commit, where errOpen is set by a failure
  pub write_and_commit :
      Bool
      → DiffConfig Meta
      → Bytes
      → Compression
      → DiffWriteFunc
      → Exec Meta (Bytes × Option Labels)
  unfolding fill truncate_if_old digest_now committed
  write_and_commit new_reference config ref kind write_fn = do
    _ ← truncate_if_old new_reference ref
    labels ← fill config ref kind write_fn
    digest ← digest_now ref
    outcome ← attempt (call (S.store.commit ref digest labels))
    _ ← lift (committed outcome)
    pure (digest, labels)

  describe : DiffConfig Meta → Bytes × Option Labels → Exec Meta Descriptor
  unfolding ensure_uncompressed_label label_in_config
  describe config (digest, labels) = do
    info ← wrapping "failed to get info from content store" (call (λ m. (S.store.info digest m, m)))
    _ ← ensure_uncompressed_label info (label_in_config labels)
    pure (record { media_type = config.media_type; size = info.size; digest = info.digest })

  -- Where an error is open, the deferred function closes the writer, and aborts a new upload.
  settle : Bool → DiffConfig Meta → Bytes → Result (Bytes × Option Labels) → Exec Meta Descriptor
  unfolding abort_if describe
  settle new_reference config ref (ok found) = describe config found
  settle new_reference config ref (err e) = do
    _ ← attempt (call (S.store.close ref))
    _ ← abort_if new_reference ref
    raise e

  reference_or_new : Bytes → Exec Meta Bytes
  unfolding unique_ref
  reference_or_new [] = unique_ref S
  reference_or_new (c ∷ cs) = pure (c ∷ cs)

  upload_under : Bytes → DiffConfig Meta → DiffWriteFunc → Exec Meta Descriptor
  unfolding is_empty reference_or_new write_and_commit settle
  upload_under reference config write_fn = do
    kind ← lift (compression_type_from_media_type config.media_type)
    ref ← reference_or_new reference
    _ ← wrapping "failed to open writer" (call (S.store.writer ref config.media_type))
    outcome ← attempt (write_and_commit (is_empty reference) config ref kind write_fn)
    settle (is_empty reference) config ref outcome

  -- writeAndCommitDiff
  unfoldable pub write_and_commit_diff : DiffConfig Meta → DiffWriteFunc → Exec Meta Descriptor
  unfolding upload_under
  write_and_commit_diff config write_fn = upload_under config.reference config write_fn

module _ {Meta : Type 0} where
  -- the default of Compare
  default_media_type : DiffConfig Meta → DiffConfig Meta
  default_media_type config =
      if config.media_type == []
      then record config { media_type = media_type_image_layer_gzip }
      else config

-- ErofsDiff.mmResolver: none, or a function that may yield no manager
unfoldable pub mount_manager :
    {Meta : Type 0} → Option (Option (Manager Meta)) → Option (Manager Meta)
mount_manager none = none
mount_manager (some mm) = mm

module _ (T : MountTools) {Meta : Type 0} (S : Services Meta) where
  -- Compare, of the options' configuration
  unfoldable pub compare :
      Option (Option (Manager Meta))
      → DiffConfig Meta
      → List Mount
      → List Mount
      → Exec Meta Descriptor
  unfolding default_media_type mount_manager
  compare resolver config lower upper =
      write_and_commit_diff S (default_media_type config)
        (write_diff_from_mounts T S lower upper (mount_manager resolver))
