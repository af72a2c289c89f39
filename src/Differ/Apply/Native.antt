-- ===== src/Differ/Apply/Native.antt =====
-- Apply of internal/differ/differ.go: what it returns and what it leaves in the layer's directory.
use nexus_erofs.Prelude.{
  ℕ, zero, suc, ◌≡◌, ◌≤◌, refl, arith, true, false, List, [], some, Bytes, ◌==◌, bytes_eq,
}
use nexus_erofs.Errors.{ok}
use nexus_erofs.Mount.{Mount}
use nexus_erofs.Os.{World, pure, lift, wrapping, system_call, write_file, ◌>>=◌}
use nexus_erofs.Os.Ensures.{Ensures}
use nexus_erofs.Os.Tree.{file, lookup, insert, lookup-insert_same}
use nexus_erofs.Erofs.Layer.{mounts_to_layer}
use nexus_erofs.Erofs.Tar.{Reader}
use nexus_erofs.Differ.{Descriptor}
use nexus_erofs.Differ.Media.{is_erofs_media_type, media_type_image_layer}
use nexus_erofs.Differ.Mounted.{call}
use nexus_erofs.Differ.Apply.{Processor, ApplyTools, layer_blob_path, process, apply}

module _ {Meta : Type 0} (A : ApplyTools Meta) where
  -- a chain of processors up to the first plain layer
  pub data Chain : Processor → Processor → ℕ → Type 0 where
    last :
        (p q : Processor)
        → A.get_processor p ≡ ok q
        → (q.media_type == media_type_image_layer) ≡ true
        → Chain p q 1
    further :
        (p r q : Processor) (n : ℕ)
        → A.get_processor p ≡ ok r
        → (r.media_type == media_type_image_layer) ≡ false
        → Chain r q n
        → Chain p q (suc n)

  -- The loop over the processors ends: with as much fuel as the chain of processors is long, it
  -- returns the first processor that yields a plain layer.
  pub process-Chain :
      (p q : Processor) (n fuel : ℕ) → Chain p q n → n ≤ fuel → process A fuel p ≡ ok q
  unfolding process
  process-Chain p q n zero (last _ _ found plain) h = ground (arith, h)
  process-Chain p q n (suc fuel) (last _ _ found plain) h = rw (found, plain) refl
  process-Chain p q n zero (further _ r _ k found other chain) h = ground (arith, h)
  process-Chain p q n (suc fuel) (further _ r _ k found other chain) h =
      rw (found, other) (process-Chain r q k fuel chain (omega (arith, h)))

  -- Given a native layer that can be read to its end, and mounts that lead to a layer's directory,
  -- Apply returns the descriptor that it was given while no call is refused, and the file named by
  -- the digest in that directory holds the content of the layer.
  pub apply-native :
      (fuel : ℕ) (desc : Descriptor) (mounts : List Mount) (layer : Bytes) (r : Reader)
      (w : World Meta)
      → is_erofs_media_type desc.media_type ≡ true
      → mounts_to_layer mounts w ≡ (ok layer, w)
      → (A.reader_at desc w.meta).0 ≡ ok r
      → r.outcome ≡ ok tt
      → w.faults ≡ []
      → ((apply A fuel desc mounts w).0 ≡ ok desc)
        × (lookup (layer_blob_path layer desc) (apply A fuel desc mounts w).1.files
            ≡ some (file r.content))
  unfolding apply ◌>>=◌ wrapping lift pure call write_file system_call
  apply-native fuel desc mounts layer r w native found readable whole quiet =
      rw (native, found, readable, quiet, whole)
        (
          refl,
          lookup-insert_same (layer_blob_path layer desc) (file r.content)
              (insert (layer_blob_path layer desc) (file []) w.files),
        )
