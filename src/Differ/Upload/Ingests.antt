-- ===== src/Differ/Upload/Ingests.antt =====
-- The uploads that are open in the content store behind Compare, of internal/differ/compare_linux.go.
use nexus_erofs.Prelude.{◌≡◌, sym, ◌∙◌, arith, List, [], Option, some, Bytes, bytes_eq}
use nexus_erofs.Mount.{Mount}
use nexus_erofs.Os.{World}
use nexus_erofs.MountUtils.Host.{MountTools}
use nexus_erofs.Differ.{Services, Manager, Stream}
use nexus_erofs.Differ.Mounted.Balance.{BalancedIfAny, LeavesAlone, write_diff_from_mounts-Keeps}
use nexus_erofs.Differ.Upload.{DiffConfig, default_media_type, mount_manager, compare}
use nexus_erofs.Differ.Upload.Tracks.{QuietStream, TracksIngests}
use nexus_erofs.Differ.Upload.Steps.{Closed, write_and_commit_diff-ingests}

module _ {Meta : Type 0} where
  same_reference :
      (config : DiffConfig Meta) → (default_media_type config).reference ≡ config.reference
  unfolding default_media_type
  same_reference config = ground arith

  same_compressor :
      (config : DiffConfig Meta) → (default_media_type config).compressor ≡ config.compressor
  unfolding default_media_type
  same_compressor config = ground arith

module _ (T : MountTools) {Meta : Type 0} (S : Services Meta) (ingests : Meta → List Bytes) where
  -- Compare without a reference of the caller's own, for all mounts and media types and under all
  -- refusals of system calls: where it succeeds, the open uploads are as they were; where it fails,
  -- they are as they were, or its own upload is open because the content store has refused to abort
  -- it. A writer opens an upload under a new reference, a commit that succeeds or finds the content
  -- there ends it, and so does an abort that succeeds; the new reference is of no open upload, and the
  -- mount manager, the temporary mounts and the streams do nothing to uploads.
  pub compare-ingests :
      (resolver : Option (Option (Manager Meta))) (config : DiffConfig Meta)
      (lower upper : List Mount) (w : World Meta)
      → (tracks : TracksIngests S ingests) → LeavesAlone ingests S
      → BalancedIfAny ingests (mount_manager resolver)
      → ((s : Stream Meta) → config.compressor ≡ some s → QuietStream ingests s)
      → config.reference ≡ []
      → Closed S ingests tracks
          (ingests w.meta)
          (compare T S resolver config lower upper w).0
          (ingests (compare T S resolver config lower upper w).1.meta)
  unfolding compare default_media_type
  compare-ingests resolver config lower upper w tracks leaves balanced own new =
      write_and_commit_diff-ingests S ingests tracks (default_media_type config) _ w
        (same_reference config ∙ new) (λ s h. own s (sym (same_compressor config) ∙ h))
        (λ write kept.
          write_diff_from_mounts-Keeps T S ingests leaves lower upper (mount_manager resolver) write
            balanced kept)
        leaves.named
