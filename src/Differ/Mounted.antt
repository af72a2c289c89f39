-- ===== src/Differ/Mounted.antt =====
-- internal/differ/compare_linux.go: withLowerMount, withUpperMount and writeDiffFromMounts. The
-- function that works on the mounts is run inside them, and its result is what it wrote.
pub mod Balance
use nexus_erofs.Prelude.{
  ℕ, Bool, true, false, not, List, [], ◌∷◌, ◌++◌, Option, none, some, Bytes, codes, if◌then◌else◌,
}
use nexus_erofs.Errors.{Error, Result, ok, err, not_implemented, wrap}
use nexus_erofs.Mount.{Mount}
use nexus_erofs.Os.{World, Exec, pure, raise, lift, deferred, wrapping, ◌>>=◌}
use nexus_erofs.MountUtils.{
  needs_mount_manager, needs_non_temporary_activation, has_erofs_multi_device,
  has_active_snapshot_mounts,
}
use nexus_erofs.MountUtils.Host.{MountTools}
use nexus_erofs.Differ.{Services, Manager, ActivationInfo}
use nexus_erofs.Differ.Media.{single_bind, lower_root}
use nexus_erofs.Differ.Active.{with_erofs_temp_mount, with_active_snapshot_mount}

module _ {Meta A : Type 0} where
  answer_in : Result A × Meta → World Meta → Result A × World Meta
  answer_in (r, m) w = (r, record w { meta = m })

  -- a call of code whose own state is in the metadata
  unfoldable pub call : (Meta → Result A × Meta) → Exec Meta A
  unfolding answer_in
  call op w = answer_in (op w.meta) w

module _ {Meta : Type 0} (S : Services Meta) where
  -- mountutils.UniqueRef
  unfoldable pub unique_ref : Exec Meta Bytes
  unique_ref = call (λ m. let (text, m') = S.unique_text m in (ok text, m'))

module _ (T : MountTools) {Meta : Type 0} (S : Services Meta) where
  root_or_lower : (Bytes → Exec Meta Bytes) → List Mount → Option Bytes → Exec Meta Bytes
  root_or_lower f system (some root) = f root
  root_or_lower f system none = S.with_temp_mount system f

  root_or_upper : (Bytes → Exec Meta Bytes) → List Mount → Option Bytes → Exec Meta Bytes
  root_or_upper f system (some root) = f root
  root_or_upper f system none = S.with_readonly_temp_mount system f

  -- Activation under a new name, temporary unless a mount forbids it, and the function inside it.
  activated :
      Bytes
      → List Mount
      → (ActivationInfo → Exec Meta Bytes)
      → Option (Manager Meta)
      → Exec Meta Bytes
  unfolding unique_ref
  activated prefix mounts inside none =
      raise (wrap "mount manager is required to resolve formatted mounts" not_implemented)
  activated prefix mounts inside (some mm) = do
    text ← unique_ref S
    let name = prefix ++ text
    info ← call (mm.activate name mounts (not (needs_non_temporary_activation mounts)))
    deferred (call (mm.deactivate name)) (inside info)

  -- withLowerMount
  unfoldable pub with_lower_mount :
      List Mount → Option (Manager Meta) → (Bytes → Exec Meta Bytes) → Exec Meta Bytes
  unfolding activated root_or_lower
  with_lower_mount lower mm f =
      if has_erofs_multi_device lower
      then with_erofs_temp_mount T S lower f
      else if needs_mount_manager lower
      then activated (codes "erofs-diff-lower-") lower
          (λ info. root_or_lower f info.system (lower_root info.system info.active)) mm
      else S.with_temp_mount lower f

  -- withUpperMount
  unfoldable pub with_upper_mount :
      List Mount → Option (Manager Meta) → (Bytes → Exec Meta Bytes) → Exec Meta Bytes
  unfolding activated root_or_upper
  with_upper_mount upper mm f =
      if has_active_snapshot_mounts upper
      then with_active_snapshot_mount T S upper f
      else if has_erofs_multi_device upper
      then with_erofs_temp_mount T S upper f
      else if needs_mount_manager upper
      then activated (codes "erofs-diff-upper-") upper
          (λ info. root_or_upper f info.system (single_bind info.system)) mm
      else S.with_readonly_temp_mount upper f

  -- The pieces are written one by one, and a failure ends the diff.
  write_pieces : (Bytes → Exec Meta (Unit {0})) → List Bytes → Exec Meta Bytes
  write_pieces write [] = pure []
  write_pieces write (piece ∷ pieces) = do
    _ ← write piece
    rest ← write_pieces write pieces
    pure (piece ++ rest)

  -- archive.WriteDiff, with the writer that it is given
  write_diff : (Bytes → Exec Meta (Unit {0})) → Bytes → Bytes → Exec Meta Bytes
  unfolding write_pieces
  write_diff write lower upper w =
      let (pieces, outcome) = S.diff_pieces lower upper w.files in
      (do written ← write_pieces write pieces; _ ← lift outcome; pure written) w

  -- writeDiffFromMounts
  unfoldable pub write_diff_from_mounts :
      List Mount
      → List Mount
      → Option (Manager Meta)
      → (Bytes → Exec Meta (Unit {0}))
      → Exec Meta Bytes
  unfolding with_lower_mount with_upper_mount write_diff
  write_diff_from_mounts lower upper mm write = with_lower_mount lower mm λ below.
      with_upper_mount upper mm
        λ above. wrapping "failed to write diff" (write_diff write below above)
