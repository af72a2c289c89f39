-- ===== src/Differ/Mounted/Balance.antt =====
-- Activations of the mount manager by the differ are undone: withLowerMount, withUpperMount and
-- writeDiffFromMounts of internal/differ/compare_linux.go.
use nexus_erofs.Prelude.{◌≡◌, refl, Bool, List, [], ◌∷◌, ◌++◌, Option, none, some, Bytes, codes}
use nexus_erofs.Errors.{Error, Result, ok, err}
use nexus_erofs.Mount.{Mount}
use nexus_erofs.Os.{World, Exec, deferred, continue, ◌>>=◌}
use nexus_erofs.Os.Keeps.{
  Keeps, Keeps-bind, Keeps-if, Keeps-pure, Keeps-lift, Keeps-raise, Keeps-wrapping,
}
use nexus_erofs.MountUtils.Host.{MountTools}
use nexus_erofs.Differ.{Services, Manager, ActivationInfo}
use nexus_erofs.Differ.Media.{single_bind, lower_root}
use nexus_erofs.Differ.Active.Kept.{with_erofs_temp_mount-Keeps, with_active_snapshot_mount-Keeps}
use nexus_erofs.Differ.Mounted.{
  call, unique_ref, root_or_lower, root_or_upper, activated, with_lower_mount, with_upper_mount,
  write_pieces, write_diff, write_diff_from_mounts,
}

-- Deactivation under a name undoes an activation that succeeded, and one that is refused has no
-- effect on what is observed.
pub record BalancedManager {Meta X : Type 0} (look : Meta → X) (mm : Manager Meta) : Type 0 where
  pub refused :
      (name : Bytes) (mounts : List Mount) (temporary : Bool) (m : Meta) (e : Error)
      → (mm.activate name mounts temporary m).0 ≡ err e
      → look (mm.activate name mounts temporary m).1 ≡ look m
  pub undone :
      (name : Bytes) (mounts : List Mount) (temporary : Bool) (m n : Meta) (info : ActivationInfo)
      → (mm.activate name mounts temporary m).0 ≡ ok info
      → look n ≡ look (mm.activate name mounts temporary m).1
      → look (mm.deactivate name n).1 ≡ look m

pub record BalancedIfAny {Meta X : Type 0} (look : Meta → X) (mm : Option (Manager Meta))
    : Type 0 where
  pub balanced : (m : Manager Meta) → mm ≡ some m → BalancedManager look m

-- The temporary mounts of containerd leave what is observed to the function that works on them.
pub record LeavesAlone {Meta X : Type 0} (look : Meta → X) (S : Services Meta) : Type 0 where
  pub named : (m : Meta) → look (S.unique_text m).1 ≡ look m
  pub temporary :
      (mounts : List Mount) (f : Bytes → Exec Meta Bytes)
      → ((root : Bytes) → Keeps (λ w. look w.meta) (f root))
      → Keeps (λ w. look w.meta) (S.with_temp_mount mounts f)
  pub read_only :
      (mounts : List Mount) (f : Bytes → Exec Meta Bytes)
      → ((root : Bytes) → Keeps (λ w. look w.meta) (f root))
      → Keeps (λ w. look w.meta) (S.with_readonly_temp_mount mounts f)

module _ {Meta X : Type 0} (look : Meta → X) where
  pub call-Keeps :
      {A : Type 0} (op : Meta → Result A × Meta)
      → ((m : Meta) → look (op m).1 ≡ look m)
      → Keeps (λ w. look w.meta) (call op)
  unfolding call
  call-Keeps op h = record { at = λ w. h w.meta }

  continue_bracket :
      {A B C : Type 0} (r : Result A) (last : Exec Meta C) (body : A → Exec Meta B) (v : World Meta)
      (before : X)
      → ((e : Error) → r ≡ err e → look v.meta ≡ before)
      → ((a : A) → Keeps (λ w. look w.meta) (body a))
      → ((a : A) (u : World Meta)
          → r ≡ ok a
          → look u.meta ≡ look v.meta
          → look (last u).1.meta ≡ before)
      → look (continue r (λ a. deferred last (body a)) v).1.meta ≡ before
  unfolding deferred
  continue_bracket (err e) last body v before failed kept undone = failed e refl
  continue_bracket (ok a) last body v before failed kept undone =
      undone a (body a v).1 refl ((kept a).at v)

module _ (T : MountTools) {Meta X : Type 0} (S : Services Meta) (look : Meta → X)
    (leaves : LeavesAlone look S) where
  bracket-Keeps :
      (mm : Manager Meta) (name : Bytes) (mounts : List Mount) (t : Bool)
      (inside : ActivationInfo → Exec Meta Bytes)
      → BalancedManager look mm
      → ((info : ActivationInfo) → Keeps (λ w. look w.meta) (inside info))
      → Keeps
          (λ w. look w.meta)
          (call (mm.activate name mounts t) >>= λ info.
            deferred (call (mm.deactivate name)) (inside info))
  unfolding call ◌>>=◌
  bracket-Keeps mm name mounts t inside balanced kept = record {
    at = λ w.
        continue_bracket look (mm.activate name mounts t w.meta).0 (call (mm.deactivate name))
          inside (record w { meta = (mm.activate name mounts t w.meta).1 }) (look w.meta)
          (λ e h. balanced.refused name mounts t w.meta e h) kept
          (λ info u h same. balanced.undone name mounts t w.meta u.meta info h same);
  }

  activated-Keeps :
      (prefix : Bytes) (mounts : List Mount) (inside : ActivationInfo → Exec Meta Bytes)
      (mm : Option (Manager Meta))
      → BalancedIfAny look mm
      → ((info : ActivationInfo) → Keeps (λ w. look w.meta) (inside info))
      → Keeps (λ w. look w.meta) (activated T S prefix mounts inside mm)
  unfolding activated unique_ref
  activated-Keeps prefix mounts inside none b kept = Keeps-raise _
  activated-Keeps prefix mounts inside (some mm) b kept =
      Keeps-bind _ _ (call-Keeps look _ leaves.named)
        λ text. bracket-Keeps mm (prefix ++ text) mounts _ inside (b.balanced mm refl) kept

  lower_kept :
      (f : Bytes → Exec Meta Bytes) (system : List Mount) (root : Option Bytes)
      → ((r : Bytes) → Keeps (λ w. look w.meta) (f r))
      → Keeps (λ w. look w.meta) (root_or_lower T S f system root)
  unfolding root_or_lower
  lower_kept f system (some root) h = h root
  lower_kept f system none h = leaves.temporary system f h

  upper_kept :
      (f : Bytes → Exec Meta Bytes) (system : List Mount) (root : Option Bytes)
      → ((r : Bytes) → Keeps (λ w. look w.meta) (f r))
      → Keeps (λ w. look w.meta) (root_or_upper T S f system root)
  unfolding root_or_upper
  upper_kept f system (some root) h = h root
  upper_kept f system none h = leaves.read_only system f h

  pub with_lower_mount-Keeps :
      (lower : List Mount) (mm : Option (Manager Meta)) (f : Bytes → Exec Meta Bytes)
      → BalancedIfAny look mm
      → ((root : Bytes) → Keeps (λ w. look w.meta) (f root))
      → Keeps (λ w. look w.meta) (with_lower_mount T S lower mm f)
  unfolding with_lower_mount
  with_lower_mount-Keeps lower mm f b h =
      Keeps-if _ _ _ (with_erofs_temp_mount-Keeps T S look lower f h) (
        Keeps-if _ _ _
          (activated-Keeps (codes "erofs-diff-lower-") lower _ mm b
            λ info. lower_kept f info.system (lower_root info.system info.active) h)
          (leaves.temporary lower f h))

  pub with_upper_mount-Keeps :
      (upper : List Mount) (mm : Option (Manager Meta)) (f : Bytes → Exec Meta Bytes)
      → BalancedIfAny look mm
      → ((root : Bytes) → Keeps (λ w. look w.meta) (f root))
      → Keeps (λ w. look w.meta) (with_upper_mount T S upper mm f)
  unfolding with_upper_mount
  with_upper_mount-Keeps upper mm f b h =
      Keeps-if _ _ _ (with_active_snapshot_mount-Keeps T S look upper f h) (
        Keeps-if _ _ _ (with_erofs_temp_mount-Keeps T S look upper f h) (
          Keeps-if _ _ _
            (activated-Keeps (codes "erofs-diff-upper-") upper _ mm b
              λ info. upper_kept f info.system (single_bind info.system) h)
            (leaves.read_only upper f h)))

  write_pieces-Keeps :
      (write : Bytes → Exec Meta (Unit {0})) (pieces : List Bytes)
      → ((piece : Bytes) → Keeps (λ w. look w.meta) (write piece))
      → Keeps (λ w. look w.meta) (write_pieces T S write pieces)
  unfolding write_pieces
  write_pieces-Keeps write [] h = Keeps-pure _
  write_pieces-Keeps write (piece ∷ pieces) h =
      Keeps-bind _ _ (h piece)
        λ _. Keeps-bind _ _ (write_pieces-Keeps write pieces h) λ rest. Keeps-pure _

  write_diff-Keeps :
      (write : Bytes → Exec Meta (Unit {0})) (below above : Bytes)
      → ((piece : Bytes) → Keeps (λ w. look w.meta) (write piece))
      → Keeps (λ w. look w.meta) (write_diff T S write below above)
  unfolding write_diff
  write_diff-Keeps write below above h = record {
    at = λ w.
        (Keeps-bind _ _ (write_pieces-Keeps write (S.diff_pieces below above w.files).0 h)
            λ written.
              Keeps-bind _ _ (Keeps-lift (S.diff_pieces below above w.files).1)
                λ _. Keeps-pure written).at
          w;
  }

  -- Whatever is observed of the mount manager, whose deactivation undoes its activation, is after a
  -- diff as it was before, whether the diff succeeds or fails, for all mounts and under all refusals
  -- of system calls: every activation is undone. The writer, the random names and the temporary
  -- mounts of containerd leave it alone.
  pub write_diff_from_mounts-Keeps :
      (lower upper : List Mount) (mm : Option (Manager Meta)) (write : Bytes → Exec Meta (Unit {0}))
      → BalancedIfAny look mm
      → ((piece : Bytes) → Keeps (λ w. look w.meta) (write piece))
      → Keeps (λ w. look w.meta) (write_diff_from_mounts T S lower upper mm write)
  unfolding write_diff_from_mounts
  write_diff_from_mounts-Keeps lower upper mm write b h =
      with_lower_mount-Keeps lower mm _ b λ below.
        with_upper_mount-Keeps upper mm _ b
          λ above. Keeps-wrapping _ _ (write_diff-Keeps write below above h)
