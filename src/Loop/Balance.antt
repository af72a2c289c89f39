-- ===== src/Loop/Balance.antt =====
-- Setup and Detach of internal/loop/loop_linux.go while no call is refused: what they do to the
-- table of loop devices.
use nexus_erofs.Prelude.{
  ◌≡◌, refl, ap, sym, ◌∙◌, arith, false, Bool-cases, inl, inr, List, [], ◌∷◌, map, none, some,
  Bytes, bytes_eq, eq_refl,
}
use nexus_erofs.Errors.{ok, err, os_error, enoent, wrap}
use nexus_erofs.Os.{World, pure, attempt, wrapping, system_call, stat, ◌>>=◌}
use nexus_erofs.Os.Tree.{Node, lookup}
use nexus_erofs.Os.Devices.{
  LoopDevice, Loops, is_attached, detached, detached_all, detached-free, configured-head,
}
use nexus_erofs.Loop.{
  LoopControl, IsFreeNumber, acquire, device_path, open_device, set_fd, set_status, clear_fd,
  detach, setup, info_of,
}
use nexus_erofs.Loop.Types.{LoopConfig, Device, no_info}
use nexus_erofs.Loop.Retry.{device_at, device_in_table}

-- the order of two detachments does not matter
pub detached_comm :
    (p q : Bytes) (ds : Loops) → detached p (detached q ds) ≡ detached q (detached p ds)
unfolding detached
detached_comm p q [] = refl
detached_comm p q (d ∷ ds) = ground (arith, detached_comm p q ds)

pub detached_all_comm :
    (p : Bytes) (ps : List Bytes) (ds : Loops)
    → detached_all ps (detached p ds) ≡ detached p (detached_all ps ds)
unfolding detached_all
detached_all_comm p [] ds = refl
detached_all_comm p (q ∷ ps) ds =
    ap (detached_all ps) (detached_comm q p ds) ∙ detached_all_comm p ps (detached q ds)

pub detached-head :
    (d : LoopDevice) (ds : Loops) → is_attached d.path ds ≡ false → detached d.path (d ∷ ds) ≡ ds
unfolding detached
detached-head d ds h = ground (arith, eq_refl d.path, detached-free d.path ds h)

abbrev pub paths_of : List Device → List Bytes
paths_of ds = map (λ d. d.path) ds

module _ {Meta : Type 0} where
  -- a state with a table and mount points, where no call is refused
  abbrev pub calm : World Meta → Loops → List Bytes → World Meta
  calm w ls mounted = record w { faults = []; loops = ls; mounted = mounted }

  pub detach-calm :
      (d : Device) (w : World Meta) (ls : Loops) (ms : List Bytes)
      → detach d (calm w ls ms) ≡ (ok tt, calm w (detached d.path ls) ms)
  unfolding detach open_device clear_fd system_call ◌>>=◌ attempt pure
  detach-calm d w ls ms = elim (Bool-cases (is_attached d.path ls)) [
    | inl attached ↦ rw attached refl
    | inr unattached ↦ rw (unattached, detached-free d.path ls unattached) refl
  ]

module _ (K : LoopControl) (free : IsFreeNumber K) {Meta : Type 0} where
  pub setup-missing :
      (backing : Bytes) (cfg : LoopConfig) (w : World Meta) (ls : Loops) (ms : List Bytes)
      → lookup backing w.files ≡ none
      → setup K backing cfg (calm w ls ms)
        ≡ (err (wrap "failed to open backing file" (os_error enoent)), calm w ls ms)
  unfolding setup stat system_call ◌>>=◌ wrapping
  setup-missing backing cfg w ls ms missing = rw missing refl

  pub setup-calm :
      (backing : Bytes) (cfg : LoopConfig) (w : World Meta) (ls : Loops) (ms : List Bytes)
      (n : Node)
      → cfg.serial ≡ []
      → lookup backing w.files ≡ some n
      → setup K backing cfg (calm w ls ms) ≡ (
        ok (device_at (K.free_number ls)),
        calm w (device_in_table K backing cfg (K.free_number ls) ∷ ls) ms,
      )
  unfolding setup acquire stat set_fd system_call open_device ◌>>=◌ attempt wrapping set_status pure
  setup-calm backing cfg w ls ms n unnamed found =
      rw
        (
          found,
          free.is_free ls,
          unnamed,
          configured-head
              (record { path = device_path (K.free_number ls); backing = backing; info = no_info })
              (K.stored (info_of backing cfg)) ls (free.is_free ls),
        )
        refl

  -- Setup of a file that is there, and then Detach of the device that it returned: both succeed and
  -- the whole state is as it was, while no call is refused and no serial is asked for.
  pub detach-setup :
      (backing : Bytes) (cfg : LoopConfig) (w : World Meta) (n : Node)
      → w.faults ≡ []
      → cfg.serial ≡ []
      → lookup backing w.files ≡ some n
      → (setup K backing cfg >>= detach) w ≡ (ok tt, w)
  unfolding ◌>>=◌
  detach-setup backing cfg w n quiet unnamed found =
      ap (λ fs. (setup K backing cfg >>= detach) (record w { faults = fs })) quiet
      ∙ (rw (setup-calm backing cfg w w.loops w.mounted n unnamed found) (
          detach-calm (device_at (K.free_number w.loops)) w
            (device_in_table K backing cfg (K.free_number w.loops) ∷ w.loops) w.mounted
          ∙ ap (λ ls. (ok tt, calm w ls w.mounted))
              (detached-head (device_in_table K backing cfg (K.free_number w.loops)) w.loops
                (free.is_free w.loops))
          ∙ ap (λ fs. (ok tt, record w { faults = fs })) (sym quiet)))
