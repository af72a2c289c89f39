-- ===== src/Daemon/Run/Configured.antt =====
-- The configuration of the snapshotter that `run` of cmd/spin-erofs-snapshotter/main.go makes of its
-- flags.
use nexus_erofs.Prelude.{ℕ, zero, suc, ◌≡◌, refl, ◌∙◌, sym, Bool, true, false, ◌++◌}
use nexus_erofs.Errors.{ok}
use nexus_erofs.Preflight.{check}
use nexus_erofs.Snapshotter.Types.{Config}
use nexus_erofs.Snapshotter.Start.{
  ℤ, pos, negsuc, apply_opts, initial_config, default_writable_size, HostFacts,
}
use nexus_erofs.Snapshotter.Start.Checked.{IsChecked}
use nexus_erofs.Daemon.{Flags}
use nexus_erofs.Daemon.Run.{size_opts, immutable_opts, snapshotter_opts}

-- The size that the flag asks for where it is positive, and the default size otherwise.
abbrev pub size_or_default : ℤ → ℕ
size_or_default (pos zero) = default_writable_size
size_or_default (pos (suc n)) = suc n
size_or_default (negsuc n) = default_writable_size

pub record IsConfigured (H : HostFacts) (flags : Flags) (s : Config) : Type 0 where
  pub at_root : s.root ≡ flags.root
  pub flag : s.set_immutable ≡ flags.set_immutable
  pub size : s.default_writable ≡ size_or_default flags.default_size
  pub supported : check H.running H.found H.filesystems ≡ ok tt

pos-injective : (m n : ℕ) → pos m ≡ pos n → m ≡ n
pos-injective m n h = cc

applied_flag :
    (flags : Flags)
    → (apply_opts (snapshotter_opts flags) initial_config).immutable ≡ flags.set_immutable
unfolding snapshotter_opts apply_opts
applied_flag flags = applied flags.default_size flags.set_immutable
  where
    applied :
        (z : ℤ) (b : Bool)
        → (apply_opts (size_opts z ++ immutable_opts b) initial_config).immutable ≡ b
    applied (pos zero) true = refl
    applied (pos zero) false = refl
    applied (pos (suc n)) true = refl
    applied (pos (suc n)) false = refl
    applied (negsuc n) true = refl
    applied (negsuc n) false = refl

applied_size :
    (flags : Flags)
    → (apply_opts (snapshotter_opts flags) initial_config).default_size
      ≡ pos (size_or_default flags.default_size)
unfolding snapshotter_opts apply_opts
applied_size flags = applied flags.default_size flags.set_immutable
  where
    applied :
        (z : ℤ) (b : Bool)
        → (apply_opts (size_opts z ++ immutable_opts b) initial_config).default_size
          ≡ pos (size_or_default z)
    applied (pos zero) true = refl
    applied (pos zero) false = refl
    applied (pos (suc n)) true = refl
    applied (pos (suc n)) false = refl
    applied (negsuc n) true = refl
    applied (negsuc n) false = refl

-- What the options make of the flags is what NewSnapshotter has checked.
pub checked-IsConfigured :
    (H : HostFacts) (flags : Flags) (s : Config)
    → IsChecked H flags.root (snapshotter_opts flags) s
    → IsConfigured H flags s
checked-IsConfigured H flags s c = record {
  at_root = c.at_root;
  flag = c.flag ∙ applied_flag flags;
  size = pos-injective _ _ (sym c.size ∙ applied_size flags);
  supported = c.supported;
}
