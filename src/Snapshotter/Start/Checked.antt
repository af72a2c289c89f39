-- ===== src/Snapshotter/Start/Checked.antt =====
-- What NewSnapshotter of internal/snapshotter/snapshotter.go has checked when it succeeds.
use nexus_erofs.Prelude.{ℕ, zero, suc, ◌≡◌, ◌<◌, refl, ap, arith, List, Bytes}
use nexus_erofs.Errors.{ok}
use nexus_erofs.Os.Ensures.{
  Ensures, Ensures-any, Ensures-bind, Ensures-pure, Ensures-lift, Ensures-wrapping,
}
use nexus_erofs.Preflight.{check}
use nexus_erofs.Storage.{External}
use nexus_erofs.Snapshotter.Types.{Config}
use nexus_erofs.Snapshotter.Start.{
  ℤ, pos, negsuc, Opt, apply_opts, initial_config, HostFacts, positive_size, check_compatibility,
  new_snapshotter,
}

-- the configuration that comes of a start
pub record IsChecked (H : HostFacts) (root : Bytes) (opts : List Opt) (s : Config) : Type 0 where
  pub at_root : s.root ≡ root
  pub flag : s.set_immutable ≡ (apply_opts opts initial_config).immutable
  pub size : (apply_opts opts initial_config).default_size ≡ pos s.default_writable
  pub positive : 0 < s.default_writable
  pub supported : check H.running H.found H.filesystems ≡ ok tt

same : (m n : ℕ) → ok (suc m) ≡ ok n → suc m ≡ n
same m n h = cc

positive_size_ok : (z : ℤ) (n : ℕ) → positive_size z ≡ ok n → (z ≡ pos n) × (0 < n)
unfolding positive_size
positive_size_ok (pos zero) n h = absurd cc
positive_size_ok (pos (suc m)) n h = (ap pos (same m n h), omega (arith, same m n h))
positive_size_ok (negsuc m) n h = absurd cc

module _ (H : HostFacts) where
  check_compatibility-Ensures :
      {Meta : Type 0} (root : Bytes)
      → Ensures {Meta = Meta}
          (λ _. check H.running H.found H.filesystems ≡ ok tt)
          (check_compatibility H root)
  unfolding check_compatibility
  check_compatibility-Ensures root =
      Ensures-bind {Q = λ _. check H.running H.found H.filesystems ≡ ok tt} _ _
        (Ensures-wrapping _ _ (Ensures-lift (check H.running H.found H.filesystems)))
        λ u h. Ensures-bind _ _ (Ensures-any _) λ supported _. record { at = λ w a done. h }

  -- A start that succeeds yields a configuration with the given root and the last values of the
  -- options, a size of the writable layer that is not 0, and a kernel and tools that the preflight
  -- check accepts.
  pub new_snapshotter-Ensures :
      (E : External) (root : Bytes) (opts : List Opt)
      → Ensures (IsChecked H root opts) (new_snapshotter H E root opts)
  unfolding new_snapshotter
  new_snapshotter-Ensures E root opts = Ensures-bind _ _ (Ensures-any _) λ _ _.
      Ensures-bind _ _ (Ensures-lift (positive_size (apply_opts opts initial_config).default_size))
        λ n sized.
          Ensures-bind _ _ (Ensures-wrapping _ _ (check_compatibility-Ensures root)) λ _ ready.
            Ensures-bind _ _ (Ensures-any _) λ _ _. Ensures-bind _ _ (Ensures-any _) λ _ _.
              Ensures-bind _ _ (Ensures-any _) λ made _. Ensures-bind _ _ (Ensures-any _) λ _ _.
                Ensures-bind _ _ (Ensures-any _) λ _ _. Ensures-pure _ (record {
                  at_root = refl;
                  flag = refl;
                  size = (positive_size_ok (apply_opts opts initial_config).default_size n sized).0;
                  positive =
                      (positive_size_ok (apply_opts opts initial_config).default_size n sized).1;
                  supported = ready;
                })
