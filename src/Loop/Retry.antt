-- ===== src/Loop/Retry.antt =====
-- The retry loop of Setup in internal/loop/loop_linux.go, under a schedule that refuses LOOP_SET_FD
-- with EBUSY for some rounds, as when another process takes the free device first.
use nexus_erofs.Prelude.{
  ℕ, zero, suc, ◌≤◌, ◌+◌, if◌then◌else◌, ◌≡◌, refl, ap, ◌∙◌, arith, List, [], ◌∷◌, Option, none,
  some, Bytes,
}
use nexus_erofs.Errors.{Result, ok, err, os_error, Errno, ebusy, wrap}
use nexus_erofs.Os.{World, pure, attempt, wrapping, system_call, stat, write_file, ◌>>=◌}
use nexus_erofs.Os.Tree.{Node, lookup}
use nexus_erofs.Os.Devices.{LoopDevice, Loops, configured-head}
use nexus_erofs.Loop.{
  LoopControl, IsFreeNumber, acquire, device_path, open_device, set_fd, set_status, set_serial,
  setup, info_of, max_retries_left,
}
use nexus_erofs.Loop.Types.{LoopConfig, Device, copied_name, no_info}

-- In each round, the number is found and the device is opened, and LOOP_SET_FD is refused.
unfoldable pub busy_rounds : ℕ → List (Option Errno)
busy_rounds zero = []
busy_rounds (suc n) = none ∷ none ∷ some ebusy ∷ busy_rounds n

-- The schedule of a whole call: the backing file and /dev/loop-control are opened before.
abbrev pub setup_rounds : ℕ → List (Option Errno)
setup_rounds k = none ∷ none ∷ busy_rounds k

abbrev pub device_at : ℕ → Device
device_at n = record { path = device_path n; number = n }

-- The device that Setup leaves in the table: what the kernel keeps of a status with the offset and the
-- size limit of the configuration, LO_FLAGS_READ_ONLY (1) and LO_FLAGS_DIRECT_IO (16) where they are
-- asked for, and the file's name.
abbrev pub device_in_table : LoopControl → Bytes → LoopConfig → ℕ → LoopDevice
device_in_table K backing cfg n = record {
  path = device_path n;
  backing = backing;
  info = K.stored (record {
    offset = cfg.offset;
    size_limit = cfg.size_limit;
    flags = (if cfg.read_only then 1 else 0) + (if cfg.direct_io then 16 else 0);
    file_name = copied_name backing;
  });
}

module _ {Meta : Type 0} where
  -- what a call returns, and the table behind it
  abbrev pub seen : Result Device × World Meta → Result Device × Loops
  seen (r, w) = (r, w.loops)

module _ (K : LoopControl) (free : IsFreeNumber K) {Meta : Type 0} where
  abbrev fresh : Bytes → World Meta → LoopDevice
  fresh backing w = record {
    path = device_path (K.free_number w.loops);
    backing = backing;
    info = no_info;
  }

  acquire-now :
      (left : ℕ) (backing : Bytes) (w : World Meta)
      → acquire K left backing (record w { faults = [] })
        ≡ (ok (K.free_number w.loops), record w { faults = []; loops = fresh backing w ∷ w.loops })
  unfolding acquire system_call set_fd open_device ◌>>=◌ attempt wrapping
  acquire-now zero backing w = rw (free.is_free w.loops) refl
  acquire-now (suc left) backing w = rw (free.is_free w.loops) refl

  acquire-busy :
      (k left : ℕ) (backing : Bytes) (w : World Meta)
      → k ≤ left
      → acquire K left backing (record w { faults = busy_rounds k })
        ≡ (ok (K.free_number w.loops), record w { faults = []; loops = fresh backing w ∷ w.loops })
  unfolding acquire system_call set_fd open_device ◌>>=◌ attempt wrapping busy_rounds
  acquire-busy zero left backing w h = acquire-now left backing w
  acquire-busy (suc k) zero backing w h = ground (arith, h)
  acquire-busy (suc k) (suc left) backing w h = acquire-busy k left backing w (omega (arith, h))

  acquire-exhausted :
      (left : ℕ) (backing : Bytes) (w : World Meta)
      → acquire K left backing (record w { faults = busy_rounds (suc left) })
        ≡ (err (wrap "LOOP_SET_FD failed" (os_error ebusy)), record w { faults = [] })
  unfolding acquire system_call set_fd open_device ◌>>=◌ attempt wrapping busy_rounds
  acquire-exhausted zero backing w = refl
  acquire-exhausted (suc left) backing w = acquire-exhausted left backing w

  setup-acquired :
      (backing : Bytes) (cfg : LoopConfig) (w : World Meta) (n : Node) (k : ℕ) (serial : Bytes)
      → cfg.serial ≡ serial
      → lookup backing w.files ≡ some n
      → k ≤ 4
      → seen (setup K backing cfg (record w { faults = setup_rounds k })) ≡ (
        ok (device_at (K.free_number w.loops)),
        device_in_table K backing cfg (K.free_number w.loops) ∷ w.loops,
      )
  unfolding setup stat system_call open_device ◌>>=◌ attempt wrapping set_status set_serial
      write_file pure
  setup-acquired backing cfg w n k [] named found h =
      rw
        (
          found,
          acquire-busy k max_retries_left backing w h,
          named,
          configured-head (fresh backing w) (K.stored (info_of backing cfg)) w.loops
              (free.is_free w.loops),
        )
        refl
  setup-acquired backing cfg w n k (c ∷ cs) named found h =
      rw
        (
          found,
          acquire-busy k max_retries_left backing w h,
          named,
          configured-head (fresh backing w) (K.stored (info_of backing cfg)) w.loops
              (free.is_free w.loops),
        )
        refl

  -- With at most four busy rounds, Setup of a file that is there returns the device of the number
  -- that the kernel finds free, and the table gains that device and no other: the file behind it,
  -- the kernel keeps what it does of a status with the flags, offset, size limit and name of the
  -- configuration.
  pub setup-retries :
      (backing : Bytes) (cfg : LoopConfig) (w : World Meta) (n : Node) (k : ℕ)
      → lookup backing w.files ≡ some n
      → w.faults ≡ setup_rounds k
      → k ≤ 4
      → seen (setup K backing cfg w) ≡ (
        ok (device_at (K.free_number w.loops)),
        device_in_table K backing cfg (K.free_number w.loops) ∷ w.loops,
      )
  setup-retries backing cfg w n k found scheduled h =
      ap (λ fs. seen (setup K backing cfg (record w { faults = fs }))) scheduled
      ∙ setup-acquired backing cfg w n k cfg.serial refl found h

  setup-exhausted :
      (backing : Bytes) (cfg : LoopConfig) (w : World Meta) (n : Node)
      → lookup backing w.files ≡ some n
      → setup K backing cfg (record w { faults = setup_rounds 5 })
        ≡ (err (wrap "LOOP_SET_FD failed" (os_error ebusy)), record w { faults = [] })
  unfolding setup stat system_call open_device ◌>>=◌ attempt wrapping
  setup-exhausted backing cfg w n found =
      rw (found, acquire-exhausted max_retries_left backing w) refl

  -- After the fifth busy round Setup gives up: it returns the refusal of LOOP_SET_FD, and the table of
  -- loop devices and the files are as they were.
  pub setup-gives_up :
      (backing : Bytes) (cfg : LoopConfig) (w : World Meta) (n : Node)
      → lookup backing w.files ≡ some n
      → w.faults ≡ setup_rounds 5
      → ((setup K backing cfg w).0 ≡ err (wrap "LOOP_SET_FD failed" (os_error ebusy)))
        × ((setup K backing cfg w).1 ≡ record w { faults = [] })
  setup-gives_up backing cfg w n found scheduled = (ap (λ p. p.0) whole, ap (λ p. p.1) whole)
    where
      whole :
          setup K backing cfg w
          ≡ (err (wrap "LOOP_SET_FD failed" (os_error ebusy)), record w { faults = [] })
      whole =
          ap (λ fs. setup K backing cfg (record w { faults = fs })) scheduled
          ∙ setup-exhausted backing cfg w n found
