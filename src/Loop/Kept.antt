-- ===== src/Loop/Kept.antt =====
-- Loop devices and metadata: Setup and Detach of internal/loop/loop_linux.go leave the latter alone.
use nexus_erofs.Prelude.{ℕ, zero, suc, refl, arith, [], ◌∷◌, Bytes}
use nexus_erofs.Errors.{Result, ok, err}
use nexus_erofs.Os.{Exec}
use nexus_erofs.Os.Keeps.{
  Keeps, the_meta, meta_rules, system_call-meta, Keeps-bind, Keeps-if, Keeps-raise,
}
use nexus_erofs.Loop.{
  LoopControl, is_busy, open_device, set_fd, set_status, clear_fd, set_serial, cleared, opened,
  detach, grab, next_round, last_round, acquire, status_or_clear, serial_if, setup,
}
use nexus_erofs.Loop.Types.{LoopConfig, Device}

module _ {Meta : Type 0} where
  open_device-meta : (p : Bytes) → Keeps {Meta = Meta} the_meta (open_device p)
  unfolding open_device
  open_device-meta p = system_call-meta _ (record { at = λ w. refl })

  set_fd-meta : (p b : Bytes) → Keeps {Meta = Meta} the_meta (set_fd p b)
  unfolding set_fd
  set_fd-meta p b = system_call-meta _ (record { at = λ w. ground arith })

  set_status-meta :
      (K : LoopControl) (p : Bytes) (i : _) → Keeps {Meta = Meta} the_meta (set_status K p i)
  unfolding set_status
  set_status-meta K p i = system_call-meta _ (record { at = λ w. refl })

  clear_fd-meta : (p : Bytes) → Keeps {Meta = Meta} the_meta (clear_fd p)
  unfolding clear_fd
  clear_fd-meta p = system_call-meta _ (record { at = λ w. ground arith })

  set_serial-meta : (d : Device) (s : Bytes) → Keeps {Meta = Meta} the_meta (set_serial d s)
  unfolding set_serial
  set_serial-meta d s = search meta_rules

  cleared-meta : (r : Result (Unit {0})) → Keeps {Meta = Meta} the_meta (cleared r)
  unfolding cleared
  cleared-meta (ok _) = search meta_rules
  cleared-meta (err e) = search meta_rules

  opened-meta : (p : Bytes) (r : Result (Unit {0})) → Keeps {Meta = Meta} the_meta (opened p r)
  unfolding opened
  opened-meta p (ok _) = search (meta_rules, clear_fd-meta, cleared-meta)
  opened-meta p (err e) = search meta_rules

  pub detach-meta : (d : Device) → Keeps {Meta = Meta} the_meta (detach d)
  unfolding detach
  detach-meta d = search (meta_rules, open_device-meta, opened-meta)

module _ (K : LoopControl) {Meta : Type 0} where
  grab-meta : (b : Bytes) → Keeps {Meta = Meta} the_meta (grab K b)
  unfolding grab
  grab-meta b =
      Keeps-bind _ _ (search (meta_rules, system_call-meta))
        λ n. search (meta_rules, open_device-meta, set_fd-meta)

  next_round-meta :
      (again : Exec Meta ℕ) (g : ℕ × Result (Unit {0}))
      → Keeps the_meta again
      → Keeps the_meta (next_round K again g)
  unfolding next_round
  next_round-meta again (n, ok _) h = search meta_rules
  next_round-meta again (n, err e) h = Keeps-if (is_busy e) _ _ h (Keeps-raise _)

  last_round-meta : (g : ℕ × Result (Unit {0})) → Keeps {Meta = Meta} the_meta (last_round K g)
  unfolding last_round
  last_round-meta (n, ok _) = search meta_rules
  last_round-meta (n, err e) = search meta_rules

  acquire-meta : (left : ℕ) (b : Bytes) → Keeps {Meta = Meta} the_meta (acquire K left b)
  unfolding acquire
  acquire-meta zero b = search (meta_rules, grab-meta, last_round-meta)
  acquire-meta (suc left) b =
      Keeps-bind _ _ (grab-meta b) λ g. next_round-meta _ g (acquire-meta left b)

  status_or_clear-meta :
      (p : Bytes) (r : Result (Unit {0})) → Keeps {Meta = Meta} the_meta (status_or_clear K p r)
  unfolding status_or_clear
  status_or_clear-meta p (ok _) = search meta_rules
  status_or_clear-meta p (err e) = search (meta_rules, clear_fd-meta)

  serial_if-meta : (d : Device) (s : Bytes) → Keeps {Meta = Meta} the_meta (serial_if K d s)
  unfolding serial_if
  serial_if-meta d [] = search meta_rules
  serial_if-meta d (c ∷ cs) = search (meta_rules, set_serial-meta)

  pub setup-meta : (b : Bytes) (cfg : LoopConfig) → Keeps {Meta = Meta} the_meta (setup K b cfg)
  unfolding setup
  setup-meta b cfg =
      search
        (
          meta_rules, open_device-meta, acquire-meta, set_status-meta, status_or_clear-meta,
          serial_if-meta,
        )
        depth 16
