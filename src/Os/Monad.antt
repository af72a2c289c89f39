-- ===== src/Os/Monad.antt =====
-- Actions that change the shared state and may fail. What was done before a failure stays done, so
-- the state comes back beside the error too.
use nexus_erofs.Prelude.{List, [], ◌∷◌, Option, none, some, Bytes, String}
use nexus_erofs.Errors.{Error, Result, ok, err, wrapped, os_error, Errno}
use nexus_erofs.Os.Devices.{LoopDevice}
use nexus_erofs.Os.Tree.{Files}

pub record World (Meta : Type 0) : Type 0 where
  pub files : Files
  -- mount points
  pub mounted : List Bytes
  -- files with the flag FS_IMMUTABLE_FL
  pub immutable : List Bytes
  -- loop devices that stand for a file
  pub loops : List LoopDevice
  -- the metadata store of containerd, whose operations are parameters
  pub meta : Meta
  -- generations of merged metadata that were started in the background and have not run yet, each
  -- with its chain of snapshots
  pub background : List (List Bytes)
  pub faults : List (Option Errno)

abbrev pub Exec : Type 0 → Type 0 → Type 0
Exec Meta A = World Meta → Result A × World Meta

module _ {Meta A : Type 0} where
  unfoldable pub pure : A → Exec Meta A
  pure a w = (ok a, w)

  unfoldable pub raise : Error → Exec Meta A
  raise e w = (err e, w)

  unfoldable pub lift : Result A → Exec Meta A
  lift r w = (r, w)

  -- `if err := m(); err != nil`, where the failure is dealt with
  unfoldable pub attempt : Exec Meta A → Exec Meta (Result A)
  attempt m w = let (r, w') = m w in (ok r, w')

  -- fmt.Errorf("...: %w", err)
  unfoldable pub wrapping : String → Exec Meta A → Exec Meta A
  wrapping text m w = let (r, w') = m w in (wrapped text r, w')

  pub refusable : List (Option Errno) → Exec Meta A → Exec Meta A
  refusable [] op w = op w
  refusable (none ∷ rest) op w = op (record w { faults = rest })
  refusable (some e ∷ rest) op w = (err (os_error e), record w { faults = rest })

  -- A call that the schedule may refuse. A refused call changes nothing.
  unfoldable pub system_call : Exec Meta A → Exec Meta A
  unfolding refusable
  system_call op w = refusable w.faults op w

module _ {Meta A B : Type 0} where
  -- `defer`: the second action runs behind the first whatever that returns, and its own failure is
  -- logged and dropped.
  unfoldable pub deferred : Exec Meta B → Exec Meta A → Exec Meta A
  deferred last m w = let (r, w1) = m w in let (_, w2) = last w1 in (r, w2)

  abbrev pub continue : Result A → (A → Exec Meta B) → Exec Meta B
  continue (ok a) f w = f a w
  continue (err e) f w = (err e, w)

  infixl 10 ◌>>=◌ ◌>>◌
  -- opening this opens `pure`, `raise` and `lift` too
  unfoldable pub ◌>>=◌ : Exec Meta A → (A → Exec Meta B) → Exec Meta B
  unfolding pure raise lift
  ◌>>=◌ m f w = let (r, w') = m w in continue r f w'

  abbrev pub ◌>>◌ : Exec Meta A → Exec Meta B → Exec Meta B
  m >> n = m >>= λ _. n
