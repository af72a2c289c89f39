-- ===== src/MountUtils/Host/SetUp.antt =====
-- The loop over the blobs in MountAll of internal/mountutils/erofs_linux.go, while no call is
-- refused: the devices that it sets up, and their detachment.
use nexus_erofs.Prelude.{◌≡◌, refl, ap, ◌∙◌, List, [], ◌∷◌, Option, none, some, Bytes}
use nexus_erofs.Errors.{Result, ok, err, os_error, enoent, wrap}
use nexus_erofs.Os.{World, pure, lift, attempt, ◌>>=◌}
use nexus_erofs.Os.Tree.{Node, lookup}
use nexus_erofs.Os.Devices.{Loops, detached, detached_all}
use nexus_erofs.Loop.{IsFreeNumber, device_path}
use nexus_erofs.Loop.Types.{Device, LoopConfig}
use nexus_erofs.Loop.Retry.{device_at, device_in_table}
use nexus_erofs.Loop.Balance.{
  calm, paths_of, detach-calm, setup-calm, setup-missing, detached-head, detached_all_comm,
}
use nexus_erofs.MountUtils.Host.{
  MountTools, read_only_config, detach_loop, detach_loops, setup_each,
}

module _ {Meta : Type 0} where
  detach_loop-calm :
      (ds : List Device) (w : World Meta) (ls : Loops) (ms : List Bytes)
      → detach_loop ds (calm w ls ms) ≡ (ok [], calm w (detached_all (paths_of ds) ls) ms)
  unfolding detach_loop ◌>>=◌ attempt pure detached_all
  detach_loop-calm [] w ls ms = refl
  detach_loop-calm (d ∷ ds) w ls ms =
      rw (detach-calm d w ls ms, detach_loop-calm ds w (detached d.path ls) ms) refl

  pub detach_loops-calm :
      (ds : List Device) (w : World Meta) (ls : Loops) (ms : List Bytes)
      → detach_loops ds (calm w ls ms) ≡ (ok tt, calm w (detached_all (paths_of ds) ls) ms)
  unfolding detach_loops ◌>>=◌ lift
  detach_loops-calm ds w ls ms = rw (detach_loop-calm ds w ls ms) refl

module _ (T : MountTools) (free : IsFreeNumber T.loop_control) where
  pub first_undone :
      (backing : Bytes) (cfg : LoopConfig) (ls table : Loops) (ds : List Device)
      → detached_all (paths_of ds) table
        ≡ device_in_table T.loop_control backing cfg (T.loop_control.free_number ls) ∷ ls
      → detached_all (device_path (T.loop_control.free_number ls) ∷ paths_of ds) table ≡ ls
  unfolding detached_all
  first_undone backing cfg ls table ds rest =
      detached_all_comm (device_path (T.loop_control.free_number ls)) (paths_of ds) table
      ∙ ap (detached (device_path (T.loop_control.free_number ls))) rest
      ∙ detached-head (device_in_table T.loop_control backing cfg (T.loop_control.free_number ls))
          ls (free.is_free ls)

module _ (T : MountTools) (free : IsFreeNumber T.loop_control) {Meta : Type 0} where
  -- The devices are set up one by one; detached, they leave the table as it was.
  pub record SetsUp (blobs : List Bytes) (w : World Meta) (ls : Loops) (ms : List Bytes)
      : Type 0 where
    pub devices : List Device
    pub outcome : Result (Unit {0})
    pub table : Loops
    pub runs : setup_each T blobs (calm w ls ms) ≡ (ok (devices, outcome), calm w table ms)
    pub undone : detached_all (paths_of devices) table ≡ ls

  set_up_first :
      (blob : Bytes) (blobs : List Bytes) (w : World Meta) (ls : Loops) (ms : List Bytes) (n : Node)
      → lookup blob w.files ≡ some n
      → SetsUp blobs w
          (device_in_table T.loop_control blob read_only_config (T.loop_control.free_number ls)
            ∷ ls)
          ms
      → SetsUp (blob ∷ blobs) w ls ms
  unfolding setup_each ◌>>=◌ attempt pure
  set_up_first blob blobs w ls ms n found rest = record {
    devices = device_at (T.loop_control.free_number ls) ∷ rest.devices;
    outcome = rest.outcome;
    table = rest.table;
    runs =
        rw (setup-calm T.loop_control free blob read_only_config w ls ms n refl found, rest.runs)
          refl;
    undone = first_undone T free blob read_only_config ls rest.table rest.devices rest.undone;
  }

  set_up_none :
      (blob : Bytes) (blobs : List Bytes) (w : World Meta) (ls : Loops) (ms : List Bytes)
      → lookup blob w.files ≡ none
      → SetsUp (blob ∷ blobs) w ls ms
  unfolding setup_each ◌>>=◌ attempt pure detached_all
  set_up_none blob blobs w ls ms missing = record {
    devices = [];
    outcome =
        err (
          wrap "failed to setup loop device"
            (wrap "failed to open backing file" (os_error enoent)));
    table = ls;
    runs = rw (setup-missing T.loop_control free blob read_only_config w ls ms missing) refl;
    undone = refl;
  }

  SetsUp-cases :
      (blob : Bytes) (blobs : List Bytes) (w : World Meta) (ls : Loops) (ms : List Bytes)
      (found : Option Node)
      → lookup blob w.files ≡ found
      → ((table : Loops) → SetsUp blobs w table ms)
      → SetsUp (blob ∷ blobs) w ls ms
  SetsUp-cases blob blobs w ls ms none h rest = set_up_none blob blobs w ls ms h
  SetsUp-cases blob blobs w ls ms (some n) h rest = set_up_first blob blobs w ls ms n h (rest _)

  pub sets_up :
      (blobs : List Bytes) (w : World Meta) (ls : Loops) (ms : List Bytes) → SetsUp blobs w ls ms
  unfolding setup_each pure detached_all
  sets_up [] w ls ms = record {
    devices = [];
    outcome = ok tt;
    table = ls;
    runs = refl;
    undone = refl;
  }
  sets_up (blob ∷ blobs) w ls ms =
      SetsUp-cases blob blobs w ls ms (lookup blob w.files) refl (λ table. sets_up blobs w table ms)
