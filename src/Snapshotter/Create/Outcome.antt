-- ===== src/Snapshotter/Create/Outcome.antt =====
-- How createSnapshot of internal/snapshotter/operations.go can end.
use nexus_erofs.Prelude.{◌≡◌, ◌≢◌, ◌⊎◌, inl, inr, refl, List, [], Bytes}
use nexus_erofs.Errors.{Result, ok, err}
use nexus_erofs.Mount.{Mount}
use nexus_erofs.Os.{World}
use nexus_erofs.Storage.{External, Labels}
use nexus_erofs.Snapshotter.Types.{Config, Kind, Snapshot, Info}
use nexus_erofs.Snapshotter.Mounts.{mounts}
use nexus_erofs.Snapshotter.Create.Recorded.{Recorded}

-- The mounts are those of the snapshot, made last, in the state `from`.
pub record Answered {Meta : Type 0} (s : Config) (found : Snapshot × Info) (ms : List Mount)
    (before after : World Meta) : Type 0 where
  pub from : World Meta
  pub free : before.faults ≡ [] → from.faults ≡ []
  pub runs : mounts s found.0 found.1 from ≡ (ok ms, after)

-- The snapshot is recorded, whatever came behind its transaction.
pub record Made (E : External) (s : Config) (kind : Kind) (key parent : Bytes) (opts : List Labels)
    (before : World E.Meta) (r : Result (List Mount)) (after : World E.Meta) : Type 0 where
  pub found : Snapshot × Info
  pub recorded : Recorded E kind key parent opts found before.meta after.meta
  pub answered : (ms : List Mount) → r ≡ ok ms → Answered s found ms before after

-- Either the metadata is as before and there are no mounts, or the snapshot is made.
abbrev pub Outcome :
    (E : External)
    → Config
    → Kind
    → Bytes
    → Bytes
    → List Labels
    → World E.Meta
    → Result (List Mount) × World E.Meta
    → Type 0
Outcome E s kind key parent opts before (r, after) =
    ((after.meta ≡ before.meta) × ((ms : List Mount) → r ≢ ok ms))
    ⊎ Made E s kind key parent opts before r after

-- With mounts: the snapshot is recorded, and the mounts are its own. With an error: the metadata is as
-- before, or the snapshot is recorded all the same.
abbrev pub Ended :
    (E : External)
    → Config
    → Kind
    → Bytes
    → Bytes
    → List Labels
    → World E.Meta
    → Result (List Mount)
    → World E.Meta
    → Type 0
Ended E s kind key parent opts before (ok ms) after =
    (found : Snapshot × Info) × Recorded E kind key parent opts found before.meta after.meta
    × ((from : World E.Meta) × (mounts s found.0 found.1 from ≡ (ok ms, after)))
Ended E s kind key parent opts before (err e) after =
    (after.meta ≡ before.meta)
    ⊎ ((found : Snapshot × Info) × Recorded E kind key parent opts found before.meta after.meta)

pub Outcome-Ended :
    (E : External) (s : Config) (kind : Kind) (key parent : Bytes) (opts : List Labels)
    (before : World E.Meta) (r : Result (List Mount)) (after : World E.Meta)
    → Outcome E s kind key parent opts before (r, after)
    → Ended E s kind key parent opts before r after
Outcome-Ended E s kind key parent opts before (ok ms) after (inl (kept, never)) =
    absurd (never ms refl)
Outcome-Ended E s kind key parent opts before (ok ms) after (inr made) =
    let answered = made.answered ms refl in
    (made.found, made.recorded, (answered.from, answered.runs))
Outcome-Ended E s kind key parent opts before (err e) after (inl (kept, never)) = inl kept
Outcome-Ended E s kind key parent opts before (err e) after (inr made) =
    inr (made.found, made.recorded)
