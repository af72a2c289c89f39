-- ===== src/Snapshotter/Create/Recorded.antt =====
-- The transaction of createSnapshot of internal/snapshotter/operations.go: what it has done to the
-- metadata when it succeeds.
use nexus_erofs.Prelude.{true, ◌≡◌, refl, ap, sym, ◌∙◌, List, [], ◌∷◌, Bytes}
use mathlib.Core.Path.{subst}
use nexus_erofs.FilePath.{join_path}
use nexus_erofs.Errors.{Result, ok, err}
use nexus_erofs.Os.{World, wrapping, rename}
use nexus_erofs.Os.Calm.{Calm, Calm-pure, Calm-wrapping}
use nexus_erofs.Os.Free.{Free, Free-pure, Free-bind, Free-wrapping}
use nexus_erofs.Os.Invert.{ok-injective}
use nexus_erofs.Os.Keeps.{Keeps, the_meta, rename-meta, Keeps-wrapping}
use nexus_erofs.Os.Free.{rename-Free}
use nexus_erofs.Storage.{External, IsTransactional, Labels, with_transaction}
use nexus_erofs.Storage.Effects.{
  change-Post, query-Post, change-Free, query-Free, with_transaction-ok, with_transaction-Free,
}
use nexus_erofs.Os.Post.{Post, Post-bind, Post-wrapping, Post-Keeps, Post-pure}
use nexus_erofs.Snapshotter.Types.{Config, Kind, Snapshot, Info, Usage}
use nexus_erofs.Snapshotter.Paths.{snapshots_dir}
use nexus_erofs.Snapshotter.Host.Untouched.{upper_directory_permission-meta}
use nexus_erofs.Snapshotter.Host.Free.{upper_directory_permission-Free}
use nexus_erofs.Snapshotter.Create.{
  permission_if, record_snapshot, moved, move_directory, new_snapshot,
}

-- The snapshot was created in the metadata before and is known in those behind, and the info is the
-- one that they give.
pub record Recorded (E : External) (kind : Kind) (key parent : Bytes) (opts : List Labels)
    (found : Snapshot × Info) (before after : E.Meta) : Type 0 where
  pub created : E.create_snapshot kind key parent opts before ≡ ok (found.0, after)
  pub entry : Bytes × Info × Usage
  pub known : E.get_info key after ≡ ok entry
  pub info : found.1 ≡ entry.1

module _ (E : External) (s : Config) where
  permission_if-Calm : (td : Bytes) (ids : List Bytes) → Calm (permission_if E s td ids)
  unfolding record_snapshot
  permission_if-Calm td [] = Calm-pure tt
  permission_if-Calm td (p ∷ ps) = Calm-wrapping _ _ (record {
    kept = upper_directory_permission-meta E _ _;
    free = upper_directory_permission-Free E _ _;
  })

  module _ (kind : Kind) (key parent : Bytes) (opts : List Labels) (td : Bytes) where
    -- the metadata between the steps of the function
    abbrev Chain : E.Meta → Snapshot × Info → E.Meta → Type 0
    Chain before found after =
        (snap : Snapshot) × (m : E.Meta) × (E.create_snapshot kind key parent opts before
          ≡ ok (snap, m))
        × ((entry : Bytes × Info × Usage) × (n : E.Meta) × ((E.get_info key m ≡ ok entry) × (n ≡ m))
            × ((u : Unit {0}) × (o : E.Meta) × (o ≡ n) × ((found ≡ (snap, entry.1)) × (after ≡ o))))

    record_snapshot-Chain : Post Chain (record_snapshot E s kind key parent opts td)
    unfolding record_snapshot
    record_snapshot-Chain = Post-bind _ _ (Post-wrapping _ _ (change-Post E _)) λ snap.
        Post-bind _ _ (Post-wrapping _ _ (query-Post E _)) λ info.
          Post-bind _ _ (Post-Keeps _ (permission_if-Calm td snap.parent_ids).kept)
            λ _. Post-pure (snap, info.1)

    Chain-Recorded :
        (before : E.Meta) (found : Snapshot × Info) (after : E.Meta)
        → Chain before found after
        → Recorded E kind key parent opts found before after
    Chain-Recorded before found after
          (snap, m, made, (entry, n, (known, nm), (u, o, on, (fe, ao)))) =
        let same : after ≡ m = ao ∙ on ∙ nm in
        record {
          created = rw (same, fe) made;
          entry = entry;
          known = ap (E.get_info key) same ∙ known;
          info = ap (λ p. p.1) fe;
        }

    record_snapshot-Free : Free (record_snapshot E s kind key parent opts td)
    unfolding record_snapshot
    record_snapshot-Free = Free-bind _ _ (Free-wrapping _ _ (change-Free E _)) λ snap.
        Free-bind _ _ (Free-wrapping _ _ (query-Free E _))
          λ info. Free-bind _ _ (permission_if-Calm td snap.parent_ids).free λ _. Free-pure _

    moved-Recorded :
        (path : Bytes) (made found : Snapshot × Info) (r : Result (Unit {0})) (v : World E.Meta)
        (before : E.Meta)
        → Recorded E kind key parent opts made before v.meta
        → (moved E s td path made (r, v)).0.0 ≡ ok found
        → Recorded E kind key parent opts found before (moved E s td path made (r, v)).0.1.meta
    unfolding moved
    moved-Recorded path made found (ok _) v before recorded h =
        subst (λ f. Recorded E kind key parent opts f before v.meta) (ok-injective made found h)
          recorded
    moved-Recorded path made found (err e) v before recorded h = absurd cc

    moved-world :
        (path : Bytes) (made : Snapshot × Info) (r : Result (Unit {0})) (v : World E.Meta)
        → (moved E s td path made (r, v)).0.1 ≡ v
    unfolding moved
    moved-world path made (ok _) v = refl
    moved-world path made (err e) v = refl

    rename-kept :
        (path : Bytes) → Keeps the_meta (wrapping "rename" (rename {Meta = E.Meta} td path))
    rename-kept path = Keeps-wrapping _ _ (rename-meta td path)

    -- the rename behind the record
    move_directory-Recorded :
        (before : E.Meta) (r : Result (Snapshot × Info)) (v : World E.Meta)
        (found : Snapshot × Info)
        → ((made : Snapshot × Info)
            → r ≡ ok made
            → Recorded E kind key parent opts made before v.meta)
        → (move_directory E s td (r, v)).0.0 ≡ ok found
        → Recorded E kind key parent opts found before (move_directory E s td (r, v)).0.1.meta
    unfolding move_directory
    move_directory-Recorded before (err e) v found recorded h = absurd cc
    move_directory-Recorded before (ok made) v found recorded h =
        let path = join_path (snapshots_dir s ∷ made.0.id ∷ []) in
        moved-Recorded path made found _ _ before
          (subst (λ m. Recorded E kind key parent opts made before m)
            (sym ((rename-kept path).at v)) (recorded made refl))
          h

    new_snapshot-Recorded :
        (w : World E.Meta) (found : Snapshot × Info)
        → (new_snapshot E s kind key parent opts td w).0.0 ≡ ok found
        → Recorded E kind key parent opts found w.meta
            (new_snapshot E s kind key parent opts td w).0.1.meta
    unfolding new_snapshot
    new_snapshot-Recorded w found h =
        move_directory-Recorded w.meta (record_snapshot E s kind key parent opts td w).0
          (record_snapshot E s kind key parent opts td w).1 found
          (λ made done. Chain-Recorded _ _ _ (record_snapshot-Chain.at w made done)) h

    move_directory-faults :
        (r : Result (Snapshot × Info)) (v : World E.Meta)
        → v.faults ≡ []
        → (move_directory E s td (r, v)).0.1.faults ≡ []
    unfolding move_directory
    move_directory-faults (err e) v h = h
    move_directory-faults (ok made) v h =
        let path = join_path (snapshots_dir s ∷ made.0.id ∷ []) in
        ap (λ (u : World E.Meta). u.faults) (moved-world path made _ _)
        ∙ (Free-wrapping _ _ (rename-Free td path)).at v h

    new_snapshot-Free : Free (λ w. (new_snapshot E s kind key parent opts td w).0)
    unfolding new_snapshot
    new_snapshot-Free = record {
      at = λ w h.
          move_directory-faults (record_snapshot E s kind key parent opts td w).0
            (record_snapshot E s kind key parent opts td w).1 (record_snapshot-Free.at w h);
    }

    -- the metadata behind a transaction that succeeds
    pub transaction-Recorded :
        IsTransactional E
        → (w : World E.Meta) (found : Snapshot × Info)
        → (with_transaction E true (λ v. (new_snapshot E s kind key parent opts td v).0) w).0
          ≡ ok found
        → Recorded E kind key parent opts found w.meta
            (with_transaction E true (λ v. (new_snapshot E s kind key parent opts td v).0) w).1.meta
    transaction-Recorded T w found h =
        with_transaction-ok E T (λ f before after. Recorded E kind key parent opts f before after) _
          w found (new_snapshot-Recorded w found) h

    pub transaction-Free :
        Free (with_transaction E true (λ v. (new_snapshot E s kind key parent opts td v).0))
    transaction-Free = with_transaction-Free E true _ new_snapshot-Free
