-- ===== src/Snapshotter/Queries/ReadOnly.antt =====
-- The queries leave the metadata alone.
use nexus_erofs.Prelude.{Bytes, List}
use nexus_erofs.Os.{World}
use nexus_erofs.Os.Keeps.{Keeps, the_meta, Keeps-pure, Keeps-bind, Keeps-at}
use nexus_erofs.Storage.{External, IsTransactional}
use nexus_erofs.Storage.Transactions.{with_transaction-meta}
use nexus_erofs.Errors.{Result}
use nexus_erofs.Prelude.{◌≡◌, refl}
use nexus_erofs.Snapshotter.Types.{
  Config, Kind, kind_unknown, kind_view, kind_active, kind_committed, Info, Usage,
}
use nexus_erofs.Snapshotter.Queries.{stat_snapshot, usage, usage_of_kind, walk}

module _ (E : External) (s : Config) where
  usage_of_kind-meta :
      (k : Kind) (id : Bytes) (u : Usage) → Keeps the_meta (usage_of_kind E s k id u)
  unfolding usage
  usage_of_kind-meta kind_active id u = Keeps-at _ (λ w. refl)
  usage_of_kind-meta kind_unknown id u = Keeps-at _ (λ w. refl)
  usage_of_kind-meta kind_view id u = Keeps-at _ (λ w. refl)
  usage_of_kind-meta kind_committed id u = Keeps-at _ (λ w. refl)

  module _ (T : IsTransactional E) where
    pub stat_snapshot-meta : (key : Bytes) → Keeps the_meta (stat_snapshot E s key)
    unfolding stat_snapshot
    stat_snapshot-meta key = Keeps-bind _ _ (with_transaction-meta E T _) λ found. Keeps-pure _

    pub usage-meta : (key : Bytes) → Keeps the_meta (usage E s key)
    unfolding usage
    usage-meta key =
        Keeps-bind _ _ (with_transaction-meta E T _)
          λ found. usage_of_kind-meta found.1.kind found.0 found.2

    walk-meta :
        (fn : Info → World E.Meta → Result (Unit {0}) × World E.Meta) (filters : List Bytes)
        → Keeps the_meta (walk E s fn filters)
    unfolding walk
    walk-meta fn filters = with_transaction-meta E T _

    -- Given that the metadata store is transactional: Stat, Usage and Walk change no metadata, not
    -- even when the function that Walk is given tries to.
    pub queries-meta :
        (key : Bytes) (fn : Info → World E.Meta → Result (Unit {0}) × World E.Meta)
        (filters : List Bytes) (w : World E.Meta)
        → ((stat_snapshot E s key w).1.meta ≡ w.meta)
          × (((usage E s key w).1.meta ≡ w.meta) × ((walk E s fn filters w).1.meta ≡ w.meta))
    queries-meta key fn filters w =
        ((stat_snapshot-meta key).at w, ((usage-meta key).at w, (walk-meta fn filters).at w))
