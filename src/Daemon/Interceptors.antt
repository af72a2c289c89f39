-- ===== src/Daemon/Interceptors.antt =====
-- The interceptors of cmd/spin-erofs-snapshotter/main.go, which write each request to the log. The
-- handler of a request and the metadata of its context are parameters.
use nexus_erofs.Prelude.{List, [], ◌∷◌, ◌++◌, Option, none, some, Bytes, ◌≡◌, refl}
use nexus_erofs.Errors.{Result, ok, err}
use nexus_erofs.Os.{World, Exec, lift, attempt, ◌>>=◌}
use nexus_erofs.Daemon.{Event, logged, info_level, warn_level, Traced, untraced, inside, note}

-- strings.Join with a comma
join_names : Bytes → List Bytes → Bytes
join_names n [] = n
join_names n (m ∷ ms) = n ++ (b',' ∷ join_names m ms)

-- the field `md.namespace`, of the metadata if there is any
unfoldable pub namespace_field : Option (List Bytes) → Option Bytes
unfolding join_names
namespace_field none = none
namespace_field (some []) = none
namespace_field (some (n ∷ ns)) = some (join_names n ns)

-- the line behind a request
pub log_outcome : {A : Type 0} → Bytes → Option Bytes → Result A → Event
log_outcome method ns (ok _) = logged info_level "grpc: request completed" method ns
log_outcome method ns (err _) = logged warn_level "grpc: request failed" method ns

module _ {Meta A : Type 0} (method : Bytes) where
  -- grpcLoggingInterceptor
  unfoldable pub grpc_logging_interceptor :
      Option (List Bytes) → Exec (Traced Meta) A → Exec (Traced Meta) A
  unfolding note namespace_field log_outcome
  grpc_logging_interceptor md handler = do
    _ ← note (logged info_level "grpc: request received" method (namespace_field md))
    outcome ← attempt handler
    _ ← note (log_outcome method (namespace_field md) outcome)
    lift outcome

  -- grpcStreamLoggingInterceptor
  unfoldable pub grpc_stream_logging_interceptor : Exec (Traced Meta) A → Exec (Traced Meta) A
  unfolding note
  grpc_stream_logging_interceptor handler = do
    _ ← note (logged info_level "grpc: STREAM request received" method none)
    handler

-- The interceptor changes neither the result of a request nor what it does to the state; the log has a
-- line before and one behind it, which says whether the request has failed.
pub grpc_logging_interceptor_lem :
    {Meta A : Type 0} (method : Bytes) (md : Option (List Bytes)) (m : Exec Meta A)
    (w : World (Traced Meta))
    → let run = grpc_logging_interceptor method md (inside m) w in
      let ns = namespace_field md in
      (run.0 ≡ (m (untraced w)).0)
      × (untraced run.1 ≡ (m (untraced w)).1)
      × (run.1.meta.trace
          ≡ log_outcome method ns (m (untraced w)).0
            ∷ logged info_level "grpc: request received" method ns
            ∷ w.meta.trace)
unfolding grpc_logging_interceptor inside note ◌>>=◌ attempt lift
grpc_logging_interceptor_lem method md m w = (refl, refl, refl)
