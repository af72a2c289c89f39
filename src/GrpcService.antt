-- ===== src/GrpcService.antt =====
-- internal/grpcservice/snapshots.go: the service that passes each request to a snapshotter. The
-- conversions of package `proxy` and `mount` to and from messages, and errgrpc.ToGRPC, are
-- parameters; the messages' fields are the arguments here.
pub mod Batches
use nexus_erofs.Prelude.{
  ℕ, Bool, true, false, List, [], ◌∷◌, ◌++◌, map, Option, none, some, Bytes, length, leb,
  if◌then◌else◌,
}
use nexus_erofs.Errors.{Error, Result, ok, err, not_implemented, wrap}
use nexus_erofs.Mount.{Mount}
use nexus_erofs.Os.{World, Exec, pure, raise, lift, attempt, ◌>>=◌}
use nexus_erofs.Storage.{Labels}
use nexus_erofs.Snapshotter.Types.{Info, Usage}

-- snapshots.Snapshotter; the labels stand for snapshots.WithLabels
pub record SnapshotterApi (Meta : Type 0) : Type 0 where
  pub prepare : Bytes → Bytes → List Labels → Exec Meta (List Mount)
  pub view : Bytes → Bytes → List Labels → Exec Meta (List Mount)
  pub mounts : Bytes → Exec Meta (List Mount)
  pub commit : Bytes → Bytes → List Labels → Exec Meta (Unit {0})
  pub remove : Bytes → Exec Meta (Unit {0})
  pub stat : Bytes → Exec Meta Info
  pub update : Info → List Bytes → Exec Meta Info
  pub usage : Bytes → Exec Meta Usage
  -- the infos that Walk passes to its function while that returns no error, and its own outcome
  pub walked : List Bytes → World Meta → List Info × Result (Unit {0})
  -- snapshots.Cleaner, which a snapshotter may lack
  pub cleanup : Option (Exec Meta (Unit {0}))

pub record Messages : Type 1 where
  pub MountMessage : Type 0
  pub InfoMessage : Type 0
  pub to_grpc : Error → Error
  pub mounts_to_proto : List Mount → List MountMessage
  pub info_to_proto : Info → InfoMessage
  pub info_from_proto : InfoMessage → Info

-- the options of a request, whose labels may be missing
unfoldable pub label_opts : Option Labels → List Labels
label_opts none = []
label_opts (some labels) = labels ∷ []

abbrev pub block_limit : ℕ
block_limit = 100

module _ {Meta : Type 0} (S : SnapshotterApi Meta) (P : Messages) where
  unfoldable pub grpc_result : {A : Type 0} → Result A → Result A
  grpc_result (ok a) = ok a
  grpc_result (err e) = err (P.to_grpc e)

  unfoldable pub answer : {A : Type 0} → Exec Meta A → Exec Meta A
  unfolding grpc_result
  answer m = do outcome ← attempt m; lift (grpc_result outcome)

  unfoldable pub prepare : Bytes → Bytes → Option Labels → Exec Meta (List P.MountMessage)
  unfolding answer label_opts
  prepare key parent labels = do
    ms ← answer (S.prepare key parent (label_opts labels))
    pure (P.mounts_to_proto ms)

  unfoldable pub view : Bytes → Bytes → Option Labels → Exec Meta (List P.MountMessage)
  unfolding answer label_opts
  view key parent labels = do
    ms ← answer (S.view key parent (label_opts labels))
    pure (P.mounts_to_proto ms)

  unfoldable pub mounts : Bytes → Exec Meta (List P.MountMessage)
  unfolding answer
  mounts key = do ms ← answer (S.mounts key); pure (P.mounts_to_proto ms)

  unfoldable pub commit : Bytes → Bytes → Option Labels → Exec Meta (Unit {0})
  unfolding answer label_opts
  commit name key labels = answer (S.commit name key (label_opts labels))

  unfoldable pub remove : Bytes → Exec Meta (Unit {0})
  unfolding answer
  remove key = answer (S.remove key)

  unfoldable pub stat : Bytes → Exec Meta P.InfoMessage
  unfolding answer
  stat key = do info ← answer (S.stat key); pure (P.info_to_proto info)

  unfoldable pub update : P.InfoMessage → List Bytes → Exec Meta P.InfoMessage
  unfolding answer
  update message paths = do
    info ← answer (S.update (P.info_from_proto message) paths)
    pure (P.info_to_proto info)

  unfoldable pub usage : Bytes → Exec Meta (ℕ × ℕ)
  unfolding answer
  usage key = do u ← answer (S.usage key); pure (u.inodes, u.size)

  cleaned : Option (Exec Meta (Unit {0})) → Exec Meta (Unit {0})
  unfolding answer
  cleaned none =
      raise (P.to_grpc (wrap "snapshotter does not implement Cleanup method" not_implemented))
  cleaned (some clean) = answer clean

  unfoldable pub cleanup : Exec Meta (Unit {0})
  unfolding cleaned
  cleanup = cleaned S.cleanup

  module _ (send : List P.InfoMessage → Exec Meta (Unit {0})) where
    -- The function that Walk is given collects the infos, and sends a block that is full; the buffer
    -- comes back.
    unfoldable pub collect : List Info → List P.InfoMessage → Exec Meta (List P.InfoMessage)
    collect [] buffer = pure buffer
    collect (info ∷ infos) buffer =
        let full = buffer ++ (P.info_to_proto info ∷ []) in
        let next = (do _ ← send full; collect infos []) in
        let more = collect infos full in if leb block_limit (length full) then next else more

    send_rest : List P.InfoMessage → Exec Meta (Unit {0})
    send_rest [] = pure tt
    send_rest (m ∷ ms) = send (m ∷ ms)

    -- List, whose errors are passed on as they are
    unfoldable pub list_snapshots : List Bytes → Exec Meta (Unit {0})
    unfolding collect send_rest
    list_snapshots filters w =
        let (infos, outcome) = S.walked filters w in
        (do rest ← collect infos []; _ ← lift outcome; send_rest rest) w
