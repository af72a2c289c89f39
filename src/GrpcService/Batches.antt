-- ===== src/GrpcService/Batches.antt =====
-- The blocks that List of internal/grpcservice/snapshots.go sends.
use nexus_erofs.Prelude.{
  ◌+◌, ◌≡◌, ◌≤◌, ◌<◌, refl, ap, sym, ◌∙◌, arith, Bool-cases, inl, inr, List, [], ◌∷◌, ◌++◌,
  append-nil, append_assoc, map, All, length, length-append, leb, if◌then◌else◌, Bytes,
}
use nexus_erofs.Errors.{Result, ok, err}
use nexus_erofs.Os.{World, Exec, pure, lift, continue, ◌>>=◌}
use nexus_erofs.Snapshotter.Types.{Info}
use nexus_erofs.GrpcService.{
  SnapshotterApi, Messages, block_limit, collect, send_rest, list_snapshots,
}

module _ {A : Type 0} where
  unfoldable pub joined : List (List A) → List A
  joined [] = []
  joined (b ∷ bs) = b ++ joined bs

module _ {Meta M : Type 0} (send : List M → Exec Meta (Unit {0})) where
  -- the blocks one by one, up to the first that cannot be sent
  unfoldable pub send_all : List (List M) → Exec Meta (Unit {0})
  send_all [] = pure tt
  send_all (b ∷ bs) = do _ ← send b; send_all bs

module _ {Meta : Type 0} (S : SnapshotterApi Meta) (P : Messages)
    (send : List P.InfoMessage → Exec Meta (Unit {0})) where
  -- The messages are sent in blocks of 1 up to 100, in order and each once.
  pub record IsSentInBlocks (messages : List P.InfoMessage) (m : Exec Meta (Unit {0}))
      (w : World Meta) : Type 0 where
    pub blocks : List (List P.InfoMessage)
    pub sends : m w ≡ send_all send blocks w
    pub whole : joined blocks ≡ messages
    pub sizes : All (λ b. (1 ≤ length b) × (length b ≤ block_limit)) blocks

  messages_of : List Info → List P.InfoMessage
  messages_of infos = map P.info_to_proto infos

  -- the blocks for what stands in the buffer and the infos that are left
  last_block : List P.InfoMessage → List (List P.InfoMessage)
  last_block [] = []
  last_block (m ∷ ms) = (m ∷ ms) ∷ []

  blocks_of : List Info → List P.InfoMessage → List (List P.InfoMessage)
  unfolding last_block
  blocks_of [] buffer = last_block buffer
  blocks_of (info ∷ infos) buffer =
      let full = buffer ++ (P.info_to_proto info ∷ []) in
      let next = blocks_of infos [] in
      let more = blocks_of infos full in if leb block_limit (length full) then full ∷ next else more

  abbrev finish : Exec Meta (List P.InfoMessage) → Exec Meta (Unit {0})
  finish m = m >>= λ rest. lift (ok tt) >>= λ _. send_rest S P send rest

  rest_alone :
      (r : Result (Unit {0})) (w : World Meta) → continue r (λ (_ : Unit {0}). pure tt) w ≡ (r, w)
  unfolding pure
  rest_alone (ok _) w = refl
  rest_alone (err e) w = refl

  last_sends :
      (buffer : List P.InfoMessage) (w : World Meta)
      → finish (pure buffer) w ≡ send_all send (last_block buffer) w
  unfolding send_rest send_all last_block ◌>>=◌ pure lift
  last_sends [] w = refl
  last_sends (m ∷ ms) w = sym (rest_alone (send (m ∷ ms) w).0 (send (m ∷ ms) w).1)

  block_sends :
      (r : Result (Unit {0})) (w : World Meta) (infos : List Info)
      → ((v : World Meta)
          → finish (collect S P send infos []) v ≡ send_all send (blocks_of infos []) v)
      → continue
          (continue r (λ _. collect S P send infos []) w).0
          (λ rest. lift (ok tt) >>= λ _. send_rest S P send rest)
          (continue r (λ _. collect S P send infos []) w).1
        ≡ continue r (λ _. send_all send (blocks_of infos [])) w
  unfolding ◌>>=◌
  block_sends (ok _) w infos h = h w
  block_sends (err e) w infos h = refl

  full_sends :
      (info : Info) (infos : List Info) (buffer : List P.InfoMessage) (w : World Meta)
      → ((v : World Meta)
          → finish (collect S P send infos []) v ≡ send_all send (blocks_of infos []) v)
      → finish (send (buffer ++ (P.info_to_proto info ∷ [])) >>= λ _. collect S P send infos []) w
        ≡ send_all send ((buffer ++ (P.info_to_proto info ∷ [])) ∷ blocks_of infos []) w
  unfolding ◌>>=◌ send_all
  full_sends info infos buffer w h =
      block_sends (send (buffer ++ (P.info_to_proto info ∷ [])) w).0
        (send (buffer ++ (P.info_to_proto info ∷ [])) w).1 infos h

  collect_sends :
      (infos : List Info) (buffer : List P.InfoMessage) (w : World Meta)
      → finish (collect S P send infos buffer) w ≡ send_all send (blocks_of infos buffer) w
  unfolding collect blocks_of
  collect_sends [] buffer w = last_sends buffer w
  collect_sends (info ∷ infos) buffer w =
      elim (Bool-cases (leb block_limit (length (buffer ++ (P.info_to_proto info ∷ []))))) [
        | inl full ↦ rw full (full_sends info infos buffer w (λ v. collect_sends infos [] v))
        | inr more ↦ rw more (collect_sends infos (buffer ++ (P.info_to_proto info ∷ [])) w)
      ]

  last_joined : (buffer : List P.InfoMessage) → joined (last_block buffer) ≡ buffer
  unfolding joined last_block
  last_joined [] = refl
  last_joined (m ∷ ms) = append-nil (m ∷ ms)

  blocks_joined :
      (infos : List Info) (buffer : List P.InfoMessage)
      → joined (blocks_of infos buffer) ≡ buffer ++ messages_of infos
  unfolding blocks_of messages_of joined
  blocks_joined [] buffer = last_joined buffer ∙ sym (append-nil buffer)
  blocks_joined (info ∷ infos) buffer =
      elim (Bool-cases (leb block_limit (length (buffer ++ (P.info_to_proto info ∷ []))))) [
        | inl full ↦ rw full (
            ap (λ l. (buffer ++ (P.info_to_proto info ∷ [])) ++ l) (blocks_joined infos [])
            ∙ append_assoc buffer (P.info_to_proto info ∷ []) (messages_of infos))
        | inr more ↦ rw more (
            blocks_joined infos (buffer ++ (P.info_to_proto info ∷ []))
            ∙ append_assoc buffer (P.info_to_proto info ∷ []) (messages_of infos))
      ]

  abbrev InLimits : List P.InfoMessage → Type 0
  InLimits b = (1 ≤ length b) × (length b ≤ block_limit)

  grown :
      (buffer : List P.InfoMessage) (m : P.InfoMessage)
      → length (buffer ++ m ∷ []) ≡ length buffer + 1
  grown buffer m = length-append buffer (m ∷ [])

  blocks_sizes :
      (infos : List Info) (buffer : List P.InfoMessage)
      → length buffer < block_limit
      → All InLimits (blocks_of infos buffer)
  unfolding blocks_of last_block
  blocks_sizes [] [] h = tt
  blocks_sizes [] (m ∷ ms) h = ((omega arith, omega (arith, h)), tt)
  blocks_sizes (info ∷ infos) buffer h =
      elim (Bool-cases (leb block_limit (length (buffer ++ (P.info_to_proto info ∷ []))))) [
        | inl full ↦ rw full (
          (
            omega (arith, grown buffer (P.info_to_proto info)),
            omega (arith, h, grown buffer (P.info_to_proto info)),
          ),
          blocks_sizes infos [] (omega arith),
        )
        | inr more ↦
            rw more
              (blocks_sizes infos (buffer ++ (P.info_to_proto info ∷ [])) (ground (arith, more)))
      ]

  -- If Walk passes all infos on without an error of its own, List sends exactly their messages, in
  -- order, in blocks of 1 up to 100, and stops with the error of the first block that cannot be
  -- sent.
  pub list_snapshots-IsSentInBlocks :
      (filters : List Bytes) (w : World Meta)
      → (S.walked filters w).1 ≡ ok tt
      → IsSentInBlocks
          (map P.info_to_proto (S.walked filters w).0)
          (list_snapshots S P send filters)
          w
  unfolding list_snapshots messages_of
  list_snapshots-IsSentInBlocks filters w walked = record {
    blocks = blocks_of (S.walked filters w).0 [];
    sends = rw walked (collect_sends (S.walked filters w).0 [] w);
    whole = blocks_joined (S.walked filters w).0 [];
    sizes = blocks_sizes (S.walked filters w).0 [] (omega arith);
  }
