-- ===== src/Network/Server/Sound/Answers.antt =====
-- network/server.go: the answers of a validator's node to its peers' questions.
use rfqrelayer.Prelude.{
  some, ℕ, zero, suc, ◌<◌, ◌≡◌, refl, ap, ◌⊎◌, inl, inr, false, ◌&&◌, not, List, [], ◌∷◌, arith,
  ltb, leb, length, get_elem?, panic, ok, err, Bool-cases, Option-cases, Bytes,
}
use rfqrelayer.Prelude.Int.{ℤ, pos, negsuc, ltb_ℤ}
use rfqrelayer.Types.Block.{Header, Block}
use rfqrelayer.Core.Chain.{Ledger, ChainError, too_low, not_stored, height, get_block}
use rfqrelayer.Rawdb.Blocks.{Read, nothing_read, read_panics, read_back, read_block}
use rfqrelayer.Core.Chain.Accepted.{get_block_header_lem}
use rfqrelayer.Network.Rpc.{Message, GetBlocksMessage, FullBlock, StatusMessage}
use rfqrelayer.Network.Node.{
  Node, Outcome, done, panics, waits, Delivery, delivered, redialed, unreachable, Externals, send,
  send_to, is_peer, r_lock,
}
use rfqrelayer.Network.Server.{
  process_status, process_get_status, process_get_blocks, collect_blocks, after_block, full_block,
  wanted_blocks, create_status_message, released,
}
use rfqrelayer.Network.Server.Sound.{Safe, Safe-map, IsSound, After, unchanged, same, After-trans}

below :
    (k i : ℕ)
    → ltb_ℤ (elim k as (λ _. ℤ) [ zero ↦ negsuc 0 | suc n ↦ pos n ]) (pos i) ≡ false
    → i < k
below zero i h = absurd (ground arith)
below (suc k) i h = ground arith

Delivery-cases : (o : Delivery) → (o ≡ delivered) ⊎ (o ≡ redialed) ⊎ (o ≡ unreachable)
Delivery-cases delivered = inl refl
Delivery-cases redialed = inr (inl refl)
Delivery-cases unreachable = inr (inr refl)

Read-cases :
    {A : Type 0} (o : Read A)
    → (o ≡ nothing_read) ⊎ (o ≡ read_panics) ⊎ ((a : A) × (o ≡ read_back a))
Read-cases nothing_read = inl refl
Read-cases read_panics = inr (inl refl)
Read-cases (read_back a) = inr (inr (a, refl))

module _ {S I : Type 0} (x : Externals S I) where
  -- Reading a block of some header of the chain panics.
  abbrev pub Unreadable : Ledger S → Type 0
  Unreadable c =
      (i : ℕ) × (h : Header) × (get_elem? c.headers i ≡ some h)
      × (read_block x.database x.decode_header x.decode_body c.db (x.header_hash h) i ≡ read_panics)

  height-below : (c : Ledger S) (i : ℕ) → ltb_ℤ (height c) (pos i) ≡ false → i < length c.headers
  unfolding height
  height-below c i h = below (length c.headers) i h

  -- GetBlock panics only where a block is unreadable; without an error it leaves no reader.
  pub get_block-ends :
      (i : ℕ) (c : Ledger S) (readers : ℕ)
      → ((b : Block) × (get_block x.database x.decode_header x.decode_body x.header_hash i c readers
            ≡ (ok b, readers)))
        ⊎ ((e : ChainError) × (r : ℕ) × (get_block x.database x.decode_header x.decode_body
                x.header_hash i c readers
              ≡ (err e, r)))
        ⊎ ((r : ℕ) × Unreadable c
            × (get_block x.database x.decode_header x.decode_body x.header_hash i c readers
                ≡ (panic, r)))
  unfolding get_block
  get_block-ends i c readers = elim (Bool-cases (ltb_ℤ (height c) (pos i))) [
    | inl low ↦ inr (inl (too_low, readers, rw low refl))
    | inr high ↦
        let below = height-below c i high in
        elim (get_block_header_lem i c) [
          | inr (inl (at_end, _)) ↦ absurd (omega arith)
          | inr (inr (past, _)) ↦ absurd (omega arith)
          | inl (h, _, at, found) ↦
              elim (Read-cases
                (read_block x.database x.decode_header x.decode_body c.db (x.header_hash h) i)) [
                  | inl missing ↦
                      inr (inl (not_stored, suc readers, rw high (rw found (rw missing refl))))
                  | inr (inl bad) ↦
                      inr (inr (suc readers, (i, h, at, bad), rw high (rw found (rw bad refl))))
                  | inr (inr (b, stored)) ↦ inl (b, rw high (rw found (rw stored refl)))
                ]
        ]
  ]

  pub collect_blocks-zero :
      (i : ℕ) (c : Ledger S) (readers : ℕ) → collect_blocks x zero i c readers ≡ (ok [], readers)
  unfolding collect_blocks
  collect_blocks-zero i c readers = refl

  pub collect_blocks-suc :
      (rounds i : ℕ) (c : Ledger S) (readers : ℕ)
      → collect_blocks x (suc rounds) i c readers
        ≡ after_block
            (get_block x.database x.decode_header x.decode_body x.header_hash i c readers)
            (collect_blocks x rounds (suc i) c)
  unfolding collect_blocks
  collect_blocks-suc rounds i c readers = refl

  collect_blocks-ends :
      (rounds i : ℕ) (c : Ledger S) (readers : ℕ)
      → ((fs : List FullBlock) × ((collect_blocks x rounds i c readers).0 ≡ ok fs))
        ⊎ ((e : ChainError) × ((collect_blocks x rounds i c readers).0 ≡ err e))
        ⊎ (Unreadable c × ((collect_blocks x rounds i c readers).0 ≡ panic))
  collect_blocks-ends zero i c readers = inl ([], ap (λ r. r.0) (collect_blocks-zero i c readers))
  collect_blocks-ends (suc rounds) i c readers =
      let open_step = collect_blocks-suc rounds i c readers in
      elim (get_block-ends i c readers) [
        | inr (inl (e, r, failed)) ↦ inr (inl (e, rw (open_step, failed) refl))
        | inr (inr (r, bad, failed)) ↦ inr (inr (bad, rw (open_step, failed) refl))
        | inl (b, got) ↦ elim (collect_blocks-ends rounds (suc i) c readers) [
          | inr (inl (e, failed)) ↦ inr (inl (e, rw (open_step, got) (rw failed refl)))
          | inr (inr (bad, failed)) ↦ inr (inr (bad, rw (open_step, got) (rw failed refl)))
          | inl (fs, rest) ↦ inl (full_block b ∷ fs, rw (open_step, got) (rw rest refl))
        ]
      ]

  wanted_blocks-ends :
      (m : GetBlocksMessage) (c : Ledger S) (readers : ℕ)
      → ((fs : List FullBlock) × ((wanted_blocks x m c readers).0 ≡ ok fs))
        ⊎ ((e : ChainError) × ((wanted_blocks x m c readers).0 ≡ err e))
        ⊎ (Unreadable c × ((wanted_blocks x m c readers).0 ≡ panic))
  unfolding wanted_blocks
  wanted_blocks-ends m c readers =
      elim (Bool-cases (leb m.from_block (length c.headers) && leb m.to_block (length c.headers))) [
        | inl near ↦ rw near (collect_blocks-ends _ _ c readers)
        | inr far ↦ rw far (inl ([], refl))
      ]

  -- `Q` holds where a connection that is dialled once more is not reached.
  module _ (Q : Type 0)
      (dials : (peer : Bytes) (m : Message) → x.delivers peer m ≡ unreachable → Q) where
    pub send-Safe :
        (peer : Bytes) (m : Message) (n : Node S)
        → IsSound x n
        → Safe Q (After x n) (send x peer m n)
    unfolding send
    send-Safe peer m n s = elim (Delivery-cases (x.delivers peer m)) [
      | inl through ↦ rw (through, send) (same x n _ refl refl s)
      | inr (inl lost) ↦ rw (lost, send) (unchanged x n s)
      | inr (inr gone) ↦ rw (gone, send) (dials peer m gone)
    ]

    send_to-Safe :
        (from : Bytes) (m : Message) (n : Node S)
        → IsSound x n
        → Safe Q (After x n) (send_to x from m n)
    unfolding send_to
    send_to-Safe from m n s = elim (Bool-cases (is_peer from n.peers)) [
      | inl known ↦ rw known (send-Safe from m n s)
      | inr other ↦ rw other (unchanged x n s)
    ]

    pub process_get_blocks-Safe :
        (from : Bytes) (m : GetBlocksMessage) (n : Node S)
        → (Unreadable n.chain → Q)
        → IsSound x n
        → Safe Q (After x n) (process_get_blocks x from m n)
    unfolding process_get_blocks
    process_get_blocks-Safe from m n reads s =
        let n' : Node S = record n {
          chain_readers = (wanted_blocks x m n.chain n.chain_readers).1;
        } in
        elim (wanted_blocks-ends m n.chain n.chain_readers) [
          | inr (inl (e, failed)) ↦ rw (failed, process_get_blocks) (same x n n' refl refl s)
          | inr (inr (bad, failed)) ↦ rw (failed, process_get_blocks) (reads bad)
          | inl (fs, found) ↦ elim (Option-cases (x.codec.encode_blocks fs)) [
            | inl not_possible ↦
                rw (found, process_get_blocks) (rw not_possible (same x n n' refl refl s))
            | inr (payload, coded) ↦
                rw (found, process_get_blocks)
                  (rw coded (
                    Safe-map Q (send_to x from _ n')
                      (λ _ later. After-trans x (same x n n' refl refl s) later)
                      (send_to-Safe from _ n' (same x n n' refl refl s).sound)))
          ]
        ]

    released-Safe :
        (n : Node S) (o : Outcome S) → Safe Q (After x n) o → Safe Q (After x n) (released o)
    released-Safe n (done m e) h = After-trans x h (same x m _ refl refl h.sound)
    released-Safe n panics h = h
    released-Safe n (waits m) h = h

    pub process_get_status-Safe :
        (from : Bytes) (n : Node S) → IsSound x n → Safe Q (After x n) (process_get_status x from n)
    unfolding process_get_status
    process_get_status-Safe from n s = elim (Option-cases (r_lock n.mu)) [
      | inl busy ↦ rw (busy, process_get_status) (unchanged x n s)
      | inr (m, free) ↦
          let n' : Node S = record n { mu = m } in
          let before = same x n n' refl refl s in
          rw (free, process_get_status)
            (released-Safe n (send_to x from (create_status_message x n) n') (
              Safe-map Q (send_to x from (create_status_message x n) n')
                (λ _ later. After-trans x before later)
                (send_to-Safe from (create_status_message x n) n' before.sound)))
    ]

    pub process_status-Safe :
        (from : Bytes) (m : StatusMessage) (n : Node S)
        → IsSound x n
        → Safe Q (After x n) (process_status x from m n)
    unfolding process_status
    process_status-Safe from m n s =
        elim (Bool-cases (ltb m.current_length (length n.chain.headers))) [
          | inl short ↦ rw short (unchanged x n s)
          | inr long ↦
              elim (Bool-cases
                (not n.is_validator && ltb (length n.chain.headers) m.current_length)) [
                  | inl behind ↦ rw long (rw behind (same x n _ refl refl s))
                  | inr level ↦ rw long (rw level (unchanged x n s))
                ]
        ]
