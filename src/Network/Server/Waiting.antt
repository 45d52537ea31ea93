-- ===== src/Network/Server/Waiting.antt =====
-- network/server.go and rpc.go: what the messages of broadcastTx, broadcastBlock and statusLoop lead to.
use rfqrelayer.Prelude.{
  panic, ◌⊎◌, ℕ, zero, suc, ◌+◌, ◌-◌, ◌<◌, ◌≡◌, refl, ap, ◌∙◌, inl, inr, true, false, ◌&&◌, not,
  none, some, [], ◌∷◌, ◌++◌, arith, ltb, leb, ◌==◌, length, ok, err, Bool-cases, Bytes,
}
use rfqrelayer.Prelude.Int.{ℤ, pos, negsuc, ltb_ℤ}
use rfqrelayer.Types.Data.{Transaction}
use rfqrelayer.Types.Block.{RawBlock}
use rfqrelayer.Core.Chain.{Ledger, ChainError, too_low, height, get_block}
use rfqrelayer.Network.Rpc.{Message, tx_payload, StatusMessage}
use rfqrelayer.Network.Node.{
  Node, RwMutex, done, panics, waits, Externals, broadcast, broadcast_tx, broadcast_block,
  request_blocks, lock,
}
use rfqrelayer.Network.Server.{
  process_transaction, process_message, process_status, process_get_status, collect_blocks,
  after_block, wanted_blocks, run_task,
}
use rfqrelayer.Network.Rpc.{
  bad_block, decode_rpc, decode_payload, block_decode, new_message, tx_message, block_message,
}
use rfqrelayer.Network.Server.Sound.Answers.{Unreadable, get_block-ends, collect_blocks-suc}

above : (k : ℕ) → ltb_ℤ (elim k as (λ _. ℤ) [ zero ↦ negsuc 0 | suc n ↦ pos n ]) (pos k) ≡ true
above zero = refl
above (suc k) = ground arith

module _ {S I : Type 0} (x : Externals S I) where
  get_block-past :
      (c : Ledger S) (readers : ℕ)
      → get_block x.database x.decode_header x.decode_body x.header_hash
          (length c.headers)
          c
          readers
        ≡ (err too_low, readers)
  unfolding get_block height
  get_block-past c readers = let past = above (length c.headers) in rw past refl

  -- Rounds that go past the last height come to an error.
  collect_blocks-past :
      (rounds i : ℕ) (c : Ledger S) (readers : ℕ)
      → 0 < rounds
      → i + rounds ≡ suc (length c.headers)
      → ((e : ChainError) × (r : ℕ) × (collect_blocks x rounds i c readers ≡ (err e, r)))
        ⊎ ((r : ℕ) × Unreadable x c × (collect_blocks x rounds i c readers ≡ (panic, r)))
  collect_blocks-past zero i c readers p h = absurd (omega arith)
  collect_blocks-past (suc rounds) i c readers p h = elim (get_block-ends x i c readers) [
    | inr (inl (e, r, failed)) ↦
        inl (e, r, rw (collect_blocks-suc x rounds i c readers, failed) refl)
    | inr (inr (r, bad, failed)) ↦
        inr (r, bad, rw (collect_blocks-suc x rounds i c readers, failed) refl)
    | inl (b, got) ↦ elim (Bool-cases (rounds == 0)) [
      | inl no_more ↦
          let at : i ≡ length c.headers = ground arith in
          inl (
            too_low,
            readers,
            collect_blocks-suc x rounds i c readers
                ∙ ap (λ o. after_block o (collect_blocks x rounds (suc i) c))
                    (ap
                        (λ j.
                          get_block x.database x.decode_header x.decode_body x.header_hash j c
                            readers)
                        at
                      ∙ get_block-past c readers),
          )
      | inr more ↦
          elim (collect_blocks-past rounds (suc i) c readers (ground arith) (omega arith)) [
            | inl (e, r, failed) ↦
                inl (e, r, rw (collect_blocks-suc x rounds i c readers, got) (rw failed refl))
            | inr (r, bad, failed) ↦
                inr (r, bad, rw (collect_blocks-suc x rounds i c readers, got) (rw failed refl))
          ]
    ]
  ]

  -- A node that is behind a peer's status, and has no validator, starts to ask for the blocks up to the
  -- length that the status names. A peer that still has this length answers every such request with an
  -- error, since the height of its last block is one less.
  pub wanted_blocks-process_status :
      (from : Bytes) (n p : Node S)
      → n.is_validator ≡ false
      → length n.chain.headers < length p.chain.headers
      → let status : StatusMessage = record {
        id = p.id;
        current_length = length p.chain.headers;
      } in
        (process_status x from status n
          ≡ done
              (record n { tasks = n.tasks ++ request_blocks from status.current_length 0 ∷ [] })
              none)
        × (((e : ChainError) × (r : ℕ) × (wanted_blocks x
                  (record { from_block = status.current_length; to_block = length n.chain.headers })
                  p.chain
                  p.chain_readers
                ≡ (err e, r)))
            ⊎ ((r : ℕ) × Unreadable x p.chain
                × (wanted_blocks x
                      (record {
                        from_block = status.current_length;
                        to_block = length n.chain.headers;
                      })
                      p.chain
                      p.chain_readers
                    ≡ (panic, r))))
  unfolding process_status wanted_blocks
  wanted_blocks-process_status from n p light behind =
      let long : ltb (length p.chain.headers) (length n.chain.headers) ≡ false = ground arith in
      let asks : (not n.is_validator && ltb (length n.chain.headers) (length p.chain.headers))
          ≡ true =
        ground arith in
      let near : (leb (length p.chain.headers) (length p.chain.headers)
            && leb (length n.chain.headers) (length p.chain.headers))
          ≡ true =
        ground arith in
      let past =
        collect_blocks-past (suc (length p.chain.headers) - length n.chain.headers)
          (length n.chain.headers) p.chain p.chain_readers (omega arith) (omega arith) in
      (rw long (rw asks refl), rw near past)

  -- broadcastBlock of a node whose lock is free takes the lock and then waits for it. In the state that
  -- it leaves, the answer to a GetStatus message waits too, and so do the broadcasts of transactions and
  -- of other blocks.
  pub broadcast_block_waits :
      (b b' : RawBlock) (t : Transaction) (from : Bytes) (n : Node S)
      → n.mu.locked ≡ false
      → n.mu.readers ≡ 0
      → (n' : Node S) × (run_task x (broadcast_block b) n ≡ waits n')
        × (n'.chain ≡ n.chain)
        × (process_get_status x from n' ≡ waits n')
        × (run_task x (broadcast_tx t) n' ≡ waits n')
        × (run_task x (broadcast_block b') n' ≡ waits n')
  unfolding run_task process_get_status broadcast
  broadcast_block_waits b b' t from n unlocked unread =
      let held : RwMutex = record (n.mu) { locked = true } in
      let none_reads : (n.mu.readers == 0) ≡ true = ground arith in
      let free : lock n.mu ≡ some held = rw (unlocked, lock) (rw none_reads refl) in
      (record n { mu = held }, rw (free, run_task) refl, refl, refl, refl, refl)

  -- The message that broadcastTx sends of any transaction, once decoded, is a transaction without an
  -- inner one, on which ProcessMessage panics, and a block that broadcastBlock sends is not decoded. gob
  -- gives back the message that it encodes, and rlp finds no block in an empty buffer.
  pub decode_rpc-broadcast :
      (from id : Bytes) (n : Node S)
      → ((m : Message) → x.codec.decode_message (x.codec.encode_message m) ≡ some m)
      → x.codec.decode_block [] ≡ none
      → (decode_rpc x.codec (x.codec.encode_message (new_message tx_message [] id))
          ≡ ok (tx_payload none))
        × (process_message x from (tx_payload none) n ≡ panics)
        × (decode_rpc x.codec (x.codec.encode_message (new_message block_message [] id))
            ≡ err bad_block)
  unfolding decode_rpc decode_payload block_decode new_message process_message process_transaction
  decode_rpc-broadcast from id n back no_block = (
    rw (back (new_message tx_message [] id), decode_rpc) refl,
    refl,
    rw (back (new_message block_message [] id), decode_rpc) (rw (no_block, block_decode) refl),
  )
