-- ===== src/Network/Server.antt =====
-- network/server.go: the handlers of messages, the goroutines that they start, and the making of
-- blocks. The chain's lock is `chain_readers`: a block can only be added once no reader holds it.
pub mod Sound
pub mod Sync
pub mod Ready
pub mod Waiting
use rfqrelayer.Prelude.{
  ℕ, zero, suc, ◌+◌, ◌-◌, ◌*◌, ◌/◌, ◌%◌, ◌^◌, ◌≤◌, ◌<◌, ◌≡◌, refl, sym, ap, ◌∙◌, ◌≢◌, ◌↔◌, ◌⊎◌, inl,
  inr, Bool, true, false, ◌&&◌, ◌||◌, not, Option, none, some, List, [], ◌∷◌, ◌++◌, map, arith, ltb,
  leb, ◌==◌, if◌then◌else◌, length, get_elem?, set, take, drop, replicate, keep_if, All, Result, ok,
  err, panic, ◌>>=◌, ◌>>◌, Bool-cases, Option-cases, List-cases, length-append, length-take,
  length-drop, length-replicate, length-map, drop-append_length, get_elem?-append,
  get_elem?-append_length, drop-append, drop_one-drop, drop-get_elem?, drop_past, get_elem?-map,
  Bytes, bytes_eq, bytes_eq_iff, bytes_eq_refl, bytes_eq-append, bytes_le, has_prefix,
  has_prefix-append, bytes_le-append,
}
use rfqrelayer.Prelude.Int.{ℤ, pos}
use rfqrelayer.Types.Data.{TxData, Transaction, tx_type, rfq_request_tx_type, quote_tx_type}
use rfqrelayer.Types.Block.{Header, Body, Block, RawBlock, raw}
use rfqrelayer.Types.Block.Making.{
  new_block_with_header, with_body, new_block_from_prev_header, sign_block,
}
use rfqrelayer.Core.Auction.{TxEvent}
use rfqrelayer.Core.Chain.{
  Ledger, ChainError, TxError, height, get_block_header, verify_tx, verify_block, get_block,
}
use rfqrelayer.Network.TxPool.{TxPool, contains, add, pending_txs, clear_pending}
use rfqrelayer.Network.Rpc.{
  Message, Payload, tx_payload, block_payload, get_blocks_payload, status_payload,
  get_status_payload, blocks_payload, GetBlocksMessage, FullBlock, StatusMessage, new_message,
  tx_message, block_message, get_blocks_message, status_message, blocks_message,
}
use rfqrelayer.Network.Node.{
  RwMutex, lock, unlock, r_lock, r_unlock, Task, broadcast_tx, broadcast_block, request_blocks,
  Node, NodeError, pool_failed, not_encoded, not_signed, tx_refused, chain_refused, Outcome, done,
  panics, waits, and_then, whatever, Externals, is_peer, send, send_to, broadcast,
}

-- The event of a request or a quote that came into the pool.
unfoldable pub tx_events : (Transaction → Bytes) → Transaction → List TxEvent
tx_events hash t =
    if tx_type t.inner == rfq_request_tx_type || tx_type t.inner == quote_tx_type
    then record { tx_type = tx_type t.inner; tx_hash = hash t; transaction = t.inner } ∷ []
    else []

-- The block that processBlocksMessage makes of a FullBlock.
-- Without either part there is a nil pointer that is followed.
unfoldable pub rebuilt : FullBlock → Option Block
rebuilt f = elim f.header [
  | none ↦ none
  | some h ↦ elim f.block [
    | none ↦ none
    | some b ↦ some (with_body (new_block_with_header h) b.transactions b.validator)
  ]
]

-- The FullBlock of a block of the chain.
abbrev pub full_block : Block → FullBlock
full_block b = record { block = some (raw b); header = some b.header }

-- A block that GetBlock gave goes before those of the later rounds.
abbrev pub after_block :
    Result ChainError Block × ℕ
    → (ℕ → Result ChainError (List FullBlock) × ℕ)
    → Result ChainError (List FullBlock) × ℕ
after_block (err e, readers) rest = (err e, readers)
after_block (panic, readers) rest = (panic, readers)
after_block (ok b, readers) rest =
    let (bs, left) = rest readers in (bs >>= λ fs. ok (full_block b ∷ fs), left)

-- The deferred RUnlock of a call.
abbrev pub released : {S : Type 0} → Outcome S → Outcome S
released (done n e) = done (record n { mu = r_unlock 1 n.mu }) e
released panics = panics
released (waits n) = waits n

module _ {S I : Type 0} (x : Externals S I) where
  -- VerifyBlock of the node's chain, which takes the chain's lock to add the block.
  unfoldable pub verify_and_add : RawBlock → Node S → Outcome S
  verify_and_add b n =
      elim (verify_block x.tx_hash x.valid_values x.recover x.database.writer x.keccak
        x.verify_signature x.header_hash x.encode_header x.encode_body (some b) n.chain) [
          | err e ↦ done n (some (chain_refused e))
          | panic ↦ panics
          | ok c ↦ if n.chain_readers == 0 then done (record n { chain = c }) none else waits n
        ]

  abbrev pub start_task : Task → Node S → Outcome S
  start_task t n = done (record n { tasks = n.tasks ++ t ∷ [] }) none

  unfoldable pub process_block : RawBlock → Node S → Outcome S
  process_block b n = and_then (verify_and_add b n) (start_task (broadcast_block b))

  -- A block that is refused is passed over.
  unfoldable pub process_blocks : List FullBlock → Node S → Outcome S
  process_blocks [] n = done n none
  process_blocks (f ∷ fs) n = elim (rebuilt f) [
    | none ↦ panics
    | some b ↦ whatever (verify_and_add (raw b) n) (process_blocks fs)
  ]

  -- The part of processTransaction after Verify.
  unfoldable pub add_transaction : Transaction → Node S → Outcome S
  add_transaction t n = elim (add ⦃e = x.same_tx⦄ x.tx_hash n.mem_pool t) [
    | err e ↦ done n (some pool_failed)
    | panic ↦ panics
    | ok p ↦
        done
          (record n {
            tasks = n.tasks ++ broadcast_tx t ∷ [];
            mem_pool = p;
            events = n.events ++ tx_events x.tx_hash t;
          })
          none
  ]

  -- Hash of a transaction without an inner transaction panics.
  unfoldable pub process_transaction : Option TxData → Node S → Outcome S
  process_transaction none n = panics
  process_transaction (some inner) n =
      let t : Transaction = record { inner = inner } in
      if contains n.mem_pool (x.tx_hash t)
      then done n none
      else elim (verify_tx x.tx_hash x.valid_values x.recover t) [
        | some e ↦ done n (some (tx_refused e))
        | none ↦ add_transaction t n
      ]

  -- The loop of processGetBlocksMessage, of `rounds` rounds from the height `i`, with the readers that
  -- GetBlock leaves.
  unfoldable pub collect_blocks : ℕ → ℕ → Ledger S → ℕ → Result ChainError (List FullBlock) × ℕ
  collect_blocks zero i c readers = (ok [], readers)
  collect_blocks (suc rounds) i c readers =
      after_block (get_block x.database x.decode_header x.decode_body x.header_hash i c readers)
        (collect_blocks rounds (suc i) c)

  -- It goes from `to_block` up to `from_block`.
  unfoldable pub wanted_blocks :
      GetBlocksMessage → Ledger S → ℕ → Result ChainError (List FullBlock) × ℕ
  wanted_blocks m c readers =
      if leb m.from_block (length c.headers) && leb m.to_block (length c.headers)
      then collect_blocks (suc m.from_block - m.to_block) m.to_block c readers
      else (ok [], readers)

  unfoldable pub process_get_blocks : Bytes → GetBlocksMessage → Node S → Outcome S
  process_get_blocks from m n =
      let (bs, readers) = wanted_blocks m n.chain n.chain_readers in
      let n' = record n { chain_readers = readers } in
      elim bs [
        | err e ↦ done n' (some (chain_refused e))
        | panic ↦ panics
        | ok fs ↦ elim (x.codec.encode_blocks fs) [
          | none ↦ done n' (some not_encoded)
          | some payload ↦ send_to x from (new_message blocks_message payload n.id) n'
        ]
      ]

  unfoldable pub create_status_message : Node S → Message
  create_status_message n =
      new_message status_message
        (x.codec.encode_status (record { id = n.id; current_length = length n.chain.headers })) n.id

  unfoldable pub process_get_status : Bytes → Node S → Outcome S
  process_get_status from n = elim (r_lock n.mu) [
    | none ↦ waits n
    | some m ↦ released (send_to x from (create_status_message n) (record n { mu = m }))
  ]

  unfoldable pub process_status : Bytes → StatusMessage → Node S → Outcome S
  process_status from m n =
      if ltb m.current_length (length n.chain.headers)
      then done n none
      else if not n.is_validator && ltb (length n.chain.headers) m.current_length
      then start_task (request_blocks from m.current_length 0) n
      else done n none

  unfoldable pub process_message : Bytes → Payload → Node S → Outcome S
  process_message from (tx_payload t) n = process_transaction t n
  process_message from (block_payload b) n = process_block b n
  process_message from (get_status_payload id) n = process_get_status from n
  process_message from (status_payload m) n = process_status from m n
  process_message from (get_blocks_payload m) n = process_get_blocks from m n
  process_message from (blocks_payload fs) n = process_blocks fs n

  -- One round of requestBlocksLoop, which holds the lock for reading until it returns. An address that
  -- is no peer gives a nil peer, whose connection is asked for.
  unfoldable pub request_round : Bytes → ℕ → ℕ → Node S → Outcome S
  request_round from index held n =
      if ltb index (length n.chain.headers)
      then done (record n { mu = r_unlock held n.mu }) none
      else elim (r_lock n.mu) [
        | none ↦ waits n
        | some m ↦
            if is_peer from n.peers
            then whatever
                (send x from
                  (new_message get_blocks_message
                    (x.codec.encode_get_blocks
                      (record { from_block = index; to_block = length n.chain.headers }))
                    n.id)
                  (record n { mu = m }))
                (start_task (request_blocks from index (suc held)))
            else panics
      ]

  -- broadcastBlock keeps the lock for writing while broadcast asks for it for reading.
  unfoldable pub run_task : Task → Node S → Outcome S
  run_task (broadcast_tx t) n = broadcast x (new_message tx_message [] n.id) n
  run_task (broadcast_block b) n = elim (lock n.mu) [
    | none ↦ waits n
    | some m ↦
        whatever (broadcast x (new_message block_message [] n.id) (record n { mu = m }))
          (λ n'. done (record n' { mu = unlock n'.mu }) none)
  ]
  run_task (request_blocks from index held) n = request_round from index held n

  -- CreateNewBlock at the time `now`. The header that the chain keeps is changed through its pointer.
  unfoldable pub new_chain_block : ℕ → Header → Node S → Outcome S
  new_chain_block now prev n =
      let (b, left) =
        new_block_from_prev_header x.keccak x.tx_hash x.verify_signature x.header_hash now prev
          (pending_txs n.mem_pool) in
      let kept = record n {
        chain = record (n.chain) {
          headers = set n.chain.headers (length n.chain.headers - 1) left;
        };
      } in
      elim (sign_block x.keccak x.tx_hash x.verify_signature x.sign x.public_key b) [
        | none ↦ done kept (some not_signed)
        | some b' ↦ and_then (verify_and_add (raw b') kept) (λ n'.
            start_task (broadcast_block (raw b'))
              (record n' { mem_pool = clear_pending n'.mem_pool }))
      ]

  unfoldable pub create_new_block : ℕ → Node S → Outcome S
  create_new_block now n = elim (get_block_header (height n.chain) n.chain) [
    | err e ↦ done n (some (chain_refused e))
    | panic ↦ panics
    | ok prev ↦ new_chain_block now prev n
  ]
