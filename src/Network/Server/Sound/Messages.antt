-- ===== src/Network/Server/Sound/Messages.antt =====
-- network/server.go: ProcessMessage of a validator's node, and the goroutines.
use rfqrelayer.Prelude.{
  ◌≡◌, ◌≢◌, ◌⊎◌, arith, All, none, refl, inl, inr, some, List, [], ◌∷◌, Bool-cases, Option-cases,
  Bytes,
}
use rfqrelayer.Types.Data.{TxData, Transaction}
use rfqrelayer.Types.Block.{Header, RawBlock, raw}
use rfqrelayer.Core.Chain.{verify_tx}
use rfqrelayer.Network.TxPool.{contains}
use rfqrelayer.Network.TxPool.Fifo.{add-Added}
use rfqrelayer.Network.Rpc.{
  Message, Payload, tx_payload, block_payload, get_blocks_payload, status_payload,
  get_status_payload, blocks_payload, FullBlock,
}
use rfqrelayer.Network.Node.{Node, Externals, unreachable}
use rfqrelayer.Network.Server.{
  rebuilt, verify_and_add, process_block, process_blocks, add_transaction, process_transaction,
  process_message,
}
use rfqrelayer.Network.Server.Sound.{
  Safe, Grown-refl, IsSound, After, unchanged, same, and_then-Safe, whatever-Safe,
  verify_and_add-Safe,
}
use rfqrelayer.Network.Server.Sound.Answers.{
  Unreadable, process_get_blocks-Safe, process_get_status-Safe, process_status-Safe,
}

-- A FullBlock with both its parts.
abbrev pub HasParts : FullBlock → Type 0
HasParts f = (h : Header) × (b : RawBlock) × (f.header ≡ some h) × (f.block ≡ some b)

-- A message without a nil pointer that is followed: a transaction has an inner one, a block has a
-- header, and the blocks of an answer have both their parts.
abbrev pub IsWhole : Payload → Type 0
IsWhole (tx_payload none) = ⊥
IsWhole (tx_payload (some t)) = Unit
IsWhole (block_payload r) = r.header ≢ none
IsWhole (get_blocks_payload m) = Unit
IsWhole (status_payload m) = Unit
IsWhole (get_status_payload id) = Unit
IsWhole (blocks_payload fs) = All HasParts fs

-- `Q` holds where a connection that is dialled once more is not reached.
module _ {S I : Type 0} (x : Externals S I) (Q : Type 0)
    (dials : (peer : Bytes) (m : Message) → x.delivers peer m ≡ unreachable → Q) where
  process_block-Safe :
      (r : RawBlock) (n : Node S)
      → (r.header ≡ none → Q)
      → IsSound x n
      → Safe Q (After x n) (process_block x r n)
  unfolding process_block
  process_block-Safe r n bare s =
      and_then-Safe x Q n (verify_and_add x r n) _ (verify_and_add-Safe x Q r n bare s)
        (λ m v. same x m _ refl refl v)

  abbrev rest_whole :
      (f : FullBlock) (fs : List FullBlock) → All HasParts (f ∷ fs) ⊎ Q → All HasParts fs ⊎ Q
  rest_whole f fs (inl h) = inl h.1
  rest_whole f fs (inr q) = inr q

  bad_parts :
      (f : FullBlock) (fs : List FullBlock) → rebuilt f ≡ none → All HasParts (f ∷ fs) ⊎ Q → Q
  unfolding rebuilt
  bad_parts f fs missing (inr q) = q
  bad_parts f fs missing (inl ((h, b, e, g), _)) = absurd (ground (arith, missing, e, g))

  process_blocks-Safe :
      (fs : List FullBlock) (n : Node S)
      → All HasParts fs ⊎ Q
      → IsSound x n
      → Safe Q (After x n) (process_blocks x fs n)
  unfolding process_blocks
  process_blocks-Safe [] n whole s = unchanged x n s
  process_blocks-Safe (f ∷ fs) n whole s = elim (Option-cases (rebuilt f)) [
    | inl missing ↦ rw (missing, process_blocks) (bad_parts f fs missing whole)
    | inr (b, made) ↦
        rw (made, process_blocks)
          (whatever-Safe x Q n (verify_and_add x (raw b) n) (process_blocks x fs)
            (verify_and_add-Safe x Q (raw b) n (λ e. absurd (ground (arith, e))) s)
            (λ m v. process_blocks-Safe fs m (rest_whole f fs whole) v))
  ]

  process_transaction-Safe :
      (t : TxData) (n : Node S)
      → IsSound x n
      → Safe Q (After x n) (process_transaction x (some t) n)
  unfolding process_transaction add_transaction
  process_transaction-Safe inner n s =
      let t : Transaction = record { inner = inner } in
      elim (Bool-cases (contains n.mem_pool (x.tx_hash t))) [
        | inl known ↦ rw known (unchanged x n s)
        | inr new ↦ elim (Option-cases (verify_tx x.tx_hash x.valid_values x.recover t)) [
          | inr (e, refused) ↦ rw new (rw refused (unchanged x n s))
          | inl valid ↦
              let (p, added, a) = add-Added x.tx_hash ⦃e = x.same_tx⦄ n.mem_pool t s.pool in
              rw new (
                rw valid (
                  rw (added, add_transaction)
                    (record {
                      sound = record {
                        pool = a.valid;
                        linked = s.linked;
                        nonempty = s.nonempty;
                        validating = s.validating;
                      };
                      grown = Grown-refl n.chain.headers;
                    })))
        ]
      ]

  pub process_any-Safe :
      (from : Bytes) (m : Payload) (n : Node S)
      → IsWhole m ⊎ Q
      → (Unreadable x n.chain → Q)
      → IsSound x n
      → Safe Q (After x n) (process_message x from m n)
  unfolding process_message process_transaction
  process_any-Safe from (tx_payload none) n (inl h) reads s = absurd h
  process_any-Safe from (tx_payload none) n (inr q) reads s = q
  process_any-Safe from (tx_payload (some t)) n whole reads s = process_transaction-Safe t n s
  process_any-Safe from (block_payload r) n (inl h) reads s =
      process_block-Safe r n (λ e. absurd (h e)) s
  process_any-Safe from (block_payload r) n (inr q) reads s = process_block-Safe r n (λ e. q) s
  process_any-Safe from (get_blocks_payload m) n whole reads s =
      process_get_blocks-Safe x Q dials from m n reads s
  process_any-Safe from (status_payload m) n whole reads s =
      process_status-Safe x Q dials from m n s
  process_any-Safe from (get_status_payload id) n whole reads s =
      process_get_status-Safe x Q dials from n s
  process_any-Safe from (blocks_payload fs) n whole reads s = process_blocks-Safe fs n whole s
