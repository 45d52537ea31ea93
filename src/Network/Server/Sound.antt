-- ===== src/Network/Server/Sound.antt =====
-- network/server.go: the nodes of validators, and the calls that keep them sound.
pub mod Answers
pub mod Messages
pub mod Making
pub mod Reach
use rfqrelayer.Prelude.{
  ℕ, zero, suc, ◌+◌, ◌-◌, ◌*◌, ◌/◌, ◌%◌, ◌^◌, ◌≤◌, ◌<◌, ◌≡◌, refl, sym, ap, ◌∙◌, ◌≢◌, ◌↔◌, ◌⊎◌, inl,
  inr, Bool, true, false, ◌&&◌, ◌||◌, not, Option, none, some, List, [], ◌∷◌, ◌++◌, map, arith, ltb,
  leb, ◌==◌, if◌then◌else◌, length, get_elem?, set, take, drop, replicate, keep_if, All, Result, ok,
  err, panic, ◌>>=◌, ◌>>◌, Bool-cases, Option-cases, List-cases, length-append, length-take,
  length-drop, length-replicate, length-map, drop-append_length, get_elem?-append,
  get_elem?-append_length, drop-append, drop_one-drop, drop-get_elem?, drop_past, get_elem?-map,
  Bytes, bytes_eq, bytes_eq_iff, bytes_eq_refl, bytes_eq-append, bytes_le, has_prefix,
  has_prefix-append, bytes_le-append,
}
use rfqrelayer.Prelude.Eq.{Eq}
use rfqrelayer.Prelude.Int.{ℤ, pos, ltb_ℤ}
use rfqrelayer.Types.Data.{TxData, Transaction}
use rfqrelayer.Types.Block.{Header, Body, Block, RawBlock}
use rfqrelayer.Core.Heap.Order.{get_elem?-lt, length-set, get_elem?-set}
use rfqrelayer.Core.Chain.{
  Ledger, ChainError, TxError, height, get_block_header, verify_tx, verify_block, get_block,
}
use rfqrelayer.Core.Chain.Linked.{IsLinked, Extended, verify_block-Ends}
use rfqrelayer.Network.TxPool.{TxPool, contains, add, pending_txs, clear_pending}
use rfqrelayer.Network.TxPool.Fifo.{IsValid, Added, add-Added, clear_pending_lem}
use rfqrelayer.Network.Rpc.{
  Message, Payload, tx_payload, block_payload, get_blocks_payload, status_payload,
  get_status_payload, blocks_payload, GetBlocksMessage, FullBlock, StatusMessage,
}
use rfqrelayer.Network.Node.{
  Node, NodeError, chain_refused, tx_refused, Outcome, done, panics, waits, and_then, whatever,
  Externals,
}
use rfqrelayer.Network.Server.{
  rebuilt, verify_and_add, process_block, process_blocks, add_transaction, process_transaction,
  process_message,
}

-- A call that leaves a state with `P`, whether it returns or waits, and panics only if `Q`.
abbrev pub Safe : Type 0 → {S : Type 0} → (Node S → Type 0) → Outcome S → Type 0
Safe Q P (done n e) = P n
Safe Q P panics = Q
Safe Q P (waits n) = P n

pub Safe-map :
    (Q : Type 0) {S : Type 0} {P R : Node S → Type 0} (o : Outcome S) (f : (n : Node S) → P n → R n)
    → Safe Q P o
    → Safe Q R o
Safe-map Q (done n e) f h = f n h
Safe-map Q panics f h = h
Safe-map Q (waits n) f h = f n h

-- No header that has a child has changed, and no header is gone.
pub record Grown (hs hs' : List Header) : Type 0 where
  pub longer : length hs ≤ length hs'
  pub settled : (i : ℕ) → suc i < length hs → get_elem? hs' i ≡ get_elem? hs i

pub Grown-refl : (hs : List Header) → Grown hs hs
Grown-refl hs = record { longer = omega arith; settled = λ i h. refl }

pub Grown-trans : {hs hs' hs'' : List Header} → Grown hs hs' → Grown hs' hs'' → Grown hs hs''
Grown-trans g h = record {
  longer = omega (arith, g.longer, h.longer);
  settled = λ i below. h.settled i (omega (arith, g.longer)) ∙ g.settled i below;
}

pub Grown-append : (hs ks : List Header) → Grown hs (hs ++ ks)
Grown-append hs ks = record {
  longer = omega (arith, length-append hs ks);
  settled = λ i below. get_elem?-append hs ks i (omega arith);
}

module _ {S I : Type 0} (x : Externals S I) where
  -- A node with a valid pool and a linked chain that has a validator and a first block.
  pub record IsSound (n : Node S) : Type 0 where
    pub pool : IsValid x.tx_hash n.mem_pool
    pub linked : IsLinked x.header_hash n.chain.headers
    pub nonempty : 0 < length n.chain.headers
    pub validating : n.chain.validating ≡ true

  -- What a call may leave of a node.
  pub record After (n n' : Node S) : Type 0 where
    pub sound : IsSound n'
    pub grown : Grown n.chain.headers n'.chain.headers

  pub unchanged : (n : Node S) → IsSound n → After n n
  unchanged n s = record { sound = s; grown = Grown-refl n.chain.headers }

  -- A change of neither the pool nor the chain.
  pub same :
      (n n' : Node S) → n'.mem_pool ≡ n.mem_pool → n'.chain ≡ n.chain → IsSound n → After n n'
  same n n' p q s = record {
    sound = record {
      pool = rw p s.pool;
      linked = rw q s.linked;
      nonempty = rw q s.nonempty;
      validating = rw q s.validating;
    };
    grown = rw q (Grown-refl n.chain.headers);
  }

  pub After-trans : {n n' n'' : Node S} → After n n' → After n' n'' → After n n''
  After-trans a b = record { sound = b.sound; grown = Grown-trans a.grown b.grown }

  -- Sequences of calls.
  pub and_then-Safe :
      (Q : Type 0) (n : Node S) (o : Outcome S) (f : Node S → Outcome S)
      → Safe Q (After n) o
      → ((m : Node S) → IsSound m → Safe Q (After m) (f m))
      → Safe Q (After n) (and_then o f)
  and_then-Safe Q n (done m none) f h k =
      Safe-map Q (f m) (λ _ later. After-trans h later) (k m h.sound)
  and_then-Safe Q n (done m (some e)) f h k = h
  and_then-Safe Q n panics f h k = h
  and_then-Safe Q n (waits m) f h k = h

  pub whatever-Safe :
      (Q : Type 0) (n : Node S) (o : Outcome S) (f : Node S → Outcome S)
      → Safe Q (After n) o
      → ((m : Node S) → IsSound m → Safe Q (After m) (f m))
      → Safe Q (After n) (whatever o f)
  whatever-Safe Q n (done m e) f h k =
      Safe-map Q (f m) (λ _ later. After-trans h later) (k m h.sound)
  whatever-Safe Q n panics f h k = h
  whatever-Safe Q n (waits m) f h k = h

  -- VerifyBlock of a sound node leaves a sound node, and panics on a block without a header alone.
  pub verify_and_add-Safe :
      (Q : Type 0) (r : RawBlock) (n : Node S)
      → (r.header ≡ none → Q)
      → IsSound n
      → Safe Q (After n) (verify_and_add x r n)
  unfolding verify_and_add
  verify_and_add-Safe Q r n bare s =
      elim (verify_block-Ends x.tx_hash x.valid_values x.recover x.database.writer x.keccak
        x.verify_signature x.header_hash x.encode_header x.encode_body r n.chain s.linked s.nonempty
        s.validating) [
          | inl (no_header, q) ↦ rw (q, verify_and_add) (bare no_header)
          | inr (inl (b, _, e, q)) ↦ rw (q, verify_and_add) (unchanged n s)
          | inr (inr (b, _, c, q, ext)) ↦ elim (Bool-cases (n.chain_readers == 0)) [
            | inl free ↦
                rw (q, verify_and_add)
                  (rw free (record {
                    sound = record {
                      pool = s.pool;
                      linked = ext.linked;
                      nonempty = omega (
                        arith,
                        ap length ext.headers,
                        length-append n.chain.headers (b.header ∷ []),
                      );
                      validating = ext.same_validator ∙ s.validating;
                    };
                    grown = rw (ext.headers) (Grown-append n.chain.headers (b.header ∷ []));
                  }))
            | inr held ↦ rw (q, verify_and_add) (rw held (unchanged n s))
          ]
        ]
