-- ===== src/Network/Server/Sound/Making.antt =====
-- network/server.go: CreateNewBlock of a validator's node.
use rfqrelayer.Prelude.{
  ℕ, zero, suc, ◌-◌, ◌<◌, ◌≡◌, refl, sym, ap, ◌∙◌, ◌⊎◌, inl, inr, some, List, [], ◌∷◌, arith, ◌==◌,
  length, get_elem?, set, ok, Bool-cases, Option-cases, Bytes,
}
use rfqrelayer.Prelude.Int.{ℤ, pos, negsuc}
use rfqrelayer.Types.Data.{Transaction}
use rfqrelayer.Types.Block.{Header, raw}
use rfqrelayer.Core.Heap.Order.{get_elem?-lt, length-set, get_elem?-set}
use rfqrelayer.Core.Chain.{Ledger, height, get_block_header}
use rfqrelayer.Core.Chain.Linked.{IsLinked}
use rfqrelayer.Network.TxPool.{pending_txs}
use rfqrelayer.Network.TxPool.Fifo.{clear_pending_lem}
use rfqrelayer.Network.Node.{Node, and_then, Externals}
use rfqrelayer.Network.Server.{verify_and_add, create_new_block, new_chain_block}
use rfqrelayer.Network.Server.Sound.{
  Safe, Safe-map, Grown, Grown-refl, IsSound, After, After-trans, and_then-Safe,
  verify_and_add-Safe,
}
use rfqrelayer.Types.Block.Making.{new_block_from_prev_header, new_block, sign_block}
use rfqrelayer.Core.Chain.{previous}
use rfqrelayer.Core.Chain.Linked.{get_block_header-last}

in_range : {A : Type 0} (l : List A) (i : ℕ) (a : A) → get_elem? l i ≡ some a → i < length l
in_range [] i a e = absurd (ground arith)
in_range (x ∷ l) zero a e = omega arith
in_range (x ∷ l) (suc i) a e = omega (arith, in_range l i a e)

module _ (header_hash : Header → Bytes) (hs : List Header) (prev left : Header)
    (last : get_elem? hs (length hs - 1) ≡ some prev) (same_height : left.height ≡ prev.height)
    (same_parent : left.parent_hash ≡ prev.parent_hash) where
  -- What stands at an index once the last header is replaced.
  replaced :
      (i : ℕ) (h : Header)
      → get_elem? (set hs (length hs - 1) left) i ≡ some h
      → ((i ≡ length hs - 1) × (h ≡ left)) ⊎ ((suc i < length hs) × (get_elem? hs i ≡ some h))
  replaced i h e =
      let p = in_range hs (length hs - 1) prev last in
      let at = get_elem?-set hs (length hs - 1) i left p in
      let q = in_range (set hs (length hs - 1) left) i h e in
      elim (Bool-cases (length hs - 1 == i)) [
        | inl here ↦ inl (ground arith, ground (arith, at))
        | inr other ↦ inr (ground (arith, length-set hs (length hs - 1) left), ground (arith, at))
      ]

  set_last-IsLinked : IsLinked header_hash hs → IsLinked header_hash (set hs (length hs - 1) left)
  set_last-IsLinked linked = record {
    heights = λ i h e. elim (replaced i h e) [
      | inl (at, is_left) ↦
          ap Header.height is_left ∙ same_height ∙ linked.heights _ prev last ∙ sym at
      | inr (_, old) ↦ linked.heights i h old
    ];
    parents = λ i h g e f. elim (replaced i h e) [
      | inl (at, _) ↦ absurd (elim (replaced (suc i) g f) [
        | inl (at', _) ↦ omega arith
        | inr (below, _) ↦ omega arith
      ])
      | inr (_, old) ↦ elim (replaced (suc i) g f) [
        | inl (at, is_left) ↦
            ap Header.parent_hash is_left
            ∙ same_parent
            ∙ linked.parents i h prev old (ap (get_elem? hs) at ∙ last)
        | inr (_, old') ↦ linked.parents i h g old old'
      ]
    ];
  }

  set_last-Grown : Grown hs (set hs (length hs - 1) left)
  set_last-Grown = record {
    longer = omega (arith, length-set hs (length hs - 1) left);
    settled = λ i below.
        let p = in_range hs (length hs - 1) prev last in
        ground (arith, get_elem?-set hs (length hs - 1) i left p);
  }

module _ {S I : Type 0} (x : Externals S I) where
  -- NewBlockFromPrevHeader leaves the height and the parent of the previous header.
  left-same :
      (now : ℕ) (prev : Header) (txs : List Transaction)
      → let left =
          (new_block_from_prev_header x.keccak x.tx_hash x.verify_signature x.header_hash now prev
            txs).1 in
        (left.height ≡ prev.height) × (left.parent_hash ≡ prev.parent_hash)
  unfolding new_block_from_prev_header new_block
  left-same now prev txs = elim (Bool-cases (length txs == 0)) [
    | inl none_given ↦ rw none_given (refl, refl)
    | inr some_given ↦ rw some_given (refl, refl)
  ]

  height-previous : (k : ℕ) → (elim k as (λ _. ℤ) [ zero ↦ negsuc 0 | suc n ↦ pos n ]) ≡ previous k
  height-previous zero = refl
  height-previous (suc k) = refl

  -- GetBlockHeader of the height of a chain that is not empty.
  pub last_header :
      (c : Ledger S) (prev : Header)
      → 0 < length c.headers
      → get_elem? c.headers (length c.headers - 1) ≡ some prev
      → get_block_header (height c) c ≡ ok prev
  unfolding height
  last_header c prev p last =
      ap (λ z. get_block_header z c) (height-previous (length c.headers))
      ∙ get_block_header-last x.tx_hash x.valid_values x.recover x.database.writer x.keccak
          x.verify_signature x.header_hash x.encode_header x.encode_body c prev p last

  new_chain_block-Safe :
      (now : ℕ) (prev : Header) (n : Node S)
      → get_elem? n.chain.headers (length n.chain.headers - 1) ≡ some prev
      → IsSound x n
      → Safe ⊥ (After x n) (new_chain_block x now prev n)
  unfolding new_chain_block
  new_chain_block-Safe now prev n last s =
      let made =
        new_block_from_prev_header x.keccak x.tx_hash x.verify_signature x.header_hash now prev
          (pending_txs n.mem_pool) in
      let (h, p) = left-same now prev (pending_txs n.mem_pool) in
      let kept : Node S = record n {
        chain = record (n.chain) {
          headers = set n.chain.headers (length n.chain.headers - 1) made.1;
        };
      } in
      let after : After x n kept = record {
        sound = record {
          pool = s.pool;
          linked = set_last-IsLinked x.header_hash n.chain.headers prev made.1 last h p s.linked;
          nonempty =
              omega
                (arith, s.nonempty, length-set n.chain.headers (length n.chain.headers - 1) made.1);
          validating = s.validating;
        };
        grown = set_last-Grown x.header_hash n.chain.headers prev made.1 last h p;
      } in
      elim (Option-cases
        (sign_block x.keccak x.tx_hash x.verify_signature x.sign x.public_key made.0)) [
          | inl unsigned ↦ rw (unsigned, new_chain_block) after
          | inr (b, signed) ↦
              rw (signed, new_chain_block)
                (Safe-map ⊥ (and_then (verify_and_add x (raw b) kept) _)
                  (λ _ later. After-trans x after later)
                  (and_then-Safe x ⊥ kept (verify_and_add x (raw b) kept) _
                    (verify_and_add-Safe x ⊥ (raw b) kept (λ e. absurd (ground (arith, e)))
                      after.sound)
                    (λ m v. record {
                      sound = record {
                        pool = (clear_pending_lem x.tx_hash ⦃e = x.same_tx⦄ m.mem_pool v.pool).0;
                        linked = v.linked;
                        nonempty = v.nonempty;
                        validating = v.validating;
                      };
                      grown = Grown-refl m.chain.headers;
                    })))
        ]

  -- CreateNewBlock of a sound node does not panic. Whether it returns or waits, the node is sound, and
  -- its chain has kept every header that had a child.
  pub create_new_block-Safe :
      (now : ℕ) (n : Node S) → IsSound x n → Safe ⊥ (After x n) (create_new_block x now n)
  unfolding create_new_block
  create_new_block-Safe now n s =
      let (prev, last) =
        get_elem?-lt n.chain.headers (length n.chain.headers - 1) (omega (arith, s.nonempty)) in
      rw (last_header n.chain prev s.nonempty last, create_new_block)
        (new_chain_block-Safe now prev n last s)
