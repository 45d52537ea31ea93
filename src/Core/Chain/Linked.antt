-- ===== src/Core/Chain/Linked.antt =====
-- core/blockchain.go and core/block_validator.go, VerifyBlock, and the links from each header to
-- the one before it.
use rfqrelayer.Prelude.{
  panic, ℕ, zero, suc, ◌-◌, ◌<◌, ◌≡◌, refl, sym, ap, ◌∙◌, ◌⊎◌, inl, inr, Bool, true, false, not,
  Option, none, some, List, [], ◌∷◌, ◌++◌, arith, ◌==◌, if◌then◌else◌, length, get_elem?, Result,
  ok, err, Bool-cases, Option-cases, Bytes, bytes_eq, bytes_eq_iff,
}
use rfqrelayer.Prelude.Int.{pos}
use rfqrelayer.Rfqdb.Interfaces.{Writer}
use rfqrelayer.Types.Data.{Transaction}
use rfqrelayer.Types.Block.{Header, Body, Block, RawBlock, raw, no_signature, verify}
use rfqrelayer.Core.Heap.Order.{get_elem?-lt}
use rfqrelayer.Core.Chain.{
  Ledger, ChainError, block_known, too_high, parent_mismatch, invalid_block, invalid_tx, has_block,
  get_block_header, previous, verify_txs, validate_block, add_block_without_validation,
  verify_block, check_and_add,
}

-- Heights count from 0, and each header names the hash of the one before it.
pub record IsLinked (header_hash : Header → Bytes) (hs : List Header) : Type 0 where
  pub heights : (i : ℕ) (h : Header) → get_elem? hs i ≡ some h → h.height ≡ i
  pub parents :
      (i : ℕ) (h g : Header)
      → get_elem? hs i ≡ some h
      → get_elem? hs (suc i) ≡ some g
      → g.parent_hash ≡ header_hash h

get_elem?-snoc :
    (l : List Header) (g : Header) (i : ℕ) (h : Header)
    → get_elem? (l ++ g ∷ []) i ≡ some h
    → ((i < length l) × (get_elem? l i ≡ some h)) ⊎ ((i ≡ length l) × (h ≡ g))
get_elem?-snoc [] g zero h e = inr (refl, ground arith)
get_elem?-snoc [] g (suc i) h e = absurd (ground arith)
get_elem?-snoc (x ∷ l) g zero h e = inl (omega arith, e)
get_elem?-snoc (x ∷ l) g (suc i) h e = elim (get_elem?-snoc l g i h e) [
  | inl (p, q) ↦ inl (omega arith, q)
  | inr (p, q) ↦ inr (ap suc p, q)
]

-- A child of the last header keeps the chain linked.
snoc-IsLinked :
    (header_hash : Header → Bytes) (hs : List Header) (prev g : Header)
    → IsLinked header_hash hs
    → get_elem? hs (length hs - 1) ≡ some prev
    → g.height ≡ length hs
    → g.parent_hash ≡ header_hash prev
    → IsLinked header_hash (hs ++ g ∷ [])
snoc-IsLinked header_hash hs prev g linked last at parent = record {
  heights = λ i h e. elim (get_elem?-snoc hs g i h e) [
    | inl (p, q) ↦ linked.heights i h q
    | inr (p, q) ↦ ap Header.height q ∙ at ∙ sym p
  ];
  parents = λ i h k e f. elim (get_elem?-snoc hs g i h e) [
    | inl (p, q) ↦ elim (get_elem?-snoc hs g (suc i) k f) [
      | inl (p', q') ↦ linked.parents i h k q q'
      | inr (p', q') ↦
          let same : i ≡ length hs - 1 = omega arith in
          let is_prev : h ≡ prev = ground (arith, ap (get_elem? hs) same) in
          ap Header.parent_hash q' ∙ parent ∙ ap header_hash (sym is_prev)
    ]
    | inr (p, q) ↦ absurd (elim (get_elem?-snoc hs g (suc i) k f) [
      | inl (p', q') ↦ omega arith
      | inr (p', q') ↦ omega arith
    ])
  ];
}

previous_lem : (n : ℕ) → 0 < n → previous n ≡ pos (n - 1)
previous_lem zero p = absurd (omega arith)
previous_lem (suc n) p = ap pos (omega arith)

pub if_on : {A : Type 0} (t : Bool) (m n : A) → t ≡ true → (if t then m else n) ≡ m
if_on true m n e = refl
if_on false m n e = absurd cc

abbrev Decides : {E : Type 0} → Result E (Unit {0}) → Type 0
Decides {E} m = ((e : E) × (m ≡ err e)) ⊎ (m ≡ ok tt)

if-Decides :
    {E : Type 0} (t : Bool) (e : E) (m : Result E (Unit {0}))
    → Decides m
    → Decides (if not t then err e else m)
if-Decides true e m h = h
if-Decides false e m h = inl (e, refl)

module _ (tx_hash : Transaction → Bytes) (valid_values : ℕ → ℕ → ℕ → Bool)
    (recover : Bytes → ℕ → ℕ → ℕ → Option Bytes) {S : Type 0} (w : Writer S)
    (keccak : Bytes → Bytes) (verify_signature : Bytes → Bytes → Bytes → Bool)
    (header_hash : Header → Bytes) (encode_header : Header → Bytes)
    (encode_body : Body → Bytes) where
  -- Verify of a block comes to a decision.
  verify-Decides : (b : Block) → Decides (verify keccak tx_hash verify_signature b)
  unfolding verify
  verify-Decides b = elim (Option-cases b.header.block_signature) [
    | inl e ↦ rw (e, verify) (inl (no_signature, refl))
    | inr (sig, e) ↦
        rw (e, verify)
          (if-Decides (length sig == 65) _ _ (
            if-Decides (verify_signature b.validator _ _) _ _
              (if-Decides (bytes_eq _ b.header.tx_hash) _ _ (inr refl))))
  ]

  -- What the validator lets through.
  record Validated (b : Block) (c : Ledger S) : Type 0 where
    prev : Header
    next_height : b.header.height ≡ length c.headers
    last : get_elem? c.headers (length c.headers - 1) ≡ some prev
    parent : b.header.parent_hash ≡ header_hash prev
    checked : verify keccak tx_hash verify_signature b ≡ ok tt

  pub get_block_header-last :
      (c : Ledger S) (prev : Header)
      → 0 < length c.headers
      → get_elem? c.headers (length c.headers - 1) ≡ some prev
      → get_block_header (previous (length c.headers)) c ≡ ok prev
  unfolding get_block_header
  get_block_header-last c prev p e = rw (previous_lem (length c.headers) p) (ground (arith, e))

  validate_block-decides :
      (b : Block) (c : Ledger S)
      → 0 < length c.headers
      → ((e : ChainError) × (validate_block tx_hash valid_values recover w keccak verify_signature
              header_hash encode_header encode_body b c
            ≡ err e))
        ⊎ ((validate_block tx_hash valid_values recover w keccak verify_signature header_hash
                encode_header encode_body b c
              ≡ ok tt)
            × Validated b c)
  unfolding validate_block
  validate_block-decides b c p = elim (Bool-cases (has_block b.header.height c)) [
    | inl known ↦ inl (block_known, rw known refl)
    | inr new ↦ elim (Bool-cases (b.header.height == length c.headers)) [
      | inr far ↦ inl (too_high, rw new (rw far refl))
      | inl next ↦
          let at : b.header.height ≡ length c.headers = ground arith in
          let (prev, last) = get_elem?-lt c.headers (length c.headers - 1) (omega arith) in
          let got : get_block_header (previous b.header.height) c ≡ ok prev =
            ap (λ n. get_block_header (previous n) c) at ∙ get_block_header-last c prev p last in
          elim (Bool-cases (bytes_eq (header_hash prev) b.header.parent_hash)) [
            | inr other ↦ inl (parent_mismatch, rw new (rw (next, got) (rw other refl)))
            | inl child ↦ elim (verify-Decides b) [
              | inl (e, q) ↦ inl (invalid_block e, rw new (rw (next, got) (rw child (rw q refl))))
              | inr q ↦ inr (
                rw new (rw (next, got) (rw child (rw q refl))),
                record {
                  prev = prev;
                  next_height = at;
                  last = last;
                  parent = sym ((bytes_eq_iff (header_hash prev) b.header.parent_hash).0 child);
                  checked = q;
                },
              )
            ]
          ]
    ]
  ]

  -- What VerifyBlock of `b` leaves when it takes it.
  pub record Extended (b : Block) (c c' : Ledger S) : Type 0 where
    pub headers : c'.headers ≡ c.headers ++ b.header ∷ []
    pub linked : IsLinked header_hash c'.headers
    pub next_height : b.header.height ≡ length c.headers
    pub checked : verify keccak tx_hash verify_signature b ≡ ok tt
    pub signed : verify_txs tx_hash valid_values recover b.transactions ≡ none
    pub current : c'.current_block ≡ some b.header
    pub same_validator : c'.validating ≡ c.validating

  added-Extended :
      (b : Block) (c : Ledger S)
      → IsLinked header_hash c.headers
      → Validated b c
      → verify_txs tx_hash valid_values recover b.transactions ≡ none
      → Extended b c (
          add_block_without_validation tx_hash valid_values recover w keccak verify_signature
            header_hash encode_header encode_body b c)
  unfolding add_block_without_validation
  added-Extended b c linked v txs = record {
    headers = refl;
    linked =
        snoc-IsLinked header_hash c.headers v.prev b.header linked v.last v.next_height v.parent;
    next_height = v.next_height;
    checked = v.checked;
    signed = txs;
    current = refl;
    same_validator = refl;
  }

  -- VerifyBlock of a block with a header, on a chain with a validator, whose headers are linked and at
  -- least one. Either it is an error, or the block's header is put at the end: the headers are linked again, the
  -- height is the next one, the block and all its transactions pass their checks, and the chain keeps its validator.
  pub verify_block-Extended :
      (b : Block) (c : Ledger S)
      → IsLinked header_hash c.headers
      → 0 < length c.headers
      → c.validating ≡ true
      → ((e : ChainError) × (verify_block tx_hash valid_values recover w keccak verify_signature
              header_hash encode_header encode_body
              (some (raw b))
              c
            ≡ err e))
        ⊎ ((c' : Ledger S) × (verify_block tx_hash valid_values recover w keccak verify_signature
                header_hash encode_header encode_body
                (some (raw b))
                c
              ≡ ok c')
            × Extended b c c')
  unfolding verify_block check_and_add
  verify_block-Extended b c linked p on =
      let first =
        if_on c.validating
          (validate_block tx_hash valid_values recover w keccak verify_signature header_hash
            encode_header encode_body b c)
          (ok tt) on in
      elim (validate_block-decides b c p) [
        | inl (e, q) ↦ inl (e, rw (first, q) refl)
        | inr (q, v) ↦
            elim (Option-cases (verify_txs tx_hash valid_values recover b.transactions)) [
              | inr (e, t) ↦ inl (invalid_tx e, rw (first, q) (rw t refl))
              | inl t ↦ inr (_, rw (first, q) (rw t refl), added-Extended b c linked v t)
            ]
      ]

  -- What VerifyBlock comes to.
  abbrev pub Ends : RawBlock → Ledger S → Result ChainError (Ledger S) → Type 0
  Ends r c verified =
      ((r.header ≡ none) × (verified ≡ panic))
      ⊎ ((b : Block) × (r ≡ raw b) × (e : ChainError) × (verified ≡ err e))
      ⊎ ((b : Block) × (r ≡ raw b) × (c' : Ledger S) × (verified ≡ ok c') × Extended b c c')

  parts_end :
      (o : Option Header) (txs : List Transaction) (v : Bytes) (c : Ledger S)
      → IsLinked header_hash c.headers
      → 0 < length c.headers
      → c.validating ≡ true
      → let r : RawBlock = record { header = o; transactions = txs; validator = v } in
        Ends r c (
          verify_block tx_hash valid_values recover w keccak verify_signature header_hash
            encode_header encode_body
            (some r)
            c)
  unfolding verify_block
  parts_end none txs v c linked p on = inl (refl, refl)
  parts_end (some h) txs v c linked p on =
      let b : Block = record { header = h; transactions = txs; validator = v } in
      elim (verify_block-Extended b c linked p on) [
        | inl (e, q) ↦ inr (inl (b, refl, e, q))
        | inr (c', q, extended) ↦ inr (inr (b, refl, c', q, extended))
      ]

  pub verify_block-Ends :
      (r : RawBlock) (c : Ledger S)
      → IsLinked header_hash c.headers
      → 0 < length c.headers
      → c.validating ≡ true
      → Ends r c (
          verify_block tx_hash valid_values recover w keccak verify_signature header_hash
            encode_header encode_body
            (some r)
            c)
  verify_block-Ends r c linked p on = parts_end r.header r.transactions r.validator c linked p on
