-- ===== src/Network/Events/Opening.antt =====
-- network/server.go: a request that opens an auction.
use rfqrelayer.Prelude.{
  ℕ, suc, ◌≤◌, ◌≡◌, refl, sym, ap, ◌∙◌, true, Option, some, List, [], ◌∷◌, ◌++◌, arith, ◌==◌,
  length, ok, Bytes, bytes_eq, bytes_eq_refl,
}
use mathlib.Core.List.{Perm}
use rfqrelayer.Prelude.Int.{ℤ, int64, add_int64}
use rfqrelayer.Rfqdb.Interfaces.{Database, IsKeyValue}
use rfqrelayer.Types.Data.{
  SignableData, RfqRequest, Quote, RfqData, OpenRfq, TxData, request, open_rfq, status_open,
  rfq_request_tx_type, open_rfq_tx_type,
}
use rfqrelayer.Types.Items.{Item}
use rfqrelayer.Crypto.Signatures.{Signature, byte_at, read_signature, sign}
use rfqrelayer.Crypto.Signatures.RoundTrip.{sign_lem}
use rfqrelayer.Core.Heap.{parent}
use rfqrelayer.Core.Heap.Every.{every-imp, key_at-agree}
use rfqrelayer.Core.Auction.{
  Auction, Chain, store, end_time, value_of, new_auction, get_open_rfq_by_hash,
}
use rfqrelayer.Core.Chain.Linked.{if_on}
use rfqrelayer.Core.Auction.Rounds.{IsValid, allocated}
use rfqrelayer.Core.Auction.Opening.{write_rfq_txs-Opened}
use rfqrelayer.Common.Types.{hex_to_address}
use rfqrelayer.Network.Events.{
  Relay, contract_text, create_open_rfq_data, timed_data, calls, new_data, signed_auction,
  open_signed, handle_rfq_request, handle_tx_event,
}

-- The data of an auction that starts at `now`.
abbrev pub opened_data : ℤ → SignableData → Bytes → RfqData
opened_data now d tx_hash = record {
  rfq_tx_hash = tx_hash;
  rfq_request = d;
  rfq_start_time = now;
  rfq_end_time = add_int64 now (int64 d.rfq_duration_ms);
  quotes = [];
  settlement_contract = hex_to_address contract_text;
  matching_contract = hex_to_address contract_text;
  status = status_open;
}

timed_data_lem :
    (now : ℤ) (d : SignableData) (tx_hash : Bytes)
    → timed_data now d tx_hash ≡ opened_data now d tx_hash
unfolding timed_data create_open_rfq_data
timed_data_lem now d tx_hash = refl

-- The copy that NewTx makes of new data.
copied :
    {S : Type 0} (o : RfqData) (c : Chain S)
    → let objects = store c.objects c.next o in
      store objects (suc c.next) (objects c.next) (suc c.next) ≡ o
copied o c =
    let here : (c.next == c.next) ≡ true = ground arith in
    let there : (suc c.next == suc c.next) ≡ true = ground arith in rw there (rw here refl)

module _ {S I : Type 0} {d : Database S I} {IsOpen : S → Type 0} {view : S → Bytes → Option Bytes}
    (laws : IsKeyValue d IsOpen view) {encode : Item → Option Bytes}
    (encodes : (x : Item) → (b : Bytes) × (encode x ≡ some b))
    (decode_quotes : Bytes → Option (List Quote)) (hash : TxData → Bytes) where
  -- A new object changes nothing of a valid chain.
  allocate-IsValid :
      (o : RfqData) (c : Chain S)
      → IsValid laws encodes decode_quotes hash c
      → IsValid laws encodes decode_quotes hash
          (record c { objects = store c.objects c.next o; next = suc c.next })
  allocate-IsValid o c valid =
      let agree =
        key_at-agree (allocated c.next) (end_time (store c.objects c.next o)) (end_time c.objects)
          c.auction_queue (λ a p. ground arith) valid.fits in
      record {
        open_db = valid.open_db;
        heap = λ i p r. rw (agree i, agree (parent i)) (valid.heap i p r);
        fits =
            every-imp (allocated c.next) (allocated (suc c.next)) c.auction_queue
              (λ a p. ground arith) valid.fits;
      }

  -- What a request leaves: the auction `a`, open under the hash of the request.
  pub record Requested (now : ℤ) (body : SignableData) (tx_hash address : Bytes) (sig : Signature)
      (callbacks : ℕ) (before after : Relay S) : Type 0 where
    pub auction : Auction
    pub valid : IsValid laws encodes decode_quotes hash after.chain
    pub found : get_open_rfq_by_hash tx_hash after.chain ≡ ok auction
    pub value : value_of after.chain.objects auction ≡ record {
      from = address;
      body = opened_data now body tx_hash;
      v = some sig.v;
      r = some sig.r;
      s = some sig.s;
    }
    pub queued : Perm after.chain.auction_queue (auction ∷ before.chain.auction_queue)
    pub announced :
        after.announced
        ≡ before.announced
          ++ calls callbacks (open_rfq (value_of after.chain.objects auction)) open_rfq_tx_type
    pub pooled :
        after.to_pool ≡ before.to_pool ++ open_rfq (value_of after.chain.objects auction) ∷ []

  module _ (crypto_sign : Bytes → Option Bytes) (address : Bytes) (callbacks : ℕ) where
    open_signed-Requested :
        (now : ℤ) (body : SignableData) (tx_hash : Bytes) (sig : Signature) (relay : Relay S)
        → IsValid laws encodes decode_quotes hash relay.chain
        → let (fresh, c) = new_data (timed_data now body tx_hash) address relay.chain in
          let (a, c') = new_auction fresh c in
          Requested now body tx_hash address sig callbacks relay (
            open_signed d encode decode_quotes hash crypto_sign address callbacks
              (signed_auction sig a)
              c'
              relay)
    unfolding open_signed
    open_signed-Requested now body tx_hash sig relay valid =
        let o = timed_data now body tx_hash in
        let (fresh, c) = new_data o address relay.chain in
        let (a, c') = new_auction fresh c in
        let a' = signed_auction sig a in
        let valid' =
          allocate-IsValid (c.objects fresh.at) c (allocate-IsValid o relay.chain valid) in
        let at : c'.objects a'.at ≡ o = copied o relay.chain in
        let opened_at : c'.objects a'.at ≡ opened_data now body tx_hash =
          at ∙ timed_data_lem now body tx_hash in
        let (_, opened) =
          write_rfq_txs-Opened laws encodes decode_quotes hash a' c' valid' (omega arith)
            (ap RfqData.status at ∙ ap RfqData.status (timed_data_lem now body tx_hash)) in
        let value : value_of c'.objects a' ≡ record {
          from = address;
          body = opened_data now body tx_hash;
          v = some sig.v;
          r = some sig.r;
          s = some sig.s;
        } =
          ap
            (λ b. record {
              from = address;
              body = b;
              v = some sig.v;
              r = some sig.r;
              s = some sig.s;
            })
            opened_at in
        let same_value = ap (λ f. value_of f a') opened.same_objects in
        record {
          auction = a';
          valid = opened.valid;
          found =
              opened.lookups tx_hash
              ∙ if_on _ _ _ (
                  ap (λ h. bytes_eq h tx_hash)
                    (ap RfqData.rfq_tx_hash at
                      ∙ ap RfqData.rfq_tx_hash (timed_data_lem now body tx_hash))
                  ∙ bytes_eq_refl tx_hash);
          value = same_value ∙ value;
          queued = opened.queued;
          announced =
              ap (λ t. relay.announced ++ calls callbacks (open_rfq t) open_rfq_tx_type)
                (sym same_value);
          pooled = ap (λ t. relay.to_pool ++ open_rfq t ∷ []) (sym same_value);
        }

    -- What the node signs.
    abbrev pub unsigned_auction : ℤ → SignableData → Bytes → OpenRfq
    unsigned_auction now body tx_hash = record {
      from = address;
      body = opened_data now body tx_hash;
      v = some 0;
      r = some 0;
      s = some 0;
    }

    -- The event of a request, at the time `now`, opens its auction, if the key signs: on a valid chain
    -- the auction is found under the hash of the request, with the request's data, the start `now`, and
    -- an end that is the duration later, as `int64` adds. It joins the queue, the callbacks are told of
    -- it, and its transaction is sent to the pool. The chain stays valid.
    pub handle_tx_event-Requested :
        (now : ℤ) (t : RfqRequest) (tx_hash b : Bytes) (relay : Relay S)
        → IsValid laws encodes decode_quotes hash relay.chain
        → crypto_sign (hash (open_rfq (unsigned_auction now t.body tx_hash))) ≡ some b
        → length b ≡ 65
        → byte_at b 64 ≤ 1
        → (after : Relay S) × (handle_tx_event d encode decode_quotes hash crypto_sign address
              callbacks now
              (record { tx_type = rfq_request_tx_type; tx_hash = tx_hash; transaction = request t })
              relay
            ≡ some after)
          × Requested now t.body tx_hash address (read_signature b) callbacks relay after
    unfolding handle_tx_event handle_rfq_request
    handle_tx_event-Requested now t tx_hash b relay valid signs l id =
        let o = timed_data now t.body tx_hash in
        let (fresh, c) = new_data o address relay.chain in
        let (a, c') = new_auction fresh c in
        let value : value_of c'.objects a ≡ unsigned_auction now t.body tx_hash =
          ap (λ x. record { from = address; body = x; v = some 0; r = some 0; s = some 0 })
            (copied o relay.chain ∙ timed_data_lem now t.body tx_hash) in
        let signed : sign crypto_sign (hash (open_rfq (value_of c'.objects a)))
            ≡ ok (read_signature b) =
          ap (λ x. sign crypto_sign (hash (open_rfq x))) value
          ∙ sign_lem crypto_sign (hash (open_rfq (unsigned_auction now t.body tx_hash))) b signs l
              id in
        (
          open_signed d encode decode_quotes hash crypto_sign address callbacks
              (signed_auction (read_signature b) a) c' relay,
          ap some (rw (signed, handle_rfq_request) refl),
          open_signed-Requested now t.body tx_hash (read_signature b) relay valid,
        )
