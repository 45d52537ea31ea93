-- ===== src/Core/Auction/Closing.antt =====
-- core/blockchain.go, processAuctionQueue: one round of its loop, which closes an auction.
use rfqrelayer.Prelude.{
  ℕ, suc, ◌<◌, ◌≡◌, refl, sym, ap, ◌∙◌, false, Option, none, some, List, [], ◌∷◌, ◌++◌, arith,
  if◌then◌else◌, Bytes, bytes_eq, has_prefix,
}
use rfqrelayer.Prelude.Assoc.{lookup, lookup-delete}
use rfqrelayer.Rfqdb.Interfaces.{Database, IsKeyValue}
use rfqrelayer.Rawdb.Table.Contract.{new_table-IsKeyValue, new_table_frame}
use rfqrelayer.Types.Data.{
  RfqData, OpenRfq, Quote, TxData, open_rfq, status_closed, close, open_rfq_tx_type, or_zero,
}
use rfqrelayer.Types.Items.{Item, open_rfq_item}
use rfqrelayer.Core.Auction.{
  Auction, open_rfq_tx, TxEvent, Chain, store, value_of, closed_table, write_closed, write_rfq_txs,
  new_auction, close_auction,
}

-- An auction with its data closed, which is what closing it writes and sends.
abbrev pub closing : (ℕ → RfqData) → Auction → OpenRfq
closing objects a = record {
  from = a.from;
  body = close (objects a.at);
  v = or_zero a.v;
  r = or_zero a.r;
  s = or_zero a.s;
}

abbrev pub event_of : (TxData → Bytes) → OpenRfq → TxEvent
event_of hash t = record {
  tx_type = open_rfq_tx_type;
  tx_hash = hash (open_rfq t);
  transaction = open_rfq t;
}

pub closed_data :
    (o : RfqData)
    → ((close o).status ≡ status_closed)
      × ((close o).rfq_tx_hash ≡ o.rfq_tx_hash)
      × ((close o).rfq_end_time ≡ o.rfq_end_time)
      × (close (close o) ≡ close o)
unfolding close
closed_data o = (refl, refl, refl, refl)

module _ {S I : Type 0} {d : Database S I} {IsOpen : S → Type 0} {view : S → Bytes → Option Bytes}
    (laws : IsKeyValue d IsOpen view) {encode : Item → Option Bytes}
    (encodes : (x : Item) → (b : Bytes) × (encode x ≡ some b))
    (decode_quotes : Bytes → Option (List Quote)) (hash : TxData → Bytes) where
  -- What closing the auction `a`, taken out of the queue before, does.
  pub record Closed (a : Auction) (c c' : Chain S) : Type 0 where
    pub open_db : IsOpen c'.db
    pub queue : c'.auction_queue ≡ c.auction_queue
    pub fresh : c'.next ≡ suc c.next
    pub objects :
        (i : ℕ) → i < c.next → c'.objects i ≡ store c.objects a.at (close (c.objects a.at)) i
    pub lookups :
        (j : Bytes)
        → lookup j c'.open_rfqs_map
          ≡ (if bytes_eq ((c.objects a.at).rfq_tx_hash) j then none else lookup j c.open_rfqs_map)
    pub events : c'.events ≡ c.events ++ event_of hash (closing c.objects a) ∷ []
    pub bytes : Bytes
    pub encoded : encode (open_rfq_item (closing c.objects a)) ≡ some bytes
    pub rows :
        (j : Bytes)
        → view c'.db (closed_table ++ j) ≡ (
            if bytes_eq ((c.objects a.at).rfq_tx_hash) j
            then some bytes
            else view c.db (closed_table ++ j))
    pub others : (j : Bytes) → has_prefix j closed_table ≡ false → view c'.db j ≡ view c.db j

  -- A transaction of a closed auction is written by `write_closed`.
  write_rfq_txs-closed :
      (t : Auction) (c : Chain S)
      → (c.objects t.at).status ≡ status_closed
      → (b : Bytes) × (encode (open_rfq_item (value_of c.objects t)) ≡ some b)
        × (write_rfq_txs d encode decode_quotes hash (open_rfq_tx t) c
            ≡ write_closed d encode decode_quotes hash t b c)
  unfolding write_rfq_txs write_closed bytes_eq
  write_rfq_txs-closed t c h =
      let (b, e) = encodes (open_rfq_item (value_of c.objects t)) in
      (b, e, rw (e, h, write_rfq_txs) refl)

  write_closed_db :
      (t : Auction) (b : Bytes) (c : Chain S)
      → IsOpen c.db
      → IsOpen (write_closed d encode decode_quotes hash t b c).0.db
        × ((j : Bytes)
            → view (write_closed d encode decode_quotes hash t b c).0.db (closed_table ++ j) ≡ (
                if bytes_eq ((c.objects t.at).rfq_tx_hash) j
                then some b
                else view c.db (closed_table ++ j)))
        × ((j : Bytes)
            → has_prefix j closed_table ≡ false
            → view (write_closed d encode decode_quotes hash t b c).0.db j ≡ view c.db j)
  unfolding write_closed
  write_closed_db t b c o =
      let key = (c.objects t.at).rfq_tx_hash in
      (
        (new_table-IsKeyValue laws closed_table).put_open c.db key b o,
        λ j. (new_table-IsKeyValue laws closed_table).put_view c.db key b j o,
        λ j h. (new_table_frame laws closed_table c.db key b j o h).0,
      )

  pub close_auction-Closed :
      (a : Auction) (c : Chain S)
      → IsOpen c.db
      → a.at < c.next
      → Closed a c (close_auction d encode decode_quotes hash a c)
  unfolding close_auction write_closed close
  close_auction-Closed a c o fits =
      let c1 : Chain S = record c { objects = store c.objects a.at (close (c.objects a.at)) } in
      let (t, c2) = new_auction a c1 in
      let new : c2.objects t.at ≡ close (c.objects a.at) = ground (arith, a.at) in
      let (b, row, e) = write_rfq_txs-closed t c2 (ap RfqData.status new) in
      let (opened, closed, others) = write_closed_db t b c2 o in
      rw (e, close_auction)
        (record {
          open_db = opened;
          queue = refl;
          fresh = refl;
          objects = λ i p. ground arith;
          events =
              ap
                (λ o.
                  c.events
                  ++ event_of hash (record {
                    from = a.from;
                    body = o;
                    v = or_zero a.v;
                    r = or_zero a.r;
                    s = or_zero a.s;
                  })
                    ∷ [])
                new;
          bytes = b;
          encoded =
              ap
                (λ o. encode (
                  open_rfq_item (record {
                    from = a.from;
                    body = o;
                    v = or_zero a.v;
                    r = or_zero a.r;
                    s = or_zero a.s;
                  })))
                (sym new)
              ∙ row;
          rows = λ j.
              closed j
              ∙ ap
                  (λ o.
                    if bytes_eq (RfqData.rfq_tx_hash o) j
                    then some b
                    else view c.db (closed_table ++ j))
                  new;
          others = others;
          lookups = λ j. rw new (lookup-delete ((c.objects a.at).rfq_tx_hash) j c.open_rfqs_map);
        })
