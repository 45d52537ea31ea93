-- ===== src/Core/Auction/Opening.antt =====
-- core/blockchain.go, WriteRFQTxs of an auction that opens, and UpdateActiveRFQ of an auction that is
-- open, which keeps the chain valid.
use rfqrelayer.Prelude.{
  ◌<◌, ◌≡◌, refl, ap, ◌∙◌, Option, none, some, List, [], ◌∷◌, ◌++◌, arith, if◌then◌else◌, ok, Bytes,
  bytes_eq,
}
use mathlib.Core.List.{Perm}
use rfqrelayer.Prelude.Assoc.{lookup, lookup-insert}
use rfqrelayer.Rfqdb.Interfaces.{Database, IsKeyValue}
use rfqrelayer.Rawdb.Table.Contract.{new_table-IsKeyValue}
use rfqrelayer.Types.Data.{Quote, TxData, status_open}
use rfqrelayer.Types.Items.{Item, open_rfq_item}
use rfqrelayer.Core.Heap.{parent}
use rfqrelayer.Core.Heap.Every.{every-perm, key_at-agree}
use rfqrelayer.Core.Heap.Contract.{push_lem}
use rfqrelayer.Core.Auction.{
  Auction, open_rfq_tx, Chain, written, store, end_time, value_of, open_table, write_open,
  write_rfq_txs, get_open_rfq_by_hash, update_active_rfq,
}
use rfqrelayer.Core.Auction.Rounds.{IsValid, allocated}

module _ {S : Type 0} where
  -- A chain whose auction `a` has got a quote.
  abbrev pub quoted : Auction → Quote → Chain S → Chain S
  quoted a q c =
      let o = c.objects a.at in
      record c { objects = store c.objects a.at (record o { quotes = o.quotes ++ q ∷ [] }) }

  pub update_active_rfq-found :
      (h : Bytes) (q : Quote) (c : Chain S) (a : Auction)
      → lookup h c.open_rfqs_map ≡ some a
      → update_active_rfq h q c ≡ (quoted a q c, none)
  unfolding update_active_rfq
  update_active_rfq-found h q c a e = rw (e, update_active_rfq) refl

module _ {S I : Type 0} {d : Database S I} {IsOpen : S → Type 0} {view : S → Bytes → Option Bytes}
    (laws : IsKeyValue d IsOpen view) {encode : Item → Option Bytes}
    (encodes : (x : Item) → (b : Bytes) × (encode x ≡ some b))
    (decode_quotes : Bytes → Option (List Quote)) (hash : TxData → Bytes) where
  -- What writing the open auction `a` leaves.
  pub record Opened (a : Auction) (c c' : Chain S) : Type 0 where
    pub valid : IsValid laws encodes decode_quotes hash c'
    pub same_objects : c'.objects ≡ c.objects
    pub queued : Perm c'.auction_queue (a ∷ c.auction_queue)
    pub lookups :
        (j : Bytes)
        → get_open_rfq_by_hash j c'
          ≡ (if bytes_eq ((c.objects a.at).rfq_tx_hash) j then ok a else get_open_rfq_by_hash j c)
    pub row : Bytes
    pub encoded : encode (open_rfq_item (value_of c.objects a)) ≡ some row
    pub rows :
        (j : Bytes)
        → view c'.db (open_table ++ j) ≡ (
            if bytes_eq ((c.objects a.at).rfq_tx_hash) j
            then some row
            else view c.db (open_table ++ j))

  write_rfq_txs-open :
      (a : Auction) (b : Bytes) (c : Chain S)
      → (c.objects a.at).status ≡ status_open
      → encode (open_rfq_item (value_of c.objects a)) ≡ some b
      → write_rfq_txs d encode decode_quotes hash (open_rfq_tx a) c
        ≡ write_open d encode decode_quotes hash a b c
  unfolding write_rfq_txs bytes_eq
  write_rfq_txs-open a b c h e = rw (e, write_rfq_txs) (rw h refl)

  -- On a valid chain, WriteRFQTxs of an auction whose status is open and whose pointer leads to an
  -- object returns no error. The auction joins the queue,
  -- which stays a heap, no object changes, the map finds it under the hash of its request, and all else as before, and
  -- the table of open auctions has it as its row there. The database is an open key-value database and
  -- the encoder does not fail.
  pub write_rfq_txs-Opened :
      (a : Auction) (c : Chain S)
      → IsValid laws encodes decode_quotes hash c
      → a.at < c.next
      → (c.objects a.at).status ≡ status_open
      → ((write_rfq_txs d encode decode_quotes hash (open_rfq_tx a) c).1 ≡ none)
        × Opened a c (write_rfq_txs d encode decode_quotes hash (open_rfq_tx a) c).0
  unfolding write_open get_open_rfq_by_hash
  write_rfq_txs-Opened a c valid fits h =
      let (b, e) = encodes (open_rfq_item (value_of c.objects a)) in
      let table = new_table-IsKeyValue laws open_table in
      let key = (c.objects a.at).rfq_tx_hash in
      let (heap, same) = push_lem (end_time c.objects) c.auction_queue a valid.heap in
      rw (write_rfq_txs-open a b c h e) (
        ap written (table.put_none c.db key b valid.open_db),
        record {
          valid = record {
            open_db = table.put_open c.db key b valid.open_db;
            heap = heap;
            fits = every-perm (allocated c.next) same ∙ ground (arith, valid.fits);
          };
          same_objects = refl;
          queued = same;
          lookups = λ j. ground (arith, lookup-insert key j a c.open_rfqs_map);
          row = b;
          encoded = e;
          rows = λ j. table.put_view c.db key b j valid.open_db;
        },
      )

  same_end :
      (a : Auction) (q : Quote) (c : Chain S) (b : Auction)
      → end_time (quoted a q c).objects b ≡ end_time c.objects b
  same_end a q c b = ground arith

  pub quoted-IsValid :
      (a : Auction) (q : Quote) (c : Chain S)
      → IsValid laws encodes decode_quotes hash c
      → IsValid laws encodes decode_quotes hash (quoted a q c)
  quoted-IsValid a q c valid =
      let agree =
        key_at-agree (allocated c.next) _ _ c.auction_queue (λ b p. same_end a q c b) valid.fits in
      record {
        open_db = valid.open_db;
        heap = λ i p r. rw (agree i, agree (parent i)) (valid.heap i p r);
        fits = valid.fits;
      }
