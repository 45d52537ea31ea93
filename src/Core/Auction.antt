-- ===== src/Core/Auction.antt =====
-- core/blockchain.go, the part that keeps the auctions: WriteRFQTxs, GetOpenRFQByHash,
-- UpdateActiveRFQ and processAuctionQueue. The data of an auction is an object that the list, the
-- map and the queue of open auctions share: a pointer is an address of `objects`, and `next` is the
-- first address that is free. Logging and the lock are left out, and the sends on EventChan are
-- the list `events`, oldest first.
pub mod Closing
pub mod Rounds
pub mod Ticks
pub mod Opening
pub mod Quoting
pub mod Reading
use rfqrelayer.Prelude.{
  ℕ, zero, suc, ◌+◌, ◌-◌, ◌*◌, ◌/◌, ◌%◌, ◌^◌, ◌≤◌, ◌<◌, ◌≡◌, refl, sym, ap, ◌∙◌, ◌≢◌, ◌↔◌, ◌⊎◌, inl,
  inr, Bool, true, false, ◌&&◌, ◌||◌, not, Option, none, some, List, [], ◌∷◌, ◌++◌, map, arith, ltb,
  leb, ◌==◌, if◌then◌else◌, length, get_elem?, set, take, drop, replicate, keep_if, All, Result, ok,
  err, panic, ◌>>=◌, ◌>>◌, Bool-cases, Option-cases, List-cases, length-append, length-take,
  length-drop, length-replicate, length-map, drop-append_length, get_elem?-append,
  get_elem?-append_length, drop-append, drop_one-drop, drop-get_elem?, drop_past, get_elem?-map,
  Bytes, bytes_eq, bytes_eq_iff, bytes_eq_refl, bytes_eq-append, bytes_le, has_prefix,
  has_prefix-append, bytes_le-append,
}
use rfqrelayer.Prelude.Int.{ℤ, leb_ℤ}
use rfqrelayer.Prelude.Assoc.{Assoc, lookup, insert, delete}
use rfqrelayer.Rfqdb.Interfaces.{DbError, Database}
use rfqrelayer.Rawdb.Table.{new_table}
use rfqrelayer.Types.Data.{
  RfqRequest, Quote, RfqData, OpenRfq, TxData, request, open_rfq, quote, status_open, status_closed,
  close, open_rfq_tx_type, or_zero,
}
use rfqrelayer.Types.Items.{Item, rfq_request_item, open_rfq_item, quote_item, list_of}
use rfqrelayer.Core.Heap

-- *types.OpenRFQ, with the address of its Data.
pub record Auction : Type 0 where
  pub from : Bytes
  pub at : ℕ
  pub v : Option ℕ
  pub r : Option ℕ
  pub s : Option ℕ

-- A transaction, with the address of an auction's data.
pub data Tx : Type 0 where
  request_tx : RfqRequest → Tx
  open_rfq_tx : Auction → Tx
  quote_tx : Quote → Tx

pub record TxEvent : Type 0 where
  pub tx_type : ℕ
  pub tx_hash : Bytes
  pub transaction : TxData

pub data WriteError : Type 0 where
  not_encoded unknown_status bad_quotes : WriteError
  not_written : DbError → WriteError

-- The names of the tables that NewBlockchain makes and these operations write.
abbrev pub rfq_requests : Bytes
rfq_requests = b'r' ∷ b'f' ∷ b'q' ∷ b'R' ∷ b'e' ∷ b'q' ∷ b'u' ∷ b'e' ∷ b's' ∷ b't' ∷ b's' ∷ []

abbrev pub open_table : Bytes
open_table = b'o' ∷ b'p' ∷ b'e' ∷ b'n' ∷ b'R' ∷ b'F' ∷ b'Q' ∷ b's' ∷ []

abbrev pub closed_table : Bytes
closed_table = b'c' ∷ b'l' ∷ b'o' ∷ b's' ∷ b'e' ∷ b'R' ∷ b'F' ∷ b'Q' ∷ b's' ∷ []

abbrev pub quotes_table : Bytes
quotes_table = b'q' ∷ b'u' ∷ b'o' ∷ b't' ∷ b'e' ∷ b's' ∷ []

-- Blockchain, the fields of the auctions, over a database whose state is an `S`.
pub record Chain (S : Type 0) : Type 0 where
  pub objects : ℕ → RfqData
  pub next : ℕ
  pub open_rfqs : List Auction
  pub open_rfqs_map : Assoc Auction
  pub closed_rfqs : List Auction
  pub auction_queue : List Auction
  pub db : S
  pub events : List TxEvent

-- A write through a pointer.
abbrev pub store : (ℕ → RfqData) → ℕ → RfqData → ℕ → RfqData
store objects at d i = if i == at then d else objects i

-- The Less of AuctionQueue looks at this.
abbrev pub end_time : (ℕ → RfqData) → Auction → ℤ
end_time objects a = (objects a.at).rfq_end_time

-- An auction with the data that its pointer leads to.
abbrev pub value_of : (ℕ → RfqData) → Auction → OpenRfq
value_of objects a = record { from = a.from; body = objects a.at; v = a.v; r = a.r; s = a.s }

-- The loop of WriteRFQTxs that takes an auction out of the open ones.
unfoldable pub remove_open : (ℕ → RfqData) → Bytes → List Auction → List Auction
remove_open objects hash [] = []
remove_open objects hash (a ∷ l) =
    let rest = remove_open objects hash l in
    if bytes_eq ((objects a.at).rfq_tx_hash) hash then l else a ∷ rest

-- What a Put answers, as WriteRFQTxs returns it.
abbrev pub written : Option DbError → Option WriteError
written none = none
written (some e) = some (not_written e)

-- What processAuctionQueue sends about a transaction.
abbrev pub closing_event : (TxData → Bytes) → (ℕ → RfqData) → Auction → TxEvent
closing_event hash objects a = record {
  tx_type = open_rfq_tx_type;
  tx_hash = hash (open_rfq (value_of objects a));
  transaction = open_rfq (value_of objects a);
}

module _ {S : Type 0} where
  -- types.NewTx of an auction: deepCopy makes a new object.
  abbrev pub new_auction : Auction → Chain S → Auction × Chain S
  new_auction a c = (
    record a { at = c.next; v = or_zero a.v; r = or_zero a.r; s = or_zero a.s },
    record c { objects = store c.objects c.next (c.objects a.at); next = suc c.next },
  )

  -- Has the first auction of the queue ended?
  abbrev pub first_ended : ℤ → Chain S → Bool
  first_ended now c = elim c.auction_queue [ [] ↦ false | a ∷ _ ↦ leb_ℤ (end_time c.objects a) now ]

module _ {S I : Type 0} (d : Database S I) (encode : Item → Option Bytes)
    (decode_quotes : Bytes → Option (List Quote)) (hash : TxData → Bytes) where
  abbrev pub put_in : Bytes → Bytes → Bytes → Chain S → Chain S × Option DbError
  put_in table key value c =
      let (s, e) = (new_table d table).writer.put c.db key value in (record c { db = s }, e)

  -- The two statuses of an auction that WriteRFQTxs writes.
  unfoldable pub write_open : Auction → Bytes → Chain S → Chain S × Option WriteError
  write_open a bytes c =
      let key = (c.objects a.at).rfq_tx_hash in
      let (c', e) = put_in open_table key bytes (record c {
        open_rfqs = c.open_rfqs ++ a ∷ [];
        open_rfqs_map = insert key a c.open_rfqs_map;
        auction_queue = Heap.push (end_time c.objects) c.auction_queue a;
      }) in
      (c', written e)

  unfoldable pub write_closed : Auction → Bytes → Chain S → Chain S × Option WriteError
  write_closed a bytes c =
      let key = (c.objects a.at).rfq_tx_hash in
      let (c', e) = put_in closed_table key bytes c in
      (
        record c' {
          open_rfqs = remove_open c.objects key c.open_rfqs;
          open_rfqs_map = delete key c.open_rfqs_map;
          closed_rfqs = c.closed_rfqs ++ a ∷ [];
        },
        written e,
      )

  -- Quotes are kept by the auction that they answer; an error of the Get is dropped.
  abbrev pub existing_quotes : Result DbError Bytes → Option (List Quote)
  existing_quotes (ok b) = decode_quotes b
  existing_quotes (err e) = some []
  existing_quotes panic = some []

  unfoldable pub write_quote : Quote → Chain S → Chain S × Option WriteError
  write_quote q c =
      let key = q.body.rfq_tx_hash in
      elim (existing_quotes ((new_table d quotes_table).get c.db key)) [
        | none ↦ (c, some bad_quotes)
        | some qs ↦ elim (encode (list_of (map quote_item (qs ++ q ∷ [])))) [
          | none ↦ (c, some not_encoded)
          | some bytes ↦ let (c', e) = put_in quotes_table key bytes c in (c', written e)
        ]
      ]

  unfoldable pub write_rfq_txs : Tx → Chain S → Chain S × Option WriteError
  write_rfq_txs (request_tx t) c = elim (encode (rfq_request_item t)) [
    | none ↦ (c, some not_encoded)
    | some bytes ↦ let (c', e) = put_in rfq_requests (hash (request t)) bytes c in (c', written e)
  ]
  write_rfq_txs (open_rfq_tx a) c = elim (encode (open_rfq_item (value_of c.objects a))) [
    | none ↦ (c, some not_encoded)
    | some bytes ↦
        if bytes_eq ((c.objects a.at).status) status_open
        then write_open a bytes c
        else if bytes_eq ((c.objects a.at).status) status_closed
        then write_closed a bytes c
        else (c, some unknown_status)
  ]
  write_rfq_txs (quote_tx q) c = write_quote q c

  -- One round of processAuctionQueue, for the auction that was taken out of the queue. The error
  -- of WriteRFQTxs is dropped.
  unfoldable pub close_auction : Auction → Chain S → Chain S
  close_auction a c =
      let (t, c') =
        new_auction a (record c { objects = store c.objects a.at (close (c.objects a.at)) }) in
      let written = write_rfq_txs (open_rfq_tx t) c' in
      record (written.0) {
        events = (written.0).events ++ closing_event hash (written.0).objects t ∷ [];
      }

  unfoldable pub round : Chain S → Chain S
  round c = elim (Heap.pop (end_time c.objects) c.auction_queue) [
    | none ↦ c
    | some (a, q) ↦ close_auction a (record c { auction_queue = q })
  ]

  unfoldable pub close_ended : ℕ → ℤ → Chain S → Chain S
  close_ended zero now c = c
  close_ended (suc fuel) now c =
      let rest = close_ended fuel now (round c) in if first_ended now c then rest else c

  -- processAuctionQueue, when the clock shows `now`.
  unfoldable pub process_auction_queue : ℤ → Chain S → Chain S
  process_auction_queue now c = close_ended (length c.auction_queue) now c

-- The errors of the lookups in the map of open auctions.
pub data LookupError : Type 0 where
  no_open_rfq expired : LookupError

module _ {S : Type 0} where
  unfoldable pub get_open_rfq_by_hash : Bytes → Chain S → Result LookupError Auction
  get_open_rfq_by_hash h c = elim (lookup h c.open_rfqs_map) [
    | none ↦ err no_open_rfq
    | some a ↦ ok a
  ]

  -- UpdateActiveRFQ; `none` is the nil error.
  unfoldable pub update_active_rfq : Bytes → Quote → Chain S → Chain S × Option LookupError
  update_active_rfq h q c = elim (lookup h c.open_rfqs_map) [
    | none ↦ (c, some expired)
    | some a ↦
        let d = c.objects a.at in
        (
          record c { objects = store c.objects a.at (record d { quotes = d.quotes ++ q ∷ [] }) },
          none,
        )
  ]
