-- ===== src/Core/Auction/Reading.antt =====
-- core/blockchain.go: the functions that read a whole table, GetRFQRequests, GetOpenRFQRequests,
-- GetClosedRFQRequests and GetAuctionQuotes. Their loops run on fuel. rlp with the DecodeRLP methods of
-- a type is a parameter.
pub mod Rows
use rfqrelayer.Prelude.{
  ℕ, zero, suc, ◌+◌, ◌-◌, ◌*◌, ◌/◌, ◌%◌, ◌^◌, ◌≤◌, ◌<◌, ◌≡◌, refl, sym, ap, ◌∙◌, ◌≢◌, ◌↔◌, ◌⊎◌, inl,
  inr, Bool, true, false, ◌&&◌, ◌||◌, not, Option, none, some, List, [], ◌∷◌, ◌++◌, map, arith, ltb,
  leb, ◌==◌, if◌then◌else◌, length, get_elem?, set, take, drop, replicate, keep_if, All, Result, ok,
  err, panic, ◌>>=◌, ◌>>◌, Bool-cases, Option-cases, Result-cases, List-cases, length-append,
  length-take, length-drop, length-replicate, length-map, drop-append_length, get_elem?-append,
  get_elem?-append_length, drop-append, drop_one-drop, drop-get_elem?, take_run, take_whole,
  drop_past, get_elem?-map, Bytes, bytes_eq, bytes_eq_iff, bytes_eq_refl, bytes_eq-append, bytes_le,
  has_prefix, has_prefix-append, bytes_le-append,
}
use rfqrelayer.Rfqdb.Interfaces.{DbError, IteratorOps, Database}
use rfqrelayer.Rawdb.Table.{new_table, table_iterator}
use rfqrelayer.Types.Data.{RfqRequest, OpenRfq, Quote}
use rfqrelayer.Core.Auction.{Chain, rfq_requests, open_table, closed_table, quotes_table}

pub data ReadError : Type 0 where
  not_decoded : ReadError
  not_iterated : DbError → ReadError

abbrev pub or_nil : Option Bytes → Bytes
or_nil none = []
or_nil (some b) = b

-- The loop. A value that is not decoded ends it; the error of the iterator is looked at after it.
unfoldable pub read_rows :
    {I V : Type 0} → IteratorOps I → (Bytes → Option V) → ℕ → I → Result ReadError (List V)
read_rows o decode zero it = ok []
read_rows o decode (suc fuel) it =
    let moved = (o.next it).0 in
    let rest = read_rows o decode fuel moved in
    elim (o.next it).1 [
      | false ↦ elim (o.error moved) [ none ↦ ok [] | some e ↦ err (not_iterated e) ]
      | true ↦ elim (decode (or_nil (o.value moved))) [
        | none ↦ err not_decoded
        | some v ↦ rest >>= λ vs. ok (v ∷ vs)
      ]
    ]

-- The quotes of all rows, one row after the other.
unfoldable pub joined : List (List Quote) → List Quote
joined [] = []
joined (qs ∷ rows) = qs ++ joined rows

module _ {S I : Type 0} (d : Database S I) (o : IteratorOps I) (fuel : ℕ) where
  unfoldable pub read_table :
      {V : Type 0} → Bytes → (Bytes → Option V) → Chain S → Result ReadError (List V)
  read_table name decode c =
      read_rows (table_iterator o name) decode fuel ((new_table d name).new_iterator c.db [] [])

  unfoldable pub get_rfq_requests :
      (Bytes → Option RfqRequest) → Chain S → Result ReadError (List RfqRequest)
  get_rfq_requests decode c = read_table rfq_requests decode c

  unfoldable pub get_open_rfq_requests :
      (Bytes → Option OpenRfq) → Chain S → Result ReadError (List OpenRfq)
  get_open_rfq_requests decode c = read_table open_table decode c

  unfoldable pub get_closed_rfq_requests :
      (Bytes → Option OpenRfq) → Chain S → Result ReadError (List OpenRfq)
  get_closed_rfq_requests decode c = read_table closed_table decode c

  unfoldable pub get_auction_quotes :
      (Bytes → Option (List Quote)) → Bytes → Chain S → Result ReadError (List Quote)
  get_auction_quotes decode h c = read_table quotes_table decode c >>= λ rows.
      ok (keep_if (λ q. bytes_eq q.body.rfq_tx_hash h) (joined rows))
