-- ===== src/Network/Events.antt =====
-- network/server.go: what a node does with the events of its transactions. The callbacks of the HTTP
-- interface are called one after the other; `announced` lists their calls, and `to_pool` the
-- transactions sent on txChan, which the main loop adds to the pool. The clock is in milliseconds.
pub mod Opening
use rfqrelayer.Prelude.{
  ℕ, zero, suc, ◌+◌, ◌-◌, ◌*◌, ◌/◌, ◌%◌, ◌^◌, ◌≤◌, ◌<◌, ◌≡◌, refl, sym, ap, ◌∙◌, ◌≢◌, ◌↔◌, ◌⊎◌, inl,
  inr, Bool, true, false, ◌&&◌, ◌||◌, not, Option, none, some, List, [], ◌∷◌, ◌++◌, map, arith, ltb,
  leb, ◌==◌, if◌then◌else◌, length, get_elem?, set, take, drop, replicate, keep_if, All, Result, ok,
  err, panic, ◌>>=◌, ◌>>◌, Bool-cases, Option-cases, List-cases, length-append, length-take,
  length-drop, length-replicate, length-map, drop-append_length, get_elem?-append,
  get_elem?-append_length, drop-append, drop_one-drop, drop-get_elem?, take_run, take_whole,
  drop_past, get_elem?-map, Bytes, bytes_eq, bytes_eq_iff, bytes_eq_refl, bytes_eq-append, bytes_le,
  has_prefix, has_prefix-append, bytes_le-append,
}
use rfqrelayer.Prelude.Int.{ℤ, pos, int64, add_int64}
use rfqrelayer.Rfqdb.Interfaces.{Database}
use rfqrelayer.Types.Data.{
  SignableData, RfqRequest, Quote, RfqData, OpenRfq, TxData, request, open_rfq, quote, status_open,
  rfq_request_tx_type, open_rfq_tx_type, quote_tx_type,
}
use rfqrelayer.Types.Items.{Item}
use rfqrelayer.Common.Types.{hex_to_address}
use rfqrelayer.Crypto.Signatures.{Signature, SigError, sign}
use rfqrelayer.Core.Auction.{
  Auction, open_rfq_tx, TxEvent, Chain, store, value_of, new_auction, write_rfq_txs,
}

-- The part of Server that handles the events.
pub record Relay (S : Type 0) : Type 0 where
  pub chain : Chain S
  pub announced : List (ℕ × TxData × ℕ)
  pub to_pool : List TxData

-- The address that both contracts of an auction have.
abbrev pub contract_text : Bytes
contract_text =
    b'0' ∷ b'x' ∷ b'A' ∷ b'0' ∷ b'b' ∷ b'8' ∷ b'6' ∷ b'9' ∷ b'9' ∷ b'1' ∷ b'c' ∷ b'6' ∷ b'2' ∷ b'1'
    ∷ b'8' ∷ b'b' ∷ b'3' ∷ b'6' ∷ b'c' ∷ b'1' ∷ b'd' ∷ b'1' ∷ b'9' ∷ b'D' ∷ b'4' ∷ b'a' ∷ b'2'
    ∷ b'e' ∷ b'9' ∷ b'E' ∷ b'b' ∷ b'0' ∷ b'c' ∷ b'E' ∷ b'3' ∷ b'6' ∷ b'0' ∷ b'6' ∷ b'e' ∷ b'B'
    ∷ b'4' ∷ b'8' ∷ []

unfoldable pub create_open_rfq_data : SignableData → Bytes → RfqData
create_open_rfq_data d hash = record {
  rfq_tx_hash = hash;
  rfq_request = d;
  rfq_start_time = pos 0;
  rfq_end_time = pos 0;
  quotes = [];
  settlement_contract = hex_to_address contract_text;
  matching_contract = hex_to_address contract_text;
  status = status_open;
}

-- The data with the times that handleRFQRequest sets.
unfoldable pub timed_data : ℤ → SignableData → Bytes → RfqData
timed_data now d hash = record (create_open_rfq_data d hash) {
  rfq_start_time = now;
  rfq_end_time = add_int64 now (int64 d.rfq_duration_ms);
  status = status_open;
}

-- The calls of `callbacks` callbacks with a transaction and a type.
unfoldable pub calls : ℕ → TxData → ℕ → List (ℕ × TxData × ℕ)
calls zero t type = []
calls (suc n) t type = calls n t type ++ (n, t, type) ∷ []

-- The new object of an auction's data.
abbrev pub new_data : RfqData → Bytes → {S : Type 0} → Chain S → Auction × Chain S
new_data d from c = (
  record { from = from; at = c.next; v = none; r = none; s = none },
  record c { objects = store c.objects c.next d; next = suc c.next },
)

abbrev pub signed_auction : Signature → Auction → Auction
signed_auction sig a = record a { v = some sig.v; r = some sig.r; s = some sig.s }

-- `address` is that of the node's key, `crypto_sign` what go-ethereum's Sign does with it, and
-- `callbacks` the number of callbacks.
module _ {S I : Type 0} (d : Database S I) (encode : Item → Option Bytes)
    (decode_quotes : Bytes → Option (List Quote)) (hash : TxData → Bytes)
    (crypto_sign : Bytes → Option Bytes) (address : Bytes) (callbacks : ℕ) where
  -- The part of handleRFQRequest past the signature. The error of WriteRFQTxs is dropped.
  unfoldable pub open_signed : Auction → Chain S → Relay S → Relay S
  open_signed a c relay =
      let t = open_rfq (value_of c.objects a) in
      record relay {
        chain = (write_rfq_txs d encode decode_quotes hash (open_rfq_tx a) c).0;
        announced = relay.announced ++ calls callbacks t open_rfq_tx_type;
        to_pool = relay.to_pool ++ t ∷ [];
      }

  -- An auction that cannot be signed is only logged.
  unfoldable pub handle_rfq_request : ℤ → SignableData → Bytes → Relay S → Relay S
  handle_rfq_request now body tx_hash relay =
      let (fresh, c) = new_data (timed_data now body tx_hash) address relay.chain in
      let (a, c') = new_auction fresh c in
      elim (sign crypto_sign (hash (open_rfq (value_of c'.objects a)))) [
        | ok sig ↦ open_signed (signed_auction sig a) c' relay
        | err e ↦ record relay { chain = c' }
        | panic ↦ record relay { chain = c' }
      ]

  unfoldable pub handle_quote_event : TxData → Relay S → Relay S
  handle_quote_event t relay = record relay {
    announced = relay.announced ++ calls callbacks t quote_tx_type;
  }

  unfoldable pub handle_close_rfq : TxData → Relay S → Relay S
  handle_close_rfq t relay = record relay {
    announced = relay.announced ++ calls callbacks t open_rfq_tx_type;
  }

  -- The type assertion on the embedded data panics for another transaction than a request.
  unfoldable pub handle_tx_event : ℤ → TxEvent → Relay S → Option (Relay S)
  handle_tx_event now e relay =
      if e.tx_type == rfq_request_tx_type
      then elim e.transaction [
        | request t ↦ some (handle_rfq_request now t.body e.tx_hash relay)
        | open_rfq t ↦ none
        | quote t ↦ none
      ]
      else if e.tx_type == open_rfq_tx_type
      then some (handle_close_rfq e.transaction relay)
      else if e.tx_type == quote_tx_type
      then some (handle_quote_event e.transaction relay)
      else some relay
