-- ===== src/Api/Server.antt =====
-- api/server.go: what the handlers of the HTTP interface do, past the parsing of a body, which gives
-- `none` where it fails. `Relay` holds what they share with the node. A handler runs as one step; one
-- that panics has `panicked` as its reply, since net/http ends the request then. handlePostTx is left
-- out, and so are quotes with a negative amount or price.
pub mod Quotes
pub mod Answers
pub mod Requests
use rfqrelayer.Prelude.{
  ℕ, zero, suc, ◌+◌, ◌-◌, ◌*◌, ◌/◌, ◌%◌, ◌^◌, ◌≤◌, ◌<◌, ◌≡◌, refl, sym, ap, ◌∙◌, ◌≢◌, ◌↔◌, ◌⊎◌, inl,
  inr, Bool, true, false, ◌&&◌, ◌||◌, not, Option, none, some, List, [], ◌∷◌, ◌++◌, map, arith, ltb,
  leb, ◌==◌, if◌then◌else◌, length, get_elem?, set, take, drop, replicate, keep_if, All, Result, ok,
  err, panic, ◌>>=◌, ◌>>◌, Bool-cases, Option-cases, List-cases, length-append, length-take,
  length-drop, length-replicate, length-map, drop-append_length, get_elem?-append,
  get_elem?-append_length, drop-append, drop_one-drop, drop-get_elem?, take_run, take_whole,
  drop_past, get_elem?-map, Bytes, bytes_eq, bytes_eq_iff, bytes_eq_refl, bytes_eq-append, bytes_le,
  has_prefix, has_prefix-append, bytes_le-append,
}
use rfqrelayer.Prelude.Int.{ℤ, ltb_ℤ}
use rfqrelayer.Rfqdb.Interfaces.{Database}
use rfqrelayer.Common.Bytes.{decode_string}
use rfqrelayer.Common.Types.{hash_from_bytes, hex_to_address}
use rfqrelayer.Types.Data.{
  SignableDataOf, SignableData, hashed_data, RfqRequest, QuoteData, Quote, OpenRfq, TxData,
  Transaction, request, open_rfq, quote, Invalid, validate, new_tx,
}
use rfqrelayer.Types.Items.{Item}
use rfqrelayer.Crypto.Signatures.{to_bytes, deserialize_sig_from_hex_string}
use rfqrelayer.Types.Signing.{SigningError, passed_on, with_signature}
use rfqrelayer.Types.Signing
use rfqrelayer.Core.Chain.{TxError, verify_tx}
use rfqrelayer.Core.Auction.{
  Tx, request_tx, open_rfq_tx, quote_tx, Chain, store, end_time, value_of, write_rfq_txs,
  get_open_rfq_by_hash, update_active_rfq,
}
use rfqrelayer.Network.Events.{Relay}

-- QuoteBody and RFQRequestBody; a missing `data` is a nil pointer.
pub record QuoteBody : Type 0 where
  pub from : Bytes
  pub body : Option QuoteData
  pub signature : Bytes

pub record RfqRequestBody : Type 0 where
  pub from : Bytes
  pub body : Option (SignableDataOf ℤ)

pub data ApiError : Type 0 where
  unreadable unknown_rfq no_longer_open : ApiError
  bad_request_data : Invalid → ApiError
  bad_signature : SigningError → ApiError
  not_verified : TxError → ApiError

-- An answer of http.StatusBadRequest, or one of another status with its value.
pub data Reply (A : Type 0) : Type 0 where
  bad_request : ApiError → Reply A
  replied : ℕ → A → Reply A
  panicked : Reply A

abbrev pub status_ok : ℕ
status_ok = 200

abbrev pub status_created : ℕ
status_created = 201

abbrev pub status_accepted : ℕ
status_accepted = 202

abbrev pub new_rfq_request : Bytes → SignableData → RfqRequest
new_rfq_request from body = record { from = from; body = body; v = none; r = none; s = none }

abbrev pub new_quote : Bytes → QuoteData → Quote
new_quote from body = record { from = from; body = body; v = none; r = none; s = none }

-- A transaction as WriteRFQTxs gets it. The data of an auction are a new object.
unfoldable pub tx_of : {S : Type 0} → TxData → Chain S → Tx × Chain S
tx_of (request t) c = (request_tx t, c)
tx_of (quote q) c = (quote_tx q, c)
tx_of (open_rfq o) c = (
  open_rfq_tx (record { from = o.from; at = c.next; v = o.v; r = o.r; s = o.s }),
  record c { objects = store c.objects c.next o.body; next = suc c.next },
)

-- The transaction that handlePostQuote makes of a body.
unfoldable pub signed_quote : QuoteBody → QuoteData → Result SigningError Transaction
signed_quote b q = do
  sig ← passed_on (deserialize_sig_from_hex_string b.signature)
  bytes ← passed_on (to_bytes sig)
  with_signature (new_tx (quote (new_quote (hex_to_address b.from) q))) bytes

-- A parameter of 32 bytes in hexadecimal; HashFromBytes panics on another length.
unfoldable pub with_hash : {A : Type 0} → Bytes → (Bytes → Reply A) → Reply A
with_hash s f = elim (decode_string s) [
  | none ↦ bad_request unreadable
  | some b ↦ elim (hash_from_bytes b) [ none ↦ panicked | some h ↦ f h ]
]

module _ {S : Type 0} where
  unfoldable pub found_rfq : Chain S → Bytes → Reply OpenRfq
  found_rfq c h = elim (get_open_rfq_by_hash h c) [
    | err e ↦ bad_request unknown_rfq
    | panic ↦ panicked
    | ok a ↦ replied status_ok (value_of c.objects a)
  ]

  unfoldable pub handle_get_open_rfq_request : Bytes → Relay S → Reply OpenRfq
  handle_get_open_rfq_request s relay = with_hash s (found_rfq relay.chain)

-- `address` and `crypto_sign` are those of the node's key; the other parameters are as in the files on
-- the chain and on transactions.
module _ {S I : Type 0} (d : Database S I) (encode : Item → Option Bytes)
    (decode_quotes : Bytes → Option (List Quote)) (hash : TxData → Bytes) where
  -- WriteRFQTxs, whose error is dropped, and the send on txChan.
  unfoldable pub submit : TxData → Relay S → Relay S
  submit t relay =
      let (x, c) = tx_of t relay.chain in
      record relay {
        chain = (write_rfq_txs d encode decode_quotes hash x c).0;
        to_pool = relay.to_pool ++ t ∷ [];
      }

  -- The last lines of handlePostQuote. The quote that joins the auction is the one before its
  -- signature was set, and the answer is the auction, through its pointer.
  unfoldable pub accept_quote : Transaction → Quote → Relay S → Relay S
  accept_quote t q relay =
      let r = submit t.inner relay in
      record r { chain = (update_active_rfq q.body.rfq_tx_hash q r.chain).0 }

  module _ (crypto_sign : Bytes → Option Bytes) (address : Bytes) where
    -- handlePostRFQRequest from the signature on.
    unfoldable pub sign_request : SignableData → Relay S → Relay S × Reply TxData
    sign_request sd relay =
        elim (Signing.sign (λ t. hash t.inner) (λ t. hash t.inner) crypto_sign
          (new_tx (request (new_rfq_request address sd)))) [
            | err e ↦ (relay, bad_request (bad_signature e))
            | panic ↦ (relay, panicked)
            | ok t ↦ (submit t.inner relay, replied status_accepted t.inner)
          ]

    -- handlePostRFQRequest from Validate on. The first hash, in Sign, panics on a negative amount.
    unfoldable pub post_data : SignableDataOf ℤ → Relay S → Relay S × Reply TxData
    post_data j relay = elim (validate j) [
      | some e ↦ (relay, bad_request (bad_request_data e))
      | none ↦ elim (hashed_data j) [ none ↦ (relay, panicked) | some sd ↦ sign_request sd relay ]
    ]

    unfoldable pub handle_post_rfq_request :
        Option RfqRequestBody → Relay S → Relay S × Reply TxData
    handle_post_rfq_request none relay = (relay, bad_request unreadable)
    handle_post_rfq_request (some b) relay = elim b.body [
      | none ↦ (relay, panicked)
      | some j ↦ post_data j relay
    ]

  module _ (valid_values : ℕ → ℕ → ℕ → Bool) (recover : Bytes → ℕ → ℕ → ℕ → Option Bytes) where
    -- handlePostQuote from the look at the signature on.
    unfoldable pub post_signed : QuoteBody → QuoteData → ℕ → Relay S → Relay S × Reply ℕ
    post_signed b q at relay = elim (signed_quote b q) [
      | err e ↦ (relay, bad_request (bad_signature e))
      | panic ↦ (relay, panicked)
      | ok t ↦ elim (verify_tx (λ t. hash t.inner) valid_values recover t) [
        | some e ↦ (relay, bad_request (not_verified e))
        | none ↦
            (accept_quote t (new_quote (hex_to_address b.from) q) relay, replied status_created at)
      ]
    ]

    -- handlePostQuote from the lookup of the auction on. The clock is in seconds. The reply names the
    -- auction by its address.
    unfoldable pub post_quote : ℤ → QuoteBody → QuoteData → Relay S → Relay S × Reply ℕ
    post_quote seconds b q relay = elim (get_open_rfq_by_hash q.rfq_tx_hash relay.chain) [
      | err e ↦ (relay, bad_request unknown_rfq)
      | panic ↦ (relay, panicked)
      | ok a ↦
          if ltb_ℤ (end_time relay.chain.objects a) seconds
          then (relay, bad_request no_longer_open)
          else post_signed b q a.at relay
    ]

    unfoldable pub handle_post_quote : ℤ → Option QuoteBody → Relay S → Relay S × Reply ℕ
    handle_post_quote seconds none relay = (relay, bad_request unreadable)
    handle_post_quote seconds (some b) relay = elim b.body [
      | none ↦ (relay, panicked)
      | some q ↦ post_quote seconds b q relay
    ]
