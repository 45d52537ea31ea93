-- ===== src/Api/Server/Answers.antt =====
-- api/server.go: the answers of handlePostQuote.
use rfqrelayer.Prelude.{
  ℕ, ◌≡◌, refl, ap, ◌∙◌, ◌⊎◌, inl, inr, Bool, false, Option, none, some, List, ◌++◌, length, ok,
  Bool-cases, Option-cases, Result-cases, Bytes,
}
use rfqrelayer.Prelude.Int.{ℤ, ltb_ℤ}
use rfqrelayer.Rfqdb.Interfaces.{Database, IsKeyValue}
use rfqrelayer.Common.Bytes.{decode_string}
use rfqrelayer.Common.Bytes.Hex.{decode_string-All}
use rfqrelayer.Common.Types.{hex_to_address}
use rfqrelayer.Types.Data.{QuoteData, Quote, TxData, Transaction, quote}
use rfqrelayer.Types.Items.{Item}
use rfqrelayer.Crypto.Signatures.{read_signature}
use rfqrelayer.Core.Chain.{verify_tx}
use rfqrelayer.Core.Auction.{Auction, end_time, quotes_table, get_open_rfq_by_hash}
use rfqrelayer.Core.Auction.Rounds.{IsValid}
use rfqrelayer.Network.Events.{Relay}
use rfqrelayer.Api.Server.{
  QuoteBody, Reply, replied, panicked, status_created, new_quote, signed_quote, accept_quote,
  post_signed, post_quote, handle_post_quote,
}
use rfqrelayer.Api.Server.Quotes.{
  with_values, signed_quote_lem, quotes_in, Accepted, accept_quote-Accepted,
}

module _ {S I : Type 0} {d : Database S I} {IsOpen : S → Type 0} {view : S → Bytes → Option Bytes}
    (laws : IsKeyValue d IsOpen view) {encode : Item → Option Bytes}
    (encodes : (x : Item) → (b : Bytes) × (encode x ≡ some b))
    (decode_quotes : Bytes → Option (List Quote)) (hash : TxData → Bytes) where
  module _ (valid_values : ℕ → ℕ → ℕ → Bool) (recover : Bytes → ℕ → ℕ → ℕ → Option Bytes) where
    handle_post_quote-body :
        (seconds : ℤ) (b : QuoteBody) (q : QuoteData) (relay : Relay S)
        → b.body ≡ some q
        → handle_post_quote d encode decode_quotes hash valid_values recover seconds (some b) relay
          ≡ post_quote d encode decode_quotes hash valid_values recover seconds b q relay
    unfolding handle_post_quote
    handle_post_quote-body seconds b q relay e =
        ap
          (λ o. elim o [
            | none ↦ (relay, panicked)
            | some x ↦ post_quote d encode decode_quotes hash valid_values recover seconds b x relay
          ])
          e

    handle_post_quote-missing :
        (seconds : ℤ) (b : QuoteBody) (relay : Relay S)
        → b.body ≡ none
        → handle_post_quote d encode decode_quotes hash valid_values recover seconds (some b) relay
          ≡ (relay, panicked)
    unfolding handle_post_quote
    handle_post_quote-missing seconds b relay e =
        ap
          (λ o. elim o [
            | none ↦ (relay, panicked)
            | some x ↦ post_quote d encode decode_quotes hash valid_values recover seconds b x relay
          ])
          e

    abbrev IsVerified : Transaction → Type 0
    IsVerified t = verify_tx (λ t. hash t.inner) valid_values recover t ≡ none

    -- What a quote that is accepted leads to.
    abbrev accepted : QuoteBody → QuoteData → Auction → Transaction → Relay S → Relay S × Reply ℕ
    accepted b q a t relay = (
      accept_quote d encode decode_quotes hash t (new_quote (hex_to_address b.from) q) relay,
      replied status_created a.at,
    )

    post_quote-accepted :
        (seconds : ℤ) (b : QuoteBody) (q : QuoteData) (a : Auction) (t : Transaction)
        (relay : Relay S)
        → get_open_rfq_by_hash q.rfq_tx_hash relay.chain ≡ ok a
        → ltb_ℤ (end_time relay.chain.objects a) seconds ≡ false
        → signed_quote b q ≡ ok t
        → IsVerified t
        → post_quote d encode decode_quotes hash valid_values recover seconds b q relay
          ≡ accepted b q a t relay
    unfolding post_quote post_signed
    post_quote-accepted seconds b q a t relay f g h i =
        rw (f, post_quote) (rw g (rw (h, post_signed) (rw i refl)))

    post_quote_lem :
        (seconds : ℤ) (b : QuoteBody) (q : QuoteData) (relay : Relay S)
        → let r = post_quote d encode decode_quotes hash valid_values recover seconds b q relay in
          (r.0 ≡ relay)
          ⊎ ((a : Auction) × (t : Transaction) × (get_open_rfq_by_hash q.rfq_tx_hash relay.chain
                ≡ ok a)
              × (ltb_ℤ (end_time relay.chain.objects a) seconds ≡ false)
              × (signed_quote b q ≡ ok t)
              × IsVerified t
              × (r ≡ accepted b q a t relay))
    unfolding post_quote post_signed
    post_quote_lem seconds b q relay =
        elim (Result-cases (get_open_rfq_by_hash q.rfq_tx_hash relay.chain)) [
          | inr (inl (x, f)) ↦ inl (rw (f, post_quote) refl)
          | inr (inr f) ↦ inl (rw (f, post_quote) refl)
          | inl (a, f) ↦ elim (Bool-cases (ltb_ℤ (end_time relay.chain.objects a) seconds)) [
            | inl g ↦ inl (rw (f, post_quote) (rw g refl))
            | inr g ↦ elim (Result-cases (signed_quote b q)) [
              | inr (inl (x, h)) ↦ inl (rw (f, post_quote) (rw g (rw (h, post_signed) refl)))
              | inr (inr h) ↦ inl (rw (f, post_quote) (rw g (rw (h, post_signed) refl)))
              | inl (t, h) ↦
                  elim (Option-cases (verify_tx (λ t. hash t.inner) valid_values recover t)) [
                    | inr (x, i) ↦ inl (rw (f, post_quote) (rw g (rw (h, post_signed) (rw i refl))))
                    | inl i ↦
                        inr (a, t, f, g, h, i, post_quote-accepted seconds b q a t relay f g h i)
                  ]
            ]
          ]
        ]

    -- handlePostQuote answers with the auction when the quote is for an auction that the map has, the
    -- auction's end time is not below the clock, the signature is 65 bytes in hexadecimal, and Verify
    -- accepts the transaction with it. On a valid chain whose table of quotes has `qs` in the row of
    -- the auction, the row is then `qs` and the quote, the transaction is sent to the pool, and the
    -- quote without the signature is the last in the auction's data. The map still has the auction, the
    -- queue is the same, and the chain stays valid.
    pub handle_post_quote-Accepted :
        (seconds : ℤ) (b : QuoteBody) (q : QuoteData) (qs : List Quote) (a : Auction) (sig : Bytes)
        (relay : Relay S)
        → IsValid laws encodes decode_quotes hash relay.chain
        → b.body ≡ some q
        → get_open_rfq_by_hash q.rfq_tx_hash relay.chain ≡ ok a
        → ltb_ℤ (end_time relay.chain.objects a) seconds ≡ false
        → decode_string b.signature ≡ some sig
        → length sig ≡ 65
        → verify_tx
            (λ t. hash t.inner)
            valid_values
            recover
            (record {
              inner =
                  quote (with_values (new_quote (hex_to_address b.from) q) (read_signature sig));
            })
          ≡ none
        → quotes_in decode_quotes (view relay.chain.db (quotes_table ++ q.rfq_tx_hash)) ≡ some qs
        → let r =
            handle_post_quote d encode decode_quotes hash valid_values recover seconds
              (some b)
              relay in
          (r.1 ≡ replied status_created a.at)
          × Accepted laws encodes decode_quotes hash b q qs a (read_signature sig) relay r.0
    handle_post_quote-Accepted seconds b q qs a sig relay valid body found in_time e l verified
          existing =
        let made = signed_quote_lem b q sig e l (decode_string-All b.signature sig e) in
        rw
          (
            handle_post_quote-body seconds b q relay body,
            post_quote-accepted seconds b q a _ relay found in_time made verified,
          )
          (
            refl,
            accept_quote-Accepted laws encodes decode_quotes hash b q qs a (read_signature sig)
                relay valid found existing,
          )

    -- handlePostQuote leaves the node as it is unless the quote is for an auction that the map has,
    -- whose end time is not below the clock, and Verify accepts the transaction with the signature of
    -- the body. If so it submits this transaction and answers with the auction.
    pub handle_post_quote_lem :
        (seconds : ℤ) (x : Option QuoteBody) (relay : Relay S)
        → let r =
            handle_post_quote d encode decode_quotes hash valid_values recover seconds x relay in
          (r.0 ≡ relay)
          ⊎ ((b : QuoteBody) × (q : QuoteData) × (a : Auction) × (t : Transaction) × (x ≡ some b)
              × (b.body ≡ some q)
              × (get_open_rfq_by_hash q.rfq_tx_hash relay.chain ≡ ok a)
              × (ltb_ℤ (end_time relay.chain.objects a) seconds ≡ false)
              × (signed_quote b q ≡ ok t)
              × IsVerified t
              × (r ≡ accepted b q a t relay))
    unfolding handle_post_quote
    handle_post_quote_lem seconds none relay = inl refl
    handle_post_quote_lem seconds (some b) relay = elim (Option-cases b.body) [
      | inl e ↦ inl (ap (λ r. r.0) (handle_post_quote-missing seconds b relay e))
      | inr (q, e) ↦
          let body = handle_post_quote-body seconds b q relay e in
          elim (post_quote_lem seconds b q relay) [
            | inl same ↦ inl (ap (λ r. r.0) body ∙ same)
            | inr (a, t, f, g, h, i, r) ↦ inr (b, q, a, t, refl, e, f, g, h, i, body ∙ r)
          ]
    ]
