-- ===== src/Examples/Api.antt =====
-- The handlers of the HTTP interface at concrete inputs.
use rfqrelayer.Prelude.{
  ℕ, ◌≡◌, refl, ◌⊎◌, Bool, true, false, Option, none, some, [], ◌∷◌, arith, replicate, ok, Bytes,
  bytes_eq,
}
use rfqrelayer.Prelude.Int.{ℤ, pos, negsuc, ltb_ℤ}
use rfqrelayer.Rfqdb.Memorydb.Contract.{memory_database, memory_database-IsKeyValue}
use rfqrelayer.Common.Bytes.{
  bytes_to_hex, decode_string, hex_value, hex_digit, from_hex, hex_to_bytes, without_prefix,
  has_0x_prefix,
}
use rfqrelayer.Prelude.Assoc.{lookup}
use rfqrelayer.Prelude.Numbers.{set_bytes}
use rfqrelayer.Types.Data.{
  SignableDataOf, with_amount, QuoteData, Transaction, request, sender, validate,
  raw_signature_values,
}
use rfqrelayer.Crypto.Signatures.{read_signature}
use rfqrelayer.Core.Chain.{verify_tx, check_values}
use rfqrelayer.Core.Auction.{Auction, end_time, get_open_rfq_by_hash}
use rfqrelayer.Api.Server.{
  QuoteBody, replied, panicked, status_created, status_accepted, signed_quote, accept_quote,
  new_quote, handle_post_quote, handle_post_rfq_request,
}
use rfqrelayer.Common.Types.{hex_to_address, bytes_to_address}
use rfqrelayer.Api.Server.Quotes.{Accepted}
use rfqrelayer.Api.Server.Answers.{handle_post_quote-Accepted, handle_post_quote_lem}
use rfqrelayer.Api.Server.Requests.{signed_request, Submitted, handle_post_rfq_request-Submitted}
use rfqrelayer.Examples.Auctions.{
  encode, encodes, decode_quotes, hash, small_quote, auction_at, chain-IsValid,
}
use rfqrelayer.Examples.Events.{relay, crypto_sign}

abbrev valid_values : ℕ → ℕ → ℕ → Bool
valid_values v r s = true

abbrev recover : Bytes → ℕ → ℕ → ℕ → Option Bytes
recover digest v r s = some (replicate 20 0)

abbrev body : QuoteBody
body = record { from = []; body = some small_quote.body; signature = bytes_to_hex (replicate 65 1) }

abbrev full_request : SignableDataOf ℤ
full_request = record {
  requestor_id = b'1' ∷ [];
  base_token_amount = some (pos 4);
  base_token = some (record { address = replicate 20 1; symbol = b'A' ∷ []; decimals = 2 });
  quote_token = some (record { address = replicate 20 2; symbol = b'B' ∷ []; decimals = 2 });
  rfq_duration_ms = 5;
}

handle_post_quote-Accepted_example :
    ((handle_post_quote memory_database encode decode_quotes hash valid_values recover
        (pos 20)
        (some body)
        relay).1
      ≡ replied status_created 2)
    × Accepted memory_database-IsKeyValue {encode = encode} encodes decode_quotes hash body
        small_quote.body []
        (auction_at 2)
        (read_signature (replicate 65 1))
        relay
        (handle_post_quote memory_database encode decode_quotes hash valid_values recover
          (pos 20)
          (some body)
          relay).0
unfolding get_open_rfq_by_hash bytes_to_hex decode_string verify_tx check_values hex_to_address
    lookup bytes_eq hex_value hex_digit raw_signature_values sender bytes_to_address set_bytes
    from_hex hex_to_bytes without_prefix has_0x_prefix
handle_post_quote-Accepted_example =
    handle_post_quote-Accepted memory_database-IsKeyValue {encode = encode} encodes decode_quotes
      hash valid_values recover (pos 20) body small_quote.body [] (auction_at 2) (replicate 65 1)
      relay chain-IsValid refl refl refl refl refl refl refl

handle_post_quote_lem_example :
    let r =
      handle_post_quote memory_database encode decode_quotes hash valid_values recover
        (pos 20)
        (some body)
        relay in
    (r.0 ≡ relay)
    ⊎ ((b : QuoteBody) × (q : QuoteData) × (a : Auction) × (t : Transaction) × (some body ≡ some b)
        × (b.body ≡ some q)
        × (get_open_rfq_by_hash q.rfq_tx_hash relay.chain ≡ ok a)
        × (ltb_ℤ (end_time relay.chain.objects a) (pos 20) ≡ false)
        × (signed_quote b q ≡ ok t)
        × (verify_tx (λ t. hash t.inner) valid_values recover t ≡ none)
        × (r ≡ (
          accept_quote memory_database encode decode_quotes hash t
              (new_quote (hex_to_address b.from) q)
              relay,
          replied status_created a.at,
        )))
handle_post_quote_lem_example =
    handle_post_quote_lem memory_database-IsKeyValue {encode = encode} encodes decode_quotes hash
      valid_values recover (pos 20) (some body) relay

handle_post_rfq_request-Submitted_example :
    let r =
      handle_post_rfq_request memory_database encode decode_quotes hash crypto_sign
        (replicate 20 3)
        (some (record { from = []; body = some full_request }))
        relay in
    let t = λ (n : ℕ).
      signed_request
        (replicate 20 3)
        (with_amount full_request (some n))
        (read_signature (replicate 65 1)) in
    ((n : ℕ) × (full_request.base_token_amount ≡ some (negsuc n)) × (r ≡ (relay, panicked)))
    ⊎ ((n : ℕ) × (full_request.base_token_amount ≡ some (pos n))
        × (r.1 ≡ replied status_accepted (request (t n)))
        × Submitted memory_database-IsKeyValue {encode = encode} encodes decode_quotes hash
            (t n)
            relay
            r.0)
unfolding validate
handle_post_rfq_request-Submitted_example =
    handle_post_rfq_request-Submitted memory_database-IsKeyValue {encode = encode} encodes
      decode_quotes hash crypto_sign (replicate 20 3) [] full_request (replicate 65 1) relay
      chain-IsValid refl (λ n e. refl) refl (omega arith)
