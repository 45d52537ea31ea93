-- ===== src/Examples/Events.antt =====
-- The event of a request at concrete inputs.
use rfqrelayer.Prelude.{◌≡◌, refl, Option, none, some, [], arith, replicate, Bytes}
use rfqrelayer.Prelude.Int.{pos}
use rfqrelayer.Rfqdb.Memorydb.{Store}
use rfqrelayer.Rfqdb.Memorydb.Contract.{memory_database, memory_database-IsKeyValue}
use rfqrelayer.Types.Data.{RfqRequest, request, rfq_request_tx_type}
use rfqrelayer.Crypto.Signatures.{read_signature}
use rfqrelayer.Network.Events.{Relay, handle_tx_event}
use rfqrelayer.Network.Events.Opening.{Requested, handle_tx_event-Requested}
use rfqrelayer.Examples.Auctions.{
  encode, encodes, decode_quotes, hash, bare_request, chain, chain-IsValid,
}

abbrev pub relay : Relay Store
relay = record { chain = chain; announced = []; to_pool = [] }

abbrev rfq_request : RfqRequest
rfq_request = record { from = []; body = bare_request; v = none; r = none; s = none }

abbrev pub crypto_sign : Bytes → Option Bytes
crypto_sign digest = some (replicate 65 1)

handle_tx_event-Requested_example :
    (after : Relay Store) × (handle_tx_event memory_database encode decode_quotes hash crypto_sign
        (replicate 20 3)
        2
        (pos 100)
        (record {
          tx_type = rfq_request_tx_type;
          tx_hash = replicate 32 8;
          transaction = request rfq_request;
        })
        relay
      ≡ some after)
    × Requested memory_database-IsKeyValue {encode = encode} encodes decode_quotes hash
        (pos 100)
        bare_request
        (replicate 32 8)
        (replicate 20 3)
        (read_signature (replicate 65 1))
        2
        relay
        after
handle_tx_event-Requested_example =
    handle_tx_event-Requested memory_database-IsKeyValue {encode = encode} encodes decode_quotes
      hash crypto_sign (replicate 20 3) 2 (pos 100) rfq_request (replicate 32 8) (replicate 65 1)
      relay chain-IsValid refl refl (omega arith)
