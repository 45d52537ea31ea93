-- ===== src/Examples/Records.antt =====
-- The records of auctions and quotes, and their encodings, at concrete inputs.
use rfqrelayer.Prelude.{◌≡◌, refl, Option, some, [], ◌∷◌, arith, replicate, ok, Bytes}
use rfqrelayer.Prelude.Int.{pos}
use rfqrelayer.Types.Data.{Token, SignableData, QuoteData, Quote, RfqData, OpenRfq, status_open}
use rfqrelayer.Types.Items.{elems, open_rfq_item}
use rfqrelayer.Types.Decode.{open_rfq_from_elems}
use rfqrelayer.Types.Decode.RoundTrip.{OpenRfqFits, open_rfq_round_trip}
use rfqrelayer.Types.Decode.Quotes.{Fails, open_rfq_with_quotes-Fails}

-- A key parser that takes every key.
abbrev any_key : Bytes → Option Bytes
any_key k = some k

abbrev ether : Token
ether = record { address = replicate 20 17; symbol = b'E' ∷ b'T' ∷ b'H' ∷ []; decimals = 18 }

abbrev tether : Token
tether = record { address = replicate 20 34; symbol = b'U' ∷ b'S' ∷ b'D' ∷ []; decimals = 6 }

abbrev small_request : SignableData
small_request = record {
  requestor_id = b'1' ∷ [];
  base_token_amount = some 1000;
  base_token = some ether;
  quote_token = some tether;
  rfq_duration_ms = 5000;
}

abbrev small_auction : RfqData
small_auction = record {
  rfq_tx_hash = replicate 32 1;
  rfq_request = small_request;
  rfq_start_time = pos 100;
  rfq_end_time = pos 5100;
  quotes = [];
  settlement_contract = replicate 20 2;
  matching_contract = replicate 20 3;
  status = status_open;
}

abbrev small_open_rfq : OpenRfq
small_open_rfq = record {
  from = replicate 20 4;
  body = small_auction;
  v = some 27;
  r = some 5;
  s = some 6;
}

small_open_rfq-OpenRfqFits : OpenRfqFits small_open_rfq
small_open_rfq-OpenRfqFits = record {
  from_sized = refl;
  body_fits = record {
    hash_sized = refl;
    request_fits = record {
      amount = 1000;
      base = ether;
      quote = tether;
      has_amount = refl;
      has_base = refl;
      has_quote = refl;
      base_fits = record { sized = refl; fits = omega arith };
      quote_fits = record { sized = refl; fits = omega arith };
      duration_fits = omega arith;
    };
    start_fits = omega arith;
    end_fits = omega arith;
    no_quotes = refl;
    settlement_sized = refl;
    matching_sized = refl;
  };
  v = 27;
  r = 5;
  s = 6;
  has_v = refl;
  has_r = refl;
  has_s = refl;
}

open_rfq_round_trip_example :
    open_rfq_from_elems any_key (elems (open_rfq_item small_open_rfq)) ≡ ok small_open_rfq
open_rfq_round_trip_example = open_rfq_round_trip any_key small_open_rfq small_open_rfq-OpenRfqFits

abbrev small_quote_data : QuoteData
small_quote_data = record {
  quoter_id = b'2' ∷ [];
  rfq_tx_hash = replicate 32 1;
  quote_expiry_time = 7;
  base_token = some ether;
  quote_token = some tether;
  base_token_amount = some 1000;
  bid_price = some 8;
  ask_price = some 9;
  encryption_public_keys = [];
}

abbrev small_quote : Quote
small_quote = record {
  from = replicate 20 5;
  body = small_quote_data;
  v = some 27;
  r = some 5;
  s = some 6;
}

-- The auction with a quote on it.
abbrev quoted_open_rfq : OpenRfq
quoted_open_rfq = record small_open_rfq {
  body = record small_auction { quotes = small_quote ∷ [] };
}

open_rfq_with_quotes-Fails_example :
    Fails (open_rfq_from_elems any_key (elems (open_rfq_item quoted_open_rfq)))
open_rfq_with_quotes-Fails_example = open_rfq_with_quotes-Fails any_key quoted_open_rfq (λ e. cc)
