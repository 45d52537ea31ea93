-- ===== src/Types/Decode.antt =====
-- core/types/*.go, FromInterfaces and OpenRFQ.DecodeRLP: values read back from the items that rlp
-- decodes. `parse_key` is cryptoocax.BytesToPublicKey, which asks go-ethereum for a curve point.
pub mod RoundTrip
pub mod Quotes
use rfqrelayer.Prelude.{
  ℕ, zero, suc, ◌+◌, ◌-◌, ◌*◌, ◌/◌, ◌%◌, ◌^◌, ◌≤◌, ◌<◌, ◌≡◌, refl, sym, ap, ◌∙◌, ◌≢◌, ◌↔◌, ◌⊎◌, inl,
  inr, Bool, true, false, ◌&&◌, ◌||◌, not, Option, none, some, List, [], ◌∷◌, ◌++◌, map, arith, ltb,
  leb, ◌==◌, if◌then◌else◌, length, get_elem?, set, take, drop, replicate, keep_if, All, Result, ok,
  err, panic, ◌>>=◌, ◌>>◌, Bool-cases, Option-cases, List-cases, length-append, length-take,
  length-drop, length-replicate, length-map, drop-append_length, get_elem?-append,
  get_elem?-append_length, drop-append, drop_one-drop, drop-get_elem?, drop_past, get_elem?-map,
  Bytes, bytes_eq, bytes_eq_iff, bytes_eq_refl, bytes_eq-append, bytes_le, has_prefix,
  has_prefix-append, bytes_le-append,
}
use rfqrelayer.Prelude.Int.{int64}
use rfqrelayer.Prelude.Numbers.{be_value, left_pad, set_bytes}
use rfqrelayer.Types.Data.{Token, SignableData, QuoteData, Quote, RfqData, OpenRfq}
use rfqrelayer.Types.Items.{Item, bytes, list, from_items}

pub data DecodeError : Type 0 where
  wrong_count wrong_type wrong_length bad_key : DecodeError

abbrev pub Decoded : Type 0 → Type 0
Decoded = Result DecodeError

-- `data[i]`, which panics past the end.
abbrev pub at : List Item → ℕ → Decoded Item
at l i = elim (get_elem? l i) [ none ↦ panic | some x ↦ ok x ]

-- `x.([]byte)` and `x.([]interface{})` with their `ok`, and the second without it.
abbrev pub as_bytes : Item → Decoded Bytes
as_bytes (bytes b) = ok b
as_bytes (list l) = err wrong_type

abbrev pub as_list : Item → Decoded (List Item)
as_list (bytes b) = err wrong_type
as_list (list l) = ok (from_items l)

abbrev pub must_list : Item → Decoded (List Item)
must_list (bytes b) = panic
must_list (list l) = ok (from_items l)

abbrev pub require : Bool → DecodeError → Decoded (Unit {0})
require true e = ok tt
require false e = err e

-- A number in at most eight bytes, which are padded on the left.
unfoldable pub uint64_of : Bytes → Decoded ℕ
uint64_of b = do require (leb (length b) 8) wrong_length; ok (be_value (left_pad 8 b))

unfoldable pub token_from_interfaces : List Item → Decoded Token
token_from_interfaces xs = do
  require (length xs == 3) wrong_count
  x0 ← at xs 0
  address_bytes ← as_bytes x0
  x1 ← at xs 1
  symbol_bytes ← as_bytes x1
  x2 ← at xs 2
  decimals_bytes ← as_bytes x2
  decimals ← uint64_of decimals_bytes
  ok (record { address = set_bytes 20 address_bytes; symbol = symbol_bytes; decimals = decimals })

unfoldable pub signable_data_from_interfaces : List Item → Decoded SignableData
signable_data_from_interfaces xs = do
  require (length xs == 5) wrong_count
  x0 ← at xs 0
  requestor_id ← as_bytes x0
  x1 ← at xs 1
  amount ← as_bytes x1
  x2 ← at xs 2
  base_token_data ← as_list x2
  base_token ← token_from_interfaces base_token_data
  x3 ← at xs 3
  quote_token_data ← as_list x3
  quote_token ← token_from_interfaces quote_token_data
  x4 ← at xs 4
  duration_bytes ← as_bytes x4
  duration ← uint64_of duration_bytes
  ok (record {
    requestor_id = requestor_id;
    base_token_amount = some (be_value amount);
    base_token = some base_token;
    quote_token = some quote_token;
    rfq_duration_ms = duration;
  })

module _ (parse_key : Bytes → Option Bytes) where
  -- The loop over the encryption keys.
  unfoldable pub keys_from_interfaces : List Item → Decoded (List Bytes)
  keys_from_interfaces [] = ok []
  keys_from_interfaces (x ∷ xs) = do
    b ← as_bytes x
    k ← elim (parse_key b) [ none ↦ err bad_key | some k ↦ ok k ]
    ks ← keys_from_interfaces xs
    ok (k ∷ ks)

  unfoldable pub quote_data_from_interfaces : List Item → Decoded QuoteData
  quote_data_from_interfaces xs = do
    require (length xs == 8) wrong_count
    x0 ← at xs 0
    quoter_id ← as_bytes x0
    x1 ← at xs 1
    hash_bytes ← as_bytes x1
    require (length hash_bytes == 32) wrong_length
    x2 ← at xs 2
    expiry_bytes ← as_bytes x2
    expiry ← uint64_of expiry_bytes
    x3 ← at xs 3
    base_token_data ← as_list x3
    base_token ← token_from_interfaces base_token_data
    x4 ← at xs 4
    quote_token_data ← as_list x4
    quote_token ← token_from_interfaces quote_token_data
    x5 ← at xs 5
    amount ← as_bytes x5
    x6 ← at xs 6
    bid_price ← as_bytes x6
    x7 ← at xs 7
    ask_price ← as_bytes x7
    x8 ← at xs 8
    key_items ← as_list x8
    ks ← keys_from_interfaces key_items
    ok (record {
      quoter_id = quoter_id;
      rfq_tx_hash = hash_bytes;
      quote_expiry_time = expiry;
      base_token = some base_token;
      quote_token = some quote_token;
      base_token_amount = some (be_value amount);
      bid_price = some (be_value bid_price);
      ask_price = some (be_value ask_price);
      encryption_public_keys = ks;
    })

  unfoldable pub quote_from_interfaces : List Item → Decoded Quote
  quote_from_interfaces xs = do
    require (length xs == 5) wrong_count
    x0 ← at xs 0
    from_bytes ← as_bytes x0
    require (length from_bytes == 20) wrong_length
    x1 ← at xs 1
    data_items ← must_list x1
    qd ← quote_data_from_interfaces data_items
    x2 ← at xs 2
    v_bytes ← as_bytes x2
    require (length v_bytes == 1) wrong_length
    x3 ← at xs 3
    r_bytes ← as_bytes x3
    require (length r_bytes == 32) wrong_length
    x4 ← at xs 4
    s_bytes ← as_bytes x4
    require (length s_bytes == 32) wrong_length
    ok (record {
      from = set_bytes 20 from_bytes;
      body = qd;
      v = some (be_value v_bytes);
      r = some (be_value r_bytes);
      s = some (be_value s_bytes);
    })

  -- The loop over the quotes.
  unfoldable pub quotes_from_interfaces : List Item → Decoded (List Quote)
  quotes_from_interfaces [] = ok []
  quotes_from_interfaces (x ∷ xs) = do
    items ← as_list x
    q ← quote_from_interfaces items
    qs ← quotes_from_interfaces xs
    ok (q ∷ qs)

  unfoldable pub rfq_data_from_interfaces : List Item → Decoded RfqData
  rfq_data_from_interfaces xs = do
    require (length xs == 8) wrong_count
    x0 ← at xs 0
    hash_bytes ← as_bytes x0
    require (length hash_bytes == 32) wrong_length
    x1 ← at xs 1
    request_items ← as_list x1
    rfq_request ← signable_data_from_interfaces request_items
    x2 ← at xs 2
    start_bytes ← as_bytes x2
    start ← uint64_of start_bytes
    x3 ← at xs 3
    end_bytes ← as_bytes x3
    end ← uint64_of end_bytes
    x4 ← at xs 4
    quote_items ← as_list x4
    quotes ← quotes_from_interfaces quote_items
    x5 ← at xs 5
    settlement ← as_bytes x5
    x6 ← at xs 6
    matching ← as_bytes x6
    x7 ← at xs 7
    status_bytes ← as_bytes x7
    ok (record {
      rfq_tx_hash = hash_bytes;
      rfq_request = rfq_request;
      rfq_start_time = int64 start;
      rfq_end_time = int64 end;
      quotes = quotes;
      settlement_contract = set_bytes 20 settlement;
      matching_contract = set_bytes 20 matching;
      status = status_bytes;
    })

  -- OpenRFQ.DecodeRLP, from the decoded list of elements.
  unfoldable pub open_rfq_from_elems : List Item → Decoded OpenRfq
  open_rfq_from_elems xs = do
    require (length xs == 5) wrong_count
    x0 ← at xs 0
    from_bytes ← as_bytes x0
    require (length from_bytes == 20) wrong_length
    x1 ← at xs 1
    data_items ← must_list x1
    body ← rfq_data_from_interfaces data_items
    x2 ← at xs 2
    v_bytes ← as_bytes x2
    x3 ← at xs 3
    r_bytes ← as_bytes x3
    x4 ← at xs 4
    s_bytes ← as_bytes x4
    ok (record {
      from = from_bytes;
      body = body;
      v = some (be_value v_bytes);
      r = some (be_value r_bytes);
      s = some (be_value s_bytes);
    })
