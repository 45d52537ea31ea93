-- ===== src/Types/Decode/RoundTrip.antt =====
-- core/types/*.go: FromInterfaces and OpenRFQ.DecodeRLP after EncodeRLP.
use rfqrelayer.Prelude.{
  ℕ, ◌^◌, ◌<◌, ◌≡◌, refl, sym, ap, ◌∙◌, true, Option, some, List, [], map, arith, leb, length, ok,
  Bytes,
}
use mathlib.Core.Path.{subst}
use rfqrelayer.Prelude.Int.{ℤ, pos, negsuc, int64, uint64}
use rfqrelayer.Prelude.Numbers.{
  big_bytes, put_uint64, be_value-big_bytes, be_value-put_uint64, be_value-left_pad,
  length-big_bytes, set_bytes_self,
}
use rfqrelayer.Types.Data.{Token, SignableData, Quote, RfqData, OpenRfq}
use rfqrelayer.Types.Items.{
  from_items, to_items, quote_item, elems, token_item, signable_data_item, rfq_data_item,
  open_rfq_item,
}
use rfqrelayer.Types.Decode.{
  as_list, must_list, uint64_of, token_from_interfaces, signable_data_from_interfaces,
  rfq_data_from_interfaces, quotes_from_interfaces, open_rfq_from_elems,
}

uint64_of-big_bytes : (n : ℕ) → n < 2 ^ 64 → uint64_of (big_bytes n) ≡ ok n
unfolding uint64_of
uint64_of-big_bytes n h =
    let short : leb (length (big_bytes n)) 8 ≡ true = ground (arith, length-big_bytes 8 n) in
    rw short (ap ok (be_value-left_pad 8 (big_bytes n) ∙ be_value-big_bytes n))

uint64_of-put_uint64 : (n : ℕ) → n < 2 ^ 64 → uint64_of (put_uint64 n) ≡ ok n
unfolding uint64_of
uint64_of-put_uint64 n h =
    unfold put_uint64 in ap ok (be_value-left_pad 8 (put_uint64 n) ∙ be_value-put_uint64 n h)

-- An address has twenty bytes, and the decimals fit a uint64.
pub record TokenFits (t : Token) : Type 0 where
  pub sized : length t.address ≡ 20
  pub fits : t.decimals < 2 ^ 64

pub token_round_trip :
    (t : Token) → TokenFits t → token_from_interfaces (elems (token_item t)) ≡ ok t
unfolding token_from_interfaces token_item
token_round_trip t f =
    rw (uint64_of-big_bytes t.decimals f.fits, set_bytes_self 20 t.address f.sized)

-- A request that names an amount and both tokens, each within its bounds.
pub record RequestFits (d : SignableData) : Type 0 where
  pub amount : ℕ
  pub base : Token
  pub quote : Token
  pub has_amount : d.base_token_amount ≡ some amount
  pub has_base : d.base_token ≡ some base
  pub has_quote : d.quote_token ≡ some quote
  pub base_fits : TokenFits base
  pub quote_fits : TokenFits quote
  pub duration_fits : d.rfq_duration_ms < 2 ^ 64

token-as_list : (t : Token) → as_list (token_item t) ≡ ok (elems (token_item t))
unfolding token_item
token-as_list t = refl

signable_data_fields :
    (requestor_id : Bytes) (amount : ℕ) (base quote : Token) (duration : ℕ)
    → TokenFits base
    → TokenFits quote
    → duration < 2 ^ 64
    → let d : SignableData = record {
      requestor_id = requestor_id;
      base_token_amount = some amount;
      base_token = some base;
      quote_token = some quote;
      rfq_duration_ms = duration;
    } in
      signable_data_from_interfaces (elems (signable_data_item d)) ≡ ok d
unfolding signable_data_from_interfaces signable_data_item
signable_data_fields requestor_id amount base quote duration fb fq h =
    rw (token-as_list base, token_round_trip base fb)
      (rw (token-as_list quote, token_round_trip quote fq)
        (rw (uint64_of-big_bytes duration h, be_value-big_bytes amount)))

pub signable_data_round_trip :
    (d : SignableData)
    → RequestFits d
    → signable_data_from_interfaces (elems (signable_data_item d)) ≡ ok d
signable_data_round_trip d f =
    let filled : SignableData = record d {
      base_token_amount = some f.amount;
      base_token = some f.base;
      quote_token = some f.quote;
    } in
    let same : filled ≡ d = λ i. record d {
      base_token_amount = sym f.has_amount i;
      base_token = sym f.has_base i;
      quote_token = sym f.has_quote i;
    } in
    subst (λ e. signable_data_from_interfaces (elems (signable_data_item e)) ≡ ok e) same
      (signable_data_fields d.requestor_id f.amount f.base f.quote d.rfq_duration_ms f.base_fits
        f.quote_fits f.duration_fits)

abbrev pub InInt64 : ℤ → Type 0
InInt64 (pos n) = n < 2 ^ 63
InInt64 (negsuc n) = n < 2 ^ 63

int64-uint64 : (z : ℤ) → InInt64 z → int64 (uint64 z) ≡ z
int64-uint64 (pos n) h = ground arith
int64-uint64 (negsuc n) h = ground arith

uint64-lt : (z : ℤ) → InInt64 z → uint64 z < 2 ^ 64
uint64-lt (pos n) h = omega arith
uint64-lt (negsuc n) h = omega arith

-- An auction's data that no quote has reached, each part within its bounds.
pub record AuctionFits (d : RfqData) : Type 0 where
  pub hash_sized : length d.rfq_tx_hash ≡ 32
  pub request_fits : RequestFits d.rfq_request
  pub start_fits : InInt64 d.rfq_start_time
  pub end_fits : InInt64 d.rfq_end_time
  pub no_quotes : d.quotes ≡ []
  pub settlement_sized : length d.settlement_contract ≡ 20
  pub matching_sized : length d.matching_contract ≡ 20

signable-as_list :
    (d : SignableData) → as_list (signable_data_item d) ≡ ok (elems (signable_data_item d))
unfolding signable_data_item
signable-as_list d = refl

quotes_empty :
    (parse_key : Bytes → Option Bytes) (qs : List Quote)
    → qs ≡ []
    → quotes_from_interfaces parse_key (from_items (to_items (map quote_item qs))) ≡ ok qs
unfolding quotes_from_interfaces
quotes_empty parse_key qs e = rw e

pub rfq_data_round_trip :
    (parse_key : Bytes → Option Bytes) (d : RfqData)
    → AuctionFits d
    → rfq_data_from_interfaces parse_key (elems (rfq_data_item d)) ≡ ok d
unfolding rfq_data_from_interfaces rfq_data_item
rfq_data_round_trip parse_key d f =
    rw
      (
        f.hash_sized,
        signable-as_list d.rfq_request,
        signable_data_round_trip d.rfq_request f.request_fits,
      )
      (rw (uint64_of-put_uint64 (uint64 d.rfq_start_time) (uint64-lt d.rfq_start_time f.start_fits))
        (rw (uint64_of-put_uint64 (uint64 d.rfq_end_time) (uint64-lt d.rfq_end_time f.end_fits)) (
          rw (
            quotes_empty parse_key d.quotes f.no_quotes,
            set_bytes_self 20 d.settlement_contract f.settlement_sized,
            set_bytes_self 20 d.matching_contract f.matching_sized,
            int64-uint64 d.rfq_start_time f.start_fits,
            int64-uint64 d.rfq_end_time f.end_fits,
          ))))

-- A signed auction record with no quotes, each part within its bounds.
pub record OpenRfqFits (t : OpenRfq) : Type 0 where
  pub from_sized : length t.from ≡ 20
  pub body_fits : AuctionFits t.body
  pub v : ℕ
  pub r : ℕ
  pub s : ℕ
  pub has_v : t.v ≡ some v
  pub has_r : t.r ≡ some r
  pub has_s : t.s ≡ some s

rfq_data-must_list : (d : RfqData) → must_list (rfq_data_item d) ≡ ok (elems (rfq_data_item d))
unfolding rfq_data_item
rfq_data-must_list d = refl

open_rfq_fields :
    (parse_key : Bytes → Option Bytes) (from : Bytes) (d : RfqData) (v r s : ℕ)
    → length from ≡ 20
    → AuctionFits d
    → let t : OpenRfq = record { from = from; body = d; v = some v; r = some r; s = some s } in
      open_rfq_from_elems parse_key (elems (open_rfq_item t)) ≡ ok t
unfolding open_rfq_from_elems open_rfq_item
open_rfq_fields parse_key from d v r s h f =
    rw (h, rfq_data-must_list d, rfq_data_round_trip parse_key d f)
      (rw (be_value-big_bytes v, be_value-big_bytes r, be_value-big_bytes s))

-- Decoding the encoding of a signed auction record that no quote has reached, each part within
-- the bounds of its type, gives the record back.
pub open_rfq_round_trip :
    (parse_key : Bytes → Option Bytes) (t : OpenRfq)
    → OpenRfqFits t
    → open_rfq_from_elems parse_key (elems (open_rfq_item t)) ≡ ok t
open_rfq_round_trip parse_key t f =
    let filled : OpenRfq = record t { v = some f.v; r = some f.r; s = some f.s } in
    let same : filled ≡ t =
      λ i. record t { v = sym f.has_v i; r = sym f.has_r i; s = sym f.has_s i } in
    subst (λ e. open_rfq_from_elems parse_key (elems (open_rfq_item e)) ≡ ok e) same
      (open_rfq_fields parse_key t.from t.body f.v f.r f.s f.from_sized f.body_fits)
