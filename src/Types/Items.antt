-- ===== src/Types/Items.antt =====
-- core/types/*.go, EncodeRLP: the tree of byte strings and lists that a value is encoded as. The
-- step from the tree to bytes is the package rlp's.
use rfqrelayer.Prelude.{ℕ, Option, none, some, List, [], ◌∷◌, map, Bytes}
use rfqrelayer.Prelude.Int.{uint64}
use rfqrelayer.Prelude.Numbers.{big_bytes, put_uint64}
use rfqrelayer.Types.Data.{
  Token, SignableData, RfqRequest, QuoteData, Quote, RfqData, OpenRfq, TxData, request, open_rfq,
  quote,
}

-- What rlp decodes into an interface{}: a byte string or a list of items.
mutual
  pub data Item : Type 0 where
    bytes : Bytes → Item
    list : Items → Item

  pub data Items : Type 0 where
    nil : Items
    cons : Item → Items → Items

abbrev pub to_items : List Item → Items
to_items [] = nil
to_items (x ∷ xs) = cons x (to_items xs)

abbrev pub from_items : Items → List Item
from_items nil = []
from_items (cons x xs) = x ∷ from_items xs

abbrev pub list_of : List Item → Item
list_of xs = list (to_items xs)

-- An unsigned number, and a pointer to a big.Int, of which nil is the empty string.
abbrev pub uint_item : ℕ → Item
uint_item n = bytes (big_bytes n)

abbrev pub big_item : Option ℕ → Item
big_item none = bytes []
big_item (some n) = uint_item n

unfoldable pub token_item : Token → Item
token_item t = list_of (bytes t.address ∷ bytes t.symbol ∷ uint_item t.decimals ∷ [])

-- A nil pointer to a struct is the empty list.
abbrev pub token_ref_item : Option Token → Item
token_ref_item none = list_of []
token_ref_item (some t) = token_item t

unfoldable pub signable_data_item : SignableData → Item
signable_data_item d = list_of (
    bytes d.requestor_id
    ∷ big_item d.base_token_amount
    ∷ token_ref_item d.base_token
    ∷ token_ref_item d.quote_token
    ∷ uint_item d.rfq_duration_ms
    ∷ [])

unfoldable pub rfq_request_item : RfqRequest → Item
rfq_request_item t =
    list_of
      (bytes t.from ∷ signable_data_item t.body ∷ big_item t.v ∷ big_item t.r ∷ big_item t.s ∷ [])

unfoldable pub quote_data_item : QuoteData → Item
quote_data_item d = list_of (
    bytes d.quoter_id
    ∷ bytes d.rfq_tx_hash
    ∷ uint_item d.quote_expiry_time
    ∷ token_ref_item d.base_token
    ∷ token_ref_item d.quote_token
    ∷ big_item d.base_token_amount
    ∷ big_item d.bid_price
    ∷ big_item d.ask_price
    ∷ list_of (map bytes d.encryption_public_keys)
    ∷ [])

unfoldable pub quote_item : Quote → Item
quote_item q =
    list_of
      (bytes q.from ∷ quote_data_item q.body ∷ big_item q.v ∷ big_item q.r ∷ big_item q.s ∷ [])

unfoldable pub rfq_data_item : RfqData → Item
rfq_data_item d = list_of (
    bytes d.rfq_tx_hash
    ∷ signable_data_item d.rfq_request
    ∷ bytes (put_uint64 (uint64 d.rfq_start_time))
    ∷ bytes (put_uint64 (uint64 d.rfq_end_time))
    ∷ list_of (map quote_item d.quotes)
    ∷ bytes d.settlement_contract
    ∷ bytes d.matching_contract
    ∷ bytes d.status
    ∷ [])

unfoldable pub open_rfq_item : OpenRfq → Item
open_rfq_item t =
    list_of (bytes t.from ∷ rfq_data_item t.body ∷ big_item t.v ∷ big_item t.r ∷ big_item t.s ∷ [])

-- `tx.inner.data()` before it is turned to bytes.
unfoldable pub data_item : TxData → Item
data_item (request t) = signable_data_item t.body
data_item (open_rfq t) = rfq_data_item t.body
data_item (quote t) = quote_data_item t.body

abbrev pub elems : Item → List Item
elems (bytes b) = []
elems (list l) = from_items l
