-- ===== src/Types/Data.antt =====
-- core/types/tx_rfq_request.go, tx_open_rfq.go, tx_quote.go and transaction.go: the data of the
-- transactions. A nil pointer is `none`; strings are their bytes. Amounts, prices and signature
-- values are big.Int that are not negative: rlp refuses the others. Caches and clock times of a
-- transaction are left out.
use rfqrelayer.Prelude.{
  ℕ, Option, none, some, List, [], ◌∷◌, ◌==◌, if◌then◌else◌, length, replicate, Bytes,
}
use rfqrelayer.Prelude.Int.{ℤ, pos, negsuc}

pub record Token : Type 0 where
  pub address : Bytes
  pub symbol : Bytes
  pub decimals : ℕ

-- SignableData, whose amount is a *big.Int. From JSON it may be any integer, an `A`.
pub record SignableDataOf (A : Type 0) : Type 0 where
  pub requestor_id : Bytes
  pub base_token_amount : Option A
  pub base_token : Option Token
  pub quote_token : Option Token
  pub rfq_duration_ms : ℕ

-- The data that are hashed and stored. rlp refuses a negative amount, on which data() panics, so that
-- the hash of a transaction is one of an amount that is not negative.
abbrev pub SignableData : Type 0
SignableData = SignableDataOf ℕ

abbrev pub with_amount : SignableDataOf ℤ → Option ℕ → SignableData
with_amount d o = record {
  requestor_id = d.requestor_id;
  base_token_amount = o;
  base_token = d.base_token;
  quote_token = d.quote_token;
  rfq_duration_ms = d.rfq_duration_ms;
}

-- The data as they are hashed; `none` is the panic.
unfoldable pub hashed_data : SignableDataOf ℤ → Option SignableData
hashed_data d = elim d.base_token_amount [
  | none ↦ some (with_amount d none)
  | some z ↦ elim z [ pos n ↦ some (with_amount d (some n)) | negsuc n ↦ none ]
]

pub record RfqRequest : Type 0 where
  pub from : Bytes
  pub body : SignableData
  pub v : Option ℕ
  pub r : Option ℕ
  pub s : Option ℕ

pub record QuoteData : Type 0 where
  pub quoter_id : Bytes
  pub rfq_tx_hash : Bytes
  pub quote_expiry_time : ℕ
  pub base_token : Option Token
  pub quote_token : Option Token
  pub base_token_amount : Option ℕ
  pub bid_price : Option ℕ
  pub ask_price : Option ℕ
  pub encryption_public_keys : List Bytes

pub record Quote : Type 0 where
  pub from : Bytes
  pub body : QuoteData
  pub v : Option ℕ
  pub r : Option ℕ
  pub s : Option ℕ

-- RFQStatus, a string.
abbrev pub status_open : Bytes
status_open = b'O' ∷ b'P' ∷ b'E' ∷ b'N' ∷ []

abbrev pub status_closed : Bytes
status_closed = b'C' ∷ b'L' ∷ b'O' ∷ b'S' ∷ b'E' ∷ b'D' ∷ []

abbrev pub status_matched : Bytes
status_matched = b'M' ∷ b'A' ∷ b'T' ∷ b'C' ∷ b'H' ∷ b'E' ∷ b'D' ∷ []

abbrev pub status_settled : Bytes
status_settled = b'S' ∷ b'E' ∷ b'T' ∷ b'T' ∷ b'L' ∷ b'E' ∷ b'D' ∷ []

pub record RfqData : Type 0 where
  pub rfq_tx_hash : Bytes
  pub rfq_request : SignableData
  pub rfq_start_time : ℤ
  pub rfq_end_time : ℤ
  pub quotes : List Quote
  pub settlement_contract : Bytes
  pub matching_contract : Bytes
  pub status : Bytes

pub record OpenRfq : Type 0 where
  pub from : Bytes
  pub body : RfqData
  pub v : Option ℕ
  pub r : Option ℕ
  pub s : Option ℕ

-- Close, Matched and Settled.
unfoldable pub close : RfqData → RfqData
close d = record d { status = status_closed }

unfoldable pub matched : RfqData → RfqData
matched d = record d { status = status_matched }

unfoldable pub settled : RfqData → RfqData
settled d = record d { status = status_settled }

-- TxData: its methods are not exported, so that no other type implements it.
pub data TxData : Type 0 where
  request : RfqRequest → TxData
  open_rfq : OpenRfq → TxData
  quote : Quote → TxData

pub record Transaction : Type 0 where
  pub inner : TxData

abbrev pub rfq_request_tx_type : ℕ
rfq_request_tx_type = 0

abbrev pub open_rfq_tx_type : ℕ
open_rfq_tx_type = 1

abbrev pub quote_tx_type : ℕ
quote_tx_type = 5

unfoldable pub tx_type : TxData → ℕ
tx_type (request t) = rfq_request_tx_type
tx_type (open_rfq t) = open_rfq_tx_type
tx_type (quote t) = quote_tx_type

unfoldable pub sender : TxData → Bytes
sender (request t) = t.from
sender (open_rfq t) = t.from
sender (quote t) = t.from

unfoldable pub reference_tx_hash : TxData → Bytes
reference_tx_hash (request t) = replicate 32 0
reference_tx_hash (open_rfq t) = t.body.rfq_tx_hash
reference_tx_hash (quote t) = t.body.rfq_tx_hash

unfoldable pub raw_signature_values : TxData → Option ℕ × Option ℕ × Option ℕ
raw_signature_values (request t) = (t.v, t.r, t.s)
raw_signature_values (open_rfq t) = (t.v, t.r, t.s)
raw_signature_values (quote t) = (t.v, t.r, t.s)

unfoldable pub set_signature_values : TxData → Option ℕ → Option ℕ → Option ℕ → TxData
set_signature_values (request t) v r s = request (record t { v = v; r = r; s = s })
set_signature_values (open_rfq t) v r s = open_rfq (record t { v = v; r = r; s = s })
set_signature_values (quote t) v r s = quote (record t { v = v; r = r; s = s })

-- A copy gives a nil signature value the number 0.
abbrev pub or_zero : Option ℕ → Option ℕ
or_zero none = some 0
or_zero (some n) = some n

unfoldable pub copy : TxData → TxData
copy (request t) = request (record t { v = or_zero t.v; r = or_zero t.r; s = or_zero t.s })
copy (open_rfq t) = open_rfq (record t { v = or_zero t.v; r = or_zero t.r; s = or_zero t.s })
copy (quote t) = quote (record t { v = or_zero t.v; r = or_zero t.r; s = or_zero t.s })

unfoldable pub new_tx : TxData → Transaction
unfolding copy
new_tx inner = record { inner = copy inner }

-- The errors of SignableData.Validate, in the order of its tests.
pub data Invalid : Type 0 where
  no_requestor no_amount no_base_token no_quote_token no_duration : Invalid

-- SignableData.Validate; `none` is the nil error.
unfoldable pub validate : {A : Type 0} → SignableDataOf A → Option Invalid
validate d = if length d.requestor_id == 0 then some no_requestor else elim d.base_token_amount [
  | none ↦ some no_amount
  | some _ ↦ elim d.base_token [
    | none ↦ some no_base_token
    | some _ ↦ elim d.quote_token [
      | none ↦ some no_quote_token
      | some _ ↦ if d.rfq_duration_ms == 0 then some no_duration else none
    ]
  ]
]
