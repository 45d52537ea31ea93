-- ===== src/Core/Chain.antt =====
-- core/blockchain.go, the part that keeps the chain of headers, and core/block_validator.go. The
-- code returns its errors before the chain changes, so that a result carries a state only if there
-- is none.
pub mod Linked
pub mod Accepted
pub mod Stored
use rfqrelayer.Prelude.{
  ℕ, zero, suc, ◌+◌, ◌-◌, ◌*◌, ◌/◌, ◌%◌, ◌^◌, ◌≤◌, ◌<◌, ◌≡◌, refl, sym, ap, ◌∙◌, ◌≢◌, ◌↔◌, ◌⊎◌, inl,
  inr, Bool, true, false, ◌&&◌, ◌||◌, not, Option, none, some, List, [], ◌∷◌, ◌++◌, map, arith, ltb,
  leb, ◌==◌, if◌then◌else◌, length, get_elem?, set, take, drop, replicate, keep_if, All, Result, ok,
  err, panic, ◌>>=◌, ◌>>◌, Bool-cases, Option-cases, List-cases, length-append, length-take,
  length-drop, length-replicate, length-map, drop-append_length, get_elem?-append,
  get_elem?-append_length, drop-append, drop_one-drop, drop-get_elem?, drop_past, get_elem?-map,
  Bytes, bytes_eq, bytes_eq_iff, bytes_eq_refl, bytes_eq-append, bytes_le, has_prefix,
  has_prefix-append, bytes_le-append,
}
use rfqrelayer.Prelude.Int.{ℤ, pos, negsuc, leb_ℤ, ltb_ℤ}
use rfqrelayer.Rfqdb.Interfaces.{Writer, Database}
use rfqrelayer.Types.Data.{Transaction, sender, raw_signature_values}
use rfqrelayer.Types.Block.{Header, Body, Block, RawBlock, BlockError, verify}
use rfqrelayer.Rawdb.Blocks.{write_block, nothing_read, read_panics, read_back, read_block}

-- Blockchain, the fields of the headers; `validating` is whether it has a validator.
pub record Ledger (S : Type 0) : Type 0 where
  pub headers : List Header
  pub db : S
  pub current_block : Option Header
  pub genesis_block : Option Block
  pub validating : Bool

pub data TxError : Type 0 where
  unsigned invalid_values not_recovered wrong_sender : TxError

pub data ChainError : Type 0 where
  malformed block_known too_high no_header parent_mismatch too_low not_stored : ChainError
  invalid_block : BlockError → ChainError
  invalid_tx : TxError → ChainError

module _ {S : Type 0} where
  -- Height, the index of the last header.
  unfoldable pub height : Ledger S → ℤ
  height c = elim (length c.headers) [ zero ↦ negsuc 0 | suc n ↦ pos n ]

  unfoldable pub has_block : ℕ → Ledger S → Bool
  has_block n c = not (ltb_ℤ (height c) (pos n))

  -- An index out of range panics.
  unfoldable pub get_block_header : ℤ → Ledger S → Result ChainError Header
  get_block_header z c = if ltb_ℤ (pos (length c.headers)) z then err no_header else elim z [
    | negsuc _ ↦ panic
    | pos n ↦ elim (get_elem? c.headers n) [ none ↦ panic | some h ↦ ok h ]
  ]

abbrev pub previous : ℕ → ℤ
previous zero = negsuc 0
previous (suc n) = pos n

-- Transaction.Verify. `valid_values` is the check of the values of a signature, and `recover` gives
-- the address of the key that signed a digest.
module _ (tx_hash : Transaction → Bytes) (valid_values : ℕ → ℕ → ℕ → Bool)
    (recover : Bytes → ℕ → ℕ → ℕ → Option Bytes) where
  unfoldable pub check_values : Transaction → ℕ → ℕ → ℕ → Option TxError
  check_values t v r s =
      if not (valid_values (v % 256) r s)
      then some invalid_values
      else elim (recover (tx_hash t) v r s) [
        | none ↦ some not_recovered
        | some address ↦ if bytes_eq (sender t.inner) address then none else some wrong_sender
      ]

  -- `none` is the nil error.
  unfoldable pub verify_tx : Transaction → Option TxError
  verify_tx t =
      let (v, r, s) = raw_signature_values t.inner in
      elim r [
        | none ↦ some unsigned
        | some r' ↦ elim s [
          | none ↦ some unsigned
          | some s' ↦ elim v [ none ↦ some unsigned | some v' ↦ check_values t v' r' s' ]
        ]
      ]

  -- The loop of VerifyBlock over the transactions.
  unfoldable pub verify_txs : List Transaction → Option TxError
  verify_txs [] = none
  verify_txs (t ∷ ts) =
      let rest = verify_txs ts in elim (verify_tx t) [ none ↦ rest | some e ↦ some e ]

  module _ {S : Type 0} (w : Writer S) (keccak : Bytes → Bytes)
      (verify_signature : Bytes → Bytes → Bytes → Bool) (header_hash : Header → Bytes)
      (encode_header : Header → Bytes) (encode_body : Body → Bytes) where
    -- ValidateBlock of the BlockValidator.
    unfoldable pub validate_block : Block → Ledger S → Result ChainError (Unit {0})
    validate_block b c =
        if has_block b.header.height c
        then err block_known
        else if not (b.header.height == length c.headers)
        then err too_high
        else (get_block_header (previous b.header.height) c >>= λ prev.
            if not (bytes_eq (header_hash prev) b.header.parent_hash)
            then err parent_mismatch
            else elim (verify keccak tx_hash verify_signature b) [
              | ok _ ↦ ok tt
              | err e ↦ err (invalid_block e)
              | panic ↦ panic
            ])

    unfoldable pub add_block_without_validation : Block → Ledger S → Ledger S
    add_block_without_validation b c =
        let headers = c.headers ++ b.header ∷ [] in
        record c {
          headers = headers;
          db = write_block w header_hash encode_header encode_body b c.db;
          current_block = some b.header;
          genesis_block = if length headers == 1 then some b else c.genesis_block;
        }

    -- VerifyBlock of a block with a header.
    unfoldable pub check_and_add : Block → Ledger S → Result ChainError (Ledger S)
    check_and_add b c = (if c.validating then validate_block b c else ok tt) >>= λ _.
        elim (verify_txs b.transactions) [
          | some e ↦ err (invalid_tx e)
          | none ↦ ok (add_block_without_validation b c)
        ]

    -- VerifyBlock; a nil block is `none`. Header copies the header of the block before the test
    -- whether it is nil, and panics if it is.
    unfoldable pub verify_block : Option RawBlock → Ledger S → Result ChainError (Ledger S)
    verify_block none c = err malformed
    verify_block (some r) c = elim r.header [
      | none ↦ panic
      | some h ↦
          check_and_add
            (record { header = h; transactions = r.transactions; validator = r.validator }) c
    ]

-- GetBlock at a height, with the number of readers that hold the lock before and after. An error past
-- the first test leaves it held.
module _ {S I : Type 0} (d : Database S I) (decode_header : Bytes → Option Header)
    (decode_body : Bytes → Option Body) (header_hash : Header → Bytes) where
  unfoldable pub get_block : ℕ → Ledger S → ℕ → Result ChainError Block × ℕ
  get_block n c readers =
      if ltb_ℤ (height c) (pos n)
      then (err too_low, readers)
      else elim (get_block_header (pos n) c) [
        | err e ↦ (err e, suc readers)
        | panic ↦ (panic, suc readers)
        | ok h ↦ elim (read_block d decode_header decode_body c.db (header_hash h) n) [
          | nothing_read ↦ (err not_stored, suc readers)
          | read_panics ↦ (panic, suc readers)
          | read_back b ↦ (ok b, readers)
        ]
      ]
