-- ===== src/Types/Validation.antt =====
-- core/types/transaction.go: Validate.
use rfqrelayer.Prelude.{
  ℕ, ◌<◌, ◌≡◌, Bool, false, ◌&&◌, ◌||◌, not, Option, none, some, [], ◌∷◌, arith, leb, if◌then◌else◌,
  length, All, Bytes,
}
use rfqrelayer.Types.Data.{TxData, Transaction, request, open_rfq, quote, sender, Invalid, validate}
use rfqrelayer.Common.Types.{is_hex_address, address_hex}
use rfqrelayer.Common.Types.Checksum.{hex_to_address-address_hex}
use rfqrelayer.Core.Chain.{TxError, verify_tx}

pub data TxInvalid : Type 0 where
  invalid_address invalid_checksum : TxInvalid
  not_verified : TxError → TxInvalid
  invalid_data : Invalid → TxInvalid

-- Has the string a letter of lower case, so that strings.ToUpper changes it? And of upper case?
unfoldable pub has_lower : Bytes → Bool
has_lower [] = false
has_lower (c ∷ s) = (leb b'a' c && leb c b'z') || has_lower s

unfoldable pub has_upper : Bytes → Bool
has_upper [] = false
has_upper (c ∷ s) = (leb b'A' c && leb c b'Z') || has_upper s

unfoldable pub has_mixed_case : Bytes → Bool
has_mixed_case s = has_upper s && has_lower s

module _ (keccak : Bytes → Bytes) where
  unfoldable pub validate_address : Bytes → Option TxInvalid
  validate_address a =
      if not (is_hex_address (address_hex keccak a))
      then some invalid_address
      else if has_mixed_case (address_hex keccak a) && not (is_hex_address (address_hex keccak a))
      then some invalid_checksum
      else none

  -- The address of a sender is never refused.
  pub validate_address-none :
      (a : Bytes) → length a ≡ 20 → All (λ x. x < 256) a → validate_address a ≡ none
  unfolding validate_address
  validate_address-none a l h =
      let right = (hex_to_address-address_hex keccak a l h).0 in ground (arith, right)

  -- The check of the data by the type; that of an auction and that of a quote accept all.
  unfoldable pub validate_data : TxData → Option TxInvalid
  validate_data (request t) = elim (validate t.body) [
    | none ↦ none
    | some e ↦ some (invalid_data e)
  ]
  validate_data (open_rfq t) = none
  validate_data (quote t) = none

  -- Transaction.Validate; `none` is the nil error.
  module _ (tx_hash : Transaction → Bytes) (valid_values : ℕ → ℕ → ℕ → Bool)
      (recover : Bytes → ℕ → ℕ → ℕ → Option Bytes) where
    unfoldable pub validate_tx : Transaction → Option TxInvalid
    validate_tx t = elim (verify_tx tx_hash valid_values recover t) [
      | some e ↦ some (not_verified e)
      | none ↦ elim (validate_address (sender t.inner)) [
        | some e ↦ some e
        | none ↦ validate_data t.inner
      ]
    ]
