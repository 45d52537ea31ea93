-- ===== src/Examples/Signing.antt =====
-- Signatures and signed transactions at concrete inputs.
use rfqrelayer.Prelude.{
  ℕ, zero, suc, ◌^◌, ◌≡◌, refl, Bool, ◌&&◌, Option, none, some, arith, leb, if◌then◌else◌, length,
  take, replicate, ok, err, panic, Bytes,
}
use rfqrelayer.Prelude.Numbers.{be_value}
use rfqrelayer.Crypto.Signatures.{Signature, to_bytes, deserialize_sig}
use rfqrelayer.Crypto.Signatures.Words.{AreBytes}
use rfqrelayer.Crypto.Signatures.RoundTrip.{deserialize_sig-to_bytes}
use rfqrelayer.Types.Data.{Transaction, new_tx}
use rfqrelayer.Types.Signing.{sign_tx, sign_new_tx, with_signature, sender_of, invalid_sig}
use rfqrelayer.Types.Signing.Recovery.{sender_of-sign_tx, sign_new_tx_lem}
use rfqrelayer.Examples.Blocks.{tx_of}

abbrev small_sig : Signature
small_sig = record { v = 1; r = 5; s = 7 }

deserialize_sig-to_bytes_example :
    (b : Bytes) × (to_bytes small_sig ≡ ok b) × (length b ≡ 65) × (deserialize_sig b ≡ ok small_sig)
deserialize_sig-to_bytes_example =
    deserialize_sig-to_bytes small_sig (omega arith) (omega arith) (omega arith)

abbrev signer_hash : Transaction → Bytes
signer_hash t = replicate 32 9

-- A key that makes the same signature for every digest.
abbrev crypto_sign : Bytes → Option Bytes
crypto_sign digest = some (replicate 65 1)

ones-AreBytes : (n : ℕ) → AreBytes (replicate n 1)
ones-AreBytes zero = tt
ones-AreBytes (suc n) = (omega arith, ones-AreBytes n)

abbrev valid_values : ℕ → ℕ → ℕ → Bool
valid_values v r s = leb v 1

abbrev ecrecover : Bytes → Bytes → Option Bytes
ecrecover digest sig = none

abbrev keccak : Bytes → Bytes
keccak b = take 32 b

sender_of-sign_tx_example :
    (t : Transaction) × (sign_tx signer_hash signer_hash crypto_sign (tx_of 3) ≡ ok t)
    × (sender_of valid_values ecrecover keccak signer_hash t ≡ panic)
sender_of-sign_tx_example =
    sender_of-sign_tx signer_hash signer_hash crypto_sign valid_values ecrecover keccak (tx_of 3)
      (replicate 65 1) refl refl (ones-AreBytes 65) (omega arith) (λ v r s h. ground arith)

sign_new_tx_lem_example : sign_new_tx signer_hash signer_hash crypto_sign ((tx_of 3).inner) ≡ (
    if leb (256 ^ 31) (be_value (replicate 32 1)) && leb (256 ^ 31) (be_value (replicate 32 1))
    then with_signature (new_tx ((tx_of 3).inner)) (replicate 65 1)
    else err invalid_sig)
sign_new_tx_lem_example =
    sign_new_tx_lem signer_hash signer_hash crypto_sign ((tx_of 3).inner) (replicate 65 1) refl refl
      (ones-AreBytes 65) (omega arith)
