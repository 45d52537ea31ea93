-- ===== src/Types/Signing.antt =====
-- core/types/transaction_signing.go and the methods of a transaction that set and check a signature.
-- The cache of Sender is left out: Equal asks for a value where NewSigner makes a pointer.
pub mod Recovery
use rfqrelayer.Prelude.{
  ℕ, zero, suc, ◌+◌, ◌-◌, ◌*◌, ◌/◌, ◌%◌, ◌^◌, ◌≤◌, ◌<◌, ◌≡◌, refl, sym, ap, ◌∙◌, ◌≢◌, ◌↔◌, ◌⊎◌, inl,
  inr, Bool, true, false, ◌&&◌, ◌||◌, not, Option, none, some, List, [], ◌∷◌, ◌++◌, map, arith, ltb,
  leb, ◌==◌, if◌then◌else◌, length, get_elem?, set, take, drop, replicate, keep_if, All, Result, ok,
  err, panic, ◌>>=◌, ◌>>◌, Bool-cases, Option-cases, List-cases, length-append, length-take,
  length-drop, length-replicate, length-map, drop-append_length, get_elem?-append,
  get_elem?-append_length, drop-append, drop_one-drop, drop-get_elem?, drop_past, get_elem?-map,
  Bytes, bytes_eq, bytes_eq_iff, bytes_eq_refl, bytes_eq-append, bytes_le, has_prefix,
  has_prefix-append, bytes_le-append,
}
use rfqrelayer.Prelude.Numbers.{be_value, big_bytes}
use rfqrelayer.Crypto.Signatures.{Signature, SigError, byte_at, pad_word, to_bytes, read_signature}
use rfqrelayer.Crypto.Signatures
use rfqrelayer.Types.Data.{
  TxData, Transaction, raw_signature_values, set_signature_values, copy, new_tx,
}

pub data SigningError : Type 0 where
  invalid_sig not_recovered bad_public_key : SigningError
  not_signed : SigError → SigningError

-- An error of the keys, as it is passed on.
abbrev pub passed_on {ℓ} : {A : Type ℓ} → Result SigError A → Result SigningError A
passed_on (ok a) = ok a
passed_on (err e) = err (not_signed e)
passed_on panic = panic

-- SignatureValues; a signature of another length than 65 is refused.
unfoldable pub signature_values : Bytes → Result SigningError Signature
signature_values sig = if not (length sig == 65) then err invalid_sig else ok (read_signature sig)

unfoldable pub with_signature : Transaction → Bytes → Result SigningError Transaction
with_signature t sig = do
  values ← signature_values sig
  ok (record {
    inner = set_signature_values (copy t.inner) (some values.v) (some values.r) (some values.s);
  })

-- SignatureToBytes
unfoldable pub signature_to_bytes : ℕ → ℕ → ℕ → Result SigningError Bytes
signature_to_bytes r s v = do
  r' ← passed_on (pad_word r)
  s' ← passed_on (pad_word s)
  ok (r' ++ s' ++ v ∷ [])

-- `signer_hash` is the Hash of the signer, `tx_hash` that of a transaction, and `crypto_sign` what
-- go-ethereum's Sign does with the key.
module _ (signer_hash : Transaction → Bytes) (tx_hash : Transaction → Bytes)
    (crypto_sign : Bytes → Option Bytes) where
  unfoldable pub sign_tx : Transaction → Result SigningError Transaction
  sign_tx t = do
    sig ← passed_on (Signatures.sign crypto_sign (signer_hash t))
    b ← passed_on (to_bytes sig)
    with_signature t b

  -- The numbers are written without their leading zeros.
  unfoldable pub sign_new_tx : TxData → Result SigningError Transaction
  sign_new_tx inner = do
    sig ← passed_on (Signatures.sign crypto_sign (tx_hash (new_tx inner)))
    with_signature (new_tx inner) (big_bytes sig.r ++ big_bytes sig.s ++ sig.v % 256 ∷ [])

  -- Transaction.Sign sets the values of the transaction itself.
  unfoldable pub sign : Transaction → Result SigningError Transaction
  sign t = do
    sig ← passed_on (Signatures.sign crypto_sign (tx_hash t))
    ok (record { inner = set_signature_values t.inner (some sig.v) (some sig.r) (some sig.s) })

-- `valid_values` is the check of the values of a signature, `ecrecover` gives the public key that
-- made a signature of a digest, and `keccak` is Keccak-256.
module _ (valid_values : ℕ → ℕ → ℕ → Bool) (ecrecover : Bytes → Bytes → Option Bytes)
    (keccak : Bytes → Bytes) where
  -- An uncompressed key starts with 4; the address is made of 20 bytes of the digest of the rest.
  unfoldable pub address_of : Bytes → Result SigningError Bytes
  address_of [] = err bad_public_key
  address_of (p ∷ pub_key) =
      if not (p == 4) then err bad_public_key else ok (take 20 (drop 12 (keccak pub_key)))

  -- recoverPlain. 27 is taken from `v` as an unsigned number, of which the last byte is kept.
  unfoldable pub recover_plain : Bytes → ℕ → ℕ → ℕ → Result SigningError Bytes
  recover_plain digest r s v =
      if not (ltb v 256)
      then err invalid_sig
      else let byte = (v + 2 ^ 64 - 27) % 2 ^ 64 % 256 in
        if not (valid_values byte r s) then panic else do
          sig ← signature_to_bytes r s byte
          elim (ecrecover digest sig) [ none ↦ err not_recovered | some key ↦ address_of key ]

  -- Sender of the signer; a nil value panics.
  unfoldable pub sender_of : (Transaction → Bytes) → Transaction → Result SigningError Bytes
  sender_of signer_hash t =
      let (v, r, s) = raw_signature_values t.inner in
      elim v [
        | none ↦ panic
        | some v' ↦ elim r [
          | none ↦ panic
          | some r' ↦ elim s [ none ↦ panic | some s' ↦ recover_plain (signer_hash t) r' s' v' ]
        ]
      ]
