-- ===== src/Types/Signing/Recovery.antt =====
-- core/types/transaction_signing.go: what comes of the transactions that are signed.
use rfqrelayer.Prelude.{
  ℕ, ◌+◌, ◌-◌, ◌%◌, ◌^◌, ◌≤◌, ◌<◌, ◌≡◌, refl, ap, inl, inr, Bool, true, false, ◌&&◌, Option, some,
  [], ◌∷◌, ◌++◌, arith, ltb, leb, ◌==◌, if◌then◌else◌, length, take, drop, ok, err, panic,
  Bool-cases, length-append, Bytes,
}
use rfqrelayer.Prelude.Numbers.{be_value, big_bytes, length-big_bytes}
use rfqrelayer.Crypto.Signatures.{byte_at}
use rfqrelayer.Crypto.Signatures.Words.{AreBytes, full_word, be_word-lt}
use rfqrelayer.Crypto.Signatures.RoundTrip.{to_bytes-read_signature, sign_lem, words, join_words}
use rfqrelayer.Types.Data.{
  TxData, Transaction, request, open_rfq, quote, raw_signature_values, set_signature_values, copy,
  new_tx,
}
use rfqrelayer.Types.Signing.{
  invalid_sig, signature_values, with_signature, sign_tx, sign_new_tx, recover_plain, sender_of,
}

raw-set_signature_values :
    (d : TxData) (v r s : Option ℕ)
    → raw_signature_values (set_signature_values d v r s) ≡ (v, r, s)
unfolding raw_signature_values set_signature_values
raw-set_signature_values (request t) v r s = refl
raw-set_signature_values (open_rfq t) v r s = refl
raw-set_signature_values (quote t) v r s = refl

module _ (signer_hash : Transaction → Bytes) (tx_hash : Transaction → Bytes)
    (crypto_sign : Bytes → Option Bytes) where
  -- A signature that the key makes has 65 bytes, the last of which is 0 or 1: SignTx gives the copy of
  -- the transaction with the values of these bytes.
  pub sign_tx_lem :
      (t : Transaction) (b : Bytes)
      → crypto_sign (signer_hash t) ≡ some b
      → length b ≡ 65
      → AreBytes b
      → byte_at b 64 ≤ 1
      → sign_tx signer_hash tx_hash crypto_sign t
        ≡ ok (record {
          inner =
              set_signature_values
                (copy t.inner)
                (some (byte_at b 64))
                (some (be_value (take 32 b)))
                (some (be_value (take 32 (drop 32 b))));
        })
  unfolding sign_tx with_signature signature_values
  sign_tx_lem t b e l h id =
      let size : (length b == 65) ≡ true = ground arith in
      rw (sign_lem crypto_sign (signer_hash t) b e l id, to_bytes-read_signature b l h)
        (rw size refl)

  module _ (valid_values : ℕ → ℕ → ℕ → Bool) (ecrecover : Bytes → Bytes → Option Bytes)
      (keccak : Bytes → Bytes) where
    minus_27 : (v : ℕ) → v ≤ 1 → (ltb v 256 ≡ true) × (1 < (v + 2 ^ 64 - 27) % 2 ^ 64 % 256)
    minus_27 v h = (ground arith, omega arith)

    recover_plain-panic :
        (digest : Bytes) (r s v : ℕ)
        → v ≤ 1
        → ((w : ℕ) → valid_values w r s ≡ true → w ≤ 1)
        → recover_plain valid_values ecrecover keccak digest r s v ≡ panic
    unfolding recover_plain
    recover_plain-panic digest r s v h small =
        let (byte, big) = minus_27 v h in
        elim (Bool-cases (valid_values ((v + 2 ^ 64 - 27) % 2 ^ 64 % 256) r s)) [
          | inl passed ↦ absurd (omega (arith, small _ passed, big))
          | inr refused ↦ rw byte (rw refused refl)
        ]

    -- SignTx of a transaction, with a key that makes 65 bytes of which the last is 0 or 1, gives a
    -- transaction whose Sender panics: the values of a signature are only valid where the last is 0 or
    -- 1, and recoverPlain takes 27 from it first.
    pub sender_of-sign_tx :
        (t : Transaction) (b : Bytes)
        → crypto_sign (signer_hash t) ≡ some b
        → length b ≡ 65
        → AreBytes b
        → byte_at b 64 ≤ 1
        → ((v r s : ℕ) → valid_values v r s ≡ true → v ≤ 1)
        → (t' : Transaction) × (sign_tx signer_hash tx_hash crypto_sign t ≡ ok t')
          × (sender_of valid_values ecrecover keccak signer_hash t' ≡ panic)
    unfolding sender_of
    sender_of-sign_tx t b e l h id small = (
      _,
      sign_tx_lem t b e l h id,
      rw (raw-set_signature_values _ _ _ _, sender_of)
          (rw (raw-set_signature_values _ _ _ _) (
            rw (raw-set_signature_values _ _ _ _)
              (recover_plain-panic _ _ _ _ id (λ v. small v _ _)))),
    )

  wrong_length :
      (t : Transaction) (x y : Bytes) (v : ℕ)
      → length x + length y < 64
      → with_signature t (x ++ y ++ v ∷ []) ≡ err invalid_sig
  unfolding with_signature signature_values
  wrong_length t x y v short =
      let size : (length (x ++ y ++ v ∷ []) == 65) ≡ false =
        ground (arith, length-append (x ++ y) (v ∷ []), length-append x y) in
      rw size refl

  -- SignNewTx leaves out the leading zeros of the two numbers that the key makes: it takes the
  -- signature, as SignTx does, only if neither number has any, and otherwise refuses it.
  pub sign_new_tx_lem :
      (inner : TxData) (b : Bytes)
      → crypto_sign (tx_hash (new_tx inner)) ≡ some b
      → length b ≡ 65
      → AreBytes b
      → byte_at b 64 ≤ 1
      → sign_new_tx signer_hash tx_hash crypto_sign inner ≡ (
          if leb (256 ^ 31) (be_value (take 32 b))
            && leb (256 ^ 31) (be_value (take 32 (drop 32 b)))
          then with_signature (new_tx inner) b
          else err invalid_sig)
  unfolding sign_new_tx
  sign_new_tx_lem inner b e l h id =
      let x = take 32 b in
      let y = take 32 (drop 32 b) in
      let v = byte_at b 64 % 256 in
      let (lx, ax, ly, ay) = words b l h in
      let made = sign_lem crypto_sign (tx_hash (new_tx inner)) b e l id in
      rw (made) (elim (full_word x lx ax) [
        | inr (low, short) ↦ rw low (
            wrong_length (new_tx inner) (big_bytes (be_value x)) (big_bytes (be_value y)) v
              (omega (arith, length-big_bytes 32 (be_value y) (be_word-lt y ly ay))))
        | inl (full, whole) ↦ rw full (elim (full_word y ly ay) [
          | inr (low', short') ↦ rw low' (
              wrong_length (new_tx inner) (big_bytes (be_value x)) (big_bytes (be_value y)) v
                (omega (arith, length-big_bytes 32 (be_value x) (be_word-lt x lx ax))))
          | inl (full', whole') ↦
              rw full' (ap (with_signature (new_tx inner)) (join_words b _ _ l h whole whole'))
        ])
      ])
