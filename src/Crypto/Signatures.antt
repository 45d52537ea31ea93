-- ===== src/Crypto/Signatures.antt =====
-- crypto/ocax/keys.go: the signatures of private keys, and their 65 bytes. What signs a digest is a
-- parameter. The numbers of a signature are not negative.
pub mod Words
pub mod RoundTrip
use rfqrelayer.Prelude.{
  ℕ, zero, suc, ◌+◌, ◌-◌, ◌*◌, ◌/◌, ◌%◌, ◌^◌, ◌≤◌, ◌<◌, ◌≡◌, refl, sym, ap, ◌∙◌, ◌≢◌, ◌↔◌, ◌⊎◌, inl,
  inr, Bool, true, false, ◌&&◌, ◌||◌, not, Option, none, some, List, [], ◌∷◌, ◌++◌, map, arith, ltb,
  leb, ◌==◌, if◌then◌else◌, length, get_elem?, set, take, drop, replicate, keep_if, All, Result, ok,
  err, panic, ◌>>=◌, ◌>>◌, Bool-cases, Option-cases, List-cases, length-append, length-take,
  length-drop, length-replicate, length-map, drop-append_length, get_elem?-append,
  get_elem?-append_length, drop-append, drop_one-drop, drop-get_elem?, drop_past, get_elem?-map,
  Bytes, bytes_eq, bytes_eq_iff, bytes_eq_refl, bytes_eq-append, bytes_le, has_prefix,
  has_prefix-append, bytes_le-append,
}
use rfqrelayer.Common.Bytes.{decode_string}
use rfqrelayer.Prelude.Numbers.{be_value, big_bytes, left_pad}

pub record Signature : Type 0 where
  pub v : ℕ
  pub r : ℕ
  pub s : ℕ

pub data SigError : Type 0 where
  not_signed invalid_length invalid_recovery_id not_hex : SigError

-- `b[i]` of a slice that is long enough.
abbrev pub byte_at : Bytes → ℕ → ℕ
byte_at b i = elim (get_elem? b i) [ none ↦ 0 | some x ↦ x ]

-- `copy(padded[32-len(b):], b)`: a slice with a negative bound panics.
unfoldable pub pad_word : ℕ → Result SigError Bytes
pad_word n = if ltb 32 (length (big_bytes n)) then panic else ok (left_pad 32 (big_bytes n))

-- Signature.ToBytes
unfoldable pub to_bytes : Signature → Result SigError Bytes
to_bytes sig = do r ← pad_word sig.r; s ← pad_word sig.s; ok (r ++ s ++ sig.v % 256 ∷ [])

-- The three parts of 65 bytes.
abbrev pub read_signature : Bytes → Signature
read_signature b = record {
  v = byte_at b 64;
  r = be_value (take 32 b);
  s = be_value (take 32 (drop 32 b));
}

unfoldable pub deserialize_sig : Bytes → Result SigError Signature
deserialize_sig b = if not (length b == 65) then err invalid_length else ok (read_signature b)

unfoldable pub deserialize_sig_from_hex_string : Bytes → Result SigError Signature
deserialize_sig_from_hex_string s = elim (decode_string s) [
  | none ↦ err not_hex
  | some b ↦ deserialize_sig b
]

-- PrivateKey.Sign; `crypto_sign` is what go-ethereum's Sign does with the key.
unfoldable pub sign : (Bytes → Option Bytes) → Bytes → Result SigError Signature
sign crypto_sign digest = elim (crypto_sign digest) [
  | none ↦ err not_signed
  | some sig ↦
      if not (length sig == 65)
      then err invalid_length
      else if not (byte_at sig 64 == 0) && not (byte_at sig 64 == 1)
      then err invalid_recovery_id
      else ok (read_signature sig)
]
