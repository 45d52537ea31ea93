-- ===== src/Crypto/Signatures/RoundTrip.antt =====
-- crypto/ocax/keys.go: signatures against their 65 bytes.
use rfqrelayer.Prelude.{
  ℕ, zero, suc, ◌%◌, ◌^◌, ◌≤◌, ◌<◌, ◌≡◌, refl, sym, ap, ◌∙◌, inl, inr, true, Option, some, [], ◌∷◌,
  ◌++◌, arith, ◌==◌, length, get_elem?, take, drop, ok, Bool-cases, length-append, length-take,
  length-drop, get_elem?-append_length, take_run, take_whole, drop-append, drop-get_elem?,
  drop_past, Bytes,
}
use rfqrelayer.Prelude.Numbers.{
  be_value, big_bytes, left_pad, be_value-big_bytes, be_value-left_pad,
}
use rfqrelayer.Crypto.Signatures.{
  Signature, byte_at, to_bytes, read_signature, deserialize_sig, sign,
}
use rfqrelayer.Crypto.Signatures.Words.{
  AreBytes, take-append_length, take-append_le, drop-append_at, pad_word_lem, be_word-lt, All-take,
  All-drop, left_pad-be_value,
}

get_elem?-append_at : (xs : Bytes) (v n : ℕ) → length xs ≡ n → get_elem? (xs ++ v ∷ []) n ≡ some v
get_elem?-append_at xs v n h = ap (get_elem? (xs ++ v ∷ [])) (sym h) ∙ get_elem?-append_length xs v

signature_ext :
    {v v' r r' s s' : ℕ}
    → v ≡ v'
    → r ≡ r'
    → s ≡ s'
    → ◌≡◌ {A = Signature} (record { v = v; r = r; s = s }) (record { v = v'; r = r'; s = s' })
signature_ext p q e = rw (p, q, e) refl

-- A word, a word and a byte are read as such.
read_signature_lem :
    (x y : Bytes) (v : ℕ)
    → length x ≡ 32
    → length y ≡ 32
    → (length (x ++ y ++ v ∷ []) ≡ 65)
      × (read_signature (x ++ y ++ v ∷ []) ≡ record { v = v; r = be_value x; s = be_value y })
read_signature_lem x y v hx hy =
    let size : length (x ++ y) ≡ 64 = omega (arith, length-append x y) in
    let r : take 32 (x ++ y ++ v ∷ []) ≡ x =
      take-append_le (x ++ y) (v ∷ []) 32 (omega arith) ∙ take-append_length x y 32 hx in
    let s : take 32 (drop 32 (x ++ y ++ v ∷ [])) ≡ y =
      ap (take 32) (
        drop-append 32 (x ++ y) (v ∷ []) (omega arith)
        ∙ ap (λ l. l ++ v ∷ []) (drop-append_at x y 32 hx))
      ∙ take-append_length y (v ∷ []) 32 hy in
    let byte : byte_at (x ++ y ++ v ∷ []) 64 ≡ v =
      rw (get_elem?-append_at (x ++ y) v 64 size, byte_at) refl in
    (
      omega (arith, size, length-append (x ++ y) (v ∷ [])),
      signature_ext byte (ap be_value r) (ap be_value s),
    )

pub deserialize_sig_lem : (b : Bytes) → length b ≡ 65 → deserialize_sig b ≡ ok (read_signature b)
unfolding deserialize_sig
deserialize_sig_lem b h = let e : (length b == 65) ≡ true = ground arith in rw e refl

-- A signature whose numbers fit their words is written as 65 bytes, from which it is read back.
pub deserialize_sig-to_bytes :
    (sig : Signature)
    → sig.v < 256
    → sig.r < 256 ^ 32
    → sig.s < 256 ^ 32
    → (b : Bytes) × (to_bytes sig ≡ ok b) × (length b ≡ 65) × (deserialize_sig b ≡ ok sig)
unfolding to_bytes
deserialize_sig-to_bytes sig hv hr hs =
    let (er, lr) = pad_word_lem sig.r hr in
    let (es, ls) = pad_word_lem sig.s hs in
    let x = left_pad 32 (big_bytes sig.r) in
    let y = left_pad 32 (big_bytes sig.s) in
    let (size, read) = read_signature_lem x y (sig.v % 256) lr ls in
    let rv : be_value x ≡ sig.r = be_value-left_pad 32 _ ∙ be_value-big_bytes sig.r in
    let sv : be_value y ≡ sig.s = be_value-left_pad 32 _ ∙ be_value-big_bytes sig.s in
    let vv : sig.v % 256 ≡ sig.v = omega arith in
    (
      x ++ y ++ sig.v % 256 ∷ [],
      rw (er, es) refl,
      size,
      deserialize_sig_lem _ size ∙ ap ok (read ∙ signature_ext vv rv sv),
    )

split_word : (b : Bytes) → length b ≡ 65 → take 32 b ++ take 32 (drop 32 b) ++ byte_at b 64 ∷ [] ≡ b
split_word b h =
    let (x, e, d) = drop-get_elem? 64 b (omega arith) in
    let last : byte_at b 64 ∷ [] ≡ drop 64 b =
      rw (e, byte_at) (sym (d ∙ ap (λ l. x ∷ l) (drop_past 65 b (omega arith)))) in
    ap (λ l. take 32 b ++ take 32 (drop 32 b) ++ l) last
    ∙ ap (λ l. l ++ drop 64 b) (take_run 32 32 64 b (omega arith))
    ∙ take_whole 64 b

byte-mod : (i : ℕ) (b : Bytes) → i < length b → AreBytes b → byte_at b i % 256 ≡ byte_at b i
byte-mod i [] l h = absurd (omega arith)
byte-mod zero (x ∷ b) l h = let small : x < 256 = h.0 in omega arith
byte-mod (suc i) (x ∷ b) l h = byte-mod i b (omega arith) h.1

-- The two words of a signature.
pub words :
    (b : Bytes)
    → length b ≡ 65
    → AreBytes b
    → (length (take 32 b) ≡ 32)
      × AreBytes (take 32 b)
      × (length (take 32 (drop 32 b)) ≡ 32)
      × AreBytes (take 32 (drop 32 b))
words b l h = (
  omega (arith, length-take 32 b),
  All-take 32 b h,
  omega (arith, length-take 32 (drop 32 b), length-drop 32 b),
  All-take 32 (drop 32 b) (All-drop 32 b h),
)

-- Two words and a byte that are those of a signature are its bytes.
pub join_words :
    (b x y : Bytes)
    → length b ≡ 65
    → AreBytes b
    → x ≡ take 32 b
    → y ≡ take 32 (drop 32 b)
    → x ++ y ++ byte_at b 64 % 256 ∷ [] ≡ b
join_words b x y l h p q = rw (p, q, byte-mod 64 b (omega arith) h) (split_word b l)

pub to_bytes-read_signature :
    (b : Bytes) → length b ≡ 65 → AreBytes b → to_bytes (read_signature b) ≡ ok b
unfolding to_bytes
to_bytes-read_signature b l h =
    let (lr, hr, ls, hs) = words b l h in
    let (er, _) = pad_word_lem (be_value (take 32 b)) (be_word-lt _ lr hr) in
    let (es, _) = pad_word_lem (be_value (take 32 (drop 32 b))) (be_word-lt _ ls hs) in
    rw (er, es)
      (ap ok (
        join_words b _ _ l h (left_pad-be_value (take 32 b) lr hr)
          (left_pad-be_value (take 32 (drop 32 b)) ls hs)))

-- What Sign gives for the bytes that the key makes.
pub sign_lem :
    (crypto_sign : Bytes → Option Bytes) (digest b : Bytes)
    → crypto_sign digest ≡ some b
    → length b ≡ 65
    → byte_at b 64 ≤ 1
    → sign crypto_sign digest ≡ ok (read_signature b)
unfolding sign
sign_lem crypto_sign digest b e l id =
    let size : (length b == 65) ≡ true = ground arith in
    elim (Bool-cases (byte_at b 64 == 0)) [
      | inl zero_id ↦ rw (e, sign) (rw size (rw zero_id refl))
      | inr other ↦
          let one_id : (byte_at b 64 == 1) ≡ true = ground arith in
          rw (e, sign) (rw size (rw (other, one_id) refl))
    ]

-- The 65 bytes of a signature are written again as they were read.
pub to_bytes-deserialize_sig :
    (b : Bytes)
    → length b ≡ 65
    → AreBytes b
    → (sig : Signature) × (deserialize_sig b ≡ ok sig) × (to_bytes sig ≡ ok b)
to_bytes-deserialize_sig b l h =
    (read_signature b, deserialize_sig_lem b l, to_bytes-read_signature b l h)
