-- ===== src/Crypto/Signatures/Words.antt =====
-- crypto/ocax/keys.go: the words of 32 bytes of a signature.
use rfqrelayer.Prelude.{
  ℕ, zero, suc, ◌-◌, ◌^◌, ◌≤◌, ◌<◌, ◌≡◌, refl, sym, ap, ◌∙◌, ◌⊎◌, inl, inr, true, false, [], ◌∷◌,
  ◌++◌, arith, ltb, leb, length, take, drop, replicate, All, ok, Bool-cases, length-append,
  length-replicate, drop-append_length, Bytes,
}
use rfqrelayer.Prelude.Numbers.{
  be_value, big_bytes, left_pad, be_value-big_bytes, length-big_bytes, be_value-left_pad,
  be_value-lt, be_value_inj, All-left_pad, All-big_bytes,
}
use rfqrelayer.Crypto.Signatures.{pad_word}

-- What each byte of a slice is below.
abbrev pub AreBytes : Bytes → Type 0
AreBytes = All (λ x. x < 256)

pub length-left_pad : (n : ℕ) (b : Bytes) → length b ≤ n → length (left_pad n b) ≡ n
length-left_pad n b h =
    omega (
      arith,
      length-append (replicate (n - length b) 0) b,
      length-replicate {A = ℕ} (n - length b) 0,
    )

pub take-append_length : (xs ys : Bytes) (n : ℕ) → length xs ≡ n → take n (xs ++ ys) ≡ xs
take-append_length [] ys zero h = refl
take-append_length [] ys (suc n) h = absurd (omega arith)
take-append_length (x ∷ xs) ys zero h = absurd (omega arith)
take-append_length (x ∷ xs) ys (suc n) h =
    ap (λ l. x ∷ l) (take-append_length xs ys n (omega arith))

pub take-append_le : (xs ys : Bytes) (n : ℕ) → n ≤ length xs → take n (xs ++ ys) ≡ take n xs
take-append_le xs ys zero h = refl
take-append_le [] ys (suc n) h = absurd (omega arith)
take-append_le (x ∷ xs) ys (suc n) h = ap (λ l. x ∷ l) (take-append_le xs ys n (omega arith))

pub drop-append_at : (xs ys : Bytes) (n : ℕ) → length xs ≡ n → drop n (xs ++ ys) ≡ ys
drop-append_at xs ys n h = ap (λ k. drop k (xs ++ ys)) (sym h) ∙ drop-append_length xs ys

pub pad_word_lem :
    (n : ℕ)
    → n < 256 ^ 32
    → (pad_word n ≡ ok (left_pad 32 (big_bytes n))) × (length (left_pad 32 (big_bytes n)) ≡ 32)
unfolding pad_word
pad_word_lem n h =
    let short = length-big_bytes 32 n h in
    let fits : ltb 32 (length (big_bytes n)) ≡ false = ground (arith, short) in
    (rw fits refl, length-left_pad 32 (big_bytes n) short)

pub be_word-lt : (x : Bytes) → length x ≡ 32 → AreBytes x → be_value x < 256 ^ 32
be_word-lt x l h = omega (arith, be_value-lt x h, ap (λ k. 256 ^ k) l)

pub All-take : (n : ℕ) (b : Bytes) → AreBytes b → AreBytes (take n b)
All-take zero b h = tt
All-take (suc n) [] h = tt
All-take (suc n) (x ∷ b) h = (h.0, All-take n b h.1)

pub All-drop : (n : ℕ) (b : Bytes) → AreBytes b → AreBytes (drop n b)
All-drop zero b h = h
All-drop (suc n) [] h = tt
All-drop (suc n) (x ∷ b) h = All-drop n b h.1

-- Only the bytes of a word that has lost its leading zeros fill up to the word.
pub left_pad-be_value :
    (x : Bytes) → length x ≡ 32 → AreBytes x → left_pad 32 (big_bytes (be_value x)) ≡ x
left_pad-be_value x l h =
    let n = be_value x in
    let small : n < 256 ^ 32 = be_word-lt x l h in
    be_value_inj (left_pad 32 (big_bytes n)) x
      (omega (arith, l, length-left_pad 32 (big_bytes n) (length-big_bytes 32 n small)))
      (All-left_pad 32 (big_bytes n) (All-big_bytes n)) h
      (be_value-left_pad 32 _ ∙ be_value-big_bytes n)

-- A number of a word that has no leading zero has the bytes of the word, and another is shorter.
pub full_word :
    (x : Bytes)
    → length x ≡ 32
    → AreBytes x
    → ((leb (256 ^ 31) (be_value x) ≡ true) × (big_bytes (be_value x) ≡ x))
      ⊎ ((leb (256 ^ 31) (be_value x) ≡ false) × (length (big_bytes (be_value x)) ≤ 31))
full_word x l h = elim (Bool-cases (leb (256 ^ 31) (be_value x))) [
  | inr low ↦ inr (low, length-big_bytes 31 (be_value x) (ground arith))
  | inl full ↦
      let bb = big_bytes (be_value x) in
      let z : 32 - length bb ≡ 0 = elim (Bool-cases (ltb (length bb) 32)) [
        | inr long ↦ ground arith
        | inl short ↦ absurd (
            let size = length-left_pad 31 bb (ground arith) in
            let bound =
              be_value-lt (left_pad 31 bb) (All-left_pad 31 bb (All-big_bytes (be_value x))) in
            let value = be_value-left_pad 31 bb ∙ be_value-big_bytes (be_value x) in
            ground (arith, bound, ap (λ k. 256 ^ k) size, value))
      ] in
      inl (full, sym (ap (λ k. replicate k 0 ++ bb) z) ∙ left_pad-be_value x l h)
]
