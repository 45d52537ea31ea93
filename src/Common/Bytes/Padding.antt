-- ===== src/Common/Bytes/Padding.antt =====
-- common/bytes.go: padding and trimming.
use rfqrelayer.Prelude.{
  ℕ, zero, suc, ◌-◌, ◌≡◌, refl, inl, inr, [], ◌∷◌, ◌++◌, arith, leb, length, replicate, Bool-cases,
  length-append, length-replicate, Bytes,
}
use Prim.Native.Nat.{max}
use rfqrelayer.Common.Bytes.{right_pad_bytes, left_pad_bytes, trim_left_zeroes, trim_right_zeroes}

trim_left-replicate :
    (k : ℕ) (b : Bytes) → trim_left_zeroes (replicate k 0 ++ b) ≡ trim_left_zeroes b
unfolding trim_left_zeroes
trim_left-replicate zero b = refl
trim_left-replicate (suc k) b = trim_left-replicate k b

trim_right-zeroes : (k : ℕ) → trim_right_zeroes (replicate k 0) ≡ []
unfolding trim_right_zeroes
trim_right-zeroes zero = refl
trim_right-zeroes (suc k) = rw (trim_right-zeroes k) refl

trim_right-replicate :
    (k : ℕ) (b : Bytes) → trim_right_zeroes (b ++ replicate k 0) ≡ trim_right_zeroes b
unfolding trim_right_zeroes
trim_right-replicate k [] = trim_right-zeroes k
trim_right-replicate k (x ∷ b) = rw (trim_right-replicate k b) refl

-- LeftPadBytes and RightPadBytes give the length asked for, or keep that of a longer slice.
-- TrimLeftZeroes and TrimRightZeroes take away what they have put there: of a padded slice they leave
-- what they leave of the slice itself.
pub padding_trimmed :
    (b : Bytes) (n : ℕ)
    → (length (left_pad_bytes b n) ≡ max n (length b))
      × (length (right_pad_bytes b n) ≡ max n (length b))
      × (trim_left_zeroes (left_pad_bytes b n) ≡ trim_left_zeroes b)
      × (trim_right_zeroes (right_pad_bytes b n) ≡ trim_right_zeroes b)
unfolding left_pad_bytes right_pad_bytes
padding_trimmed b n = elim (Bool-cases (leb n (length b))) [
  | inl long ↦ let e : length b ≡ max n (length b) = ground arith in rw long (e, e, refl, refl)
  | inr short ↦
      let zeroes : length (replicate (n - length b) 0) ≡ n - length b =
        length-replicate {A = ℕ} (n - length b) 0 in
      rw short (
        ground (arith, zeroes, length-append (replicate (n - length b) 0) b),
        ground (arith, zeroes, length-append b (replicate (n - length b) 0)),
        trim_left-replicate (n - length b) b,
        trim_right-replicate (n - length b) b,
      )
]
