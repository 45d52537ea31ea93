-- ===== src/Common/Types/Cropping.antt =====
-- common/types.go: numbers as hashes and addresses.
use rfqrelayer.Prelude.{
  ℕ, ◌-◌, ◌%◌, ◌^◌, ◌<◌, ◌≡◌, sym, ap, ◌∙◌, inl, inr, arith, ltb, length, drop, Bool-cases,
}
use native.Mathlib.Nat.{mod-eq_of_lt, pow-le-pow_right}
use rfqrelayer.Prelude.Numbers.{
  be_value, big_bytes, set_bytes, be_value-big_bytes, be_value-left_pad, be_value-lt, be_value-drop,
  All-big_bytes,
}
use rfqrelayer.Common.Types.{bytes_to_hash, big_to_hash, bytes_to_address, big_to_address, to_big}

-- The bytes that are cropped are those above `256 ^ n`.
set_bytes-value : (n k : ℕ) → be_value (set_bytes n (big_bytes k)) ≡ k % 256 ^ n
unfolding set_bytes
set_bytes-value n k =
    let b = big_bytes k in
    elim (Bool-cases (ltb n (length b))) [
      | inl long ↦
          let m : length b - (length b - n) ≡ n = ground arith in
          rw long (
            be_value-left_pad n (drop (length b - n) b)
            ∙ be_value-drop (length b - n) b (omega arith) (All-big_bytes k)
            ∙ ap (λ j. be_value b % 256 ^ j) m
            ∙ ap (λ v. v % 256 ^ n) (be_value-big_bytes k))
      | inr short ↦
          let small : k < 256 ^ n = omega (
            arith,
            be_value-lt b (All-big_bytes k),
            be_value-big_bytes k,
            pow-le-pow_right {n = 256} (omega arith) {i = length b} {j = n} (ground arith),
          ) in
          rw short (be_value-left_pad n b ∙ be_value-big_bytes k ∙ sym (mod-eq_of_lt small))
    ]

-- A hash that is made of a number holds it modulo 2 ^ 256, and an address modulo 2 ^ 160.
pub to_big-big_to_hash :
    (n : ℕ) → (to_big (big_to_hash n) ≡ n % 2 ^ 256) × (to_big (big_to_address n) ≡ n % 2 ^ 160)
unfolding to_big big_to_hash big_to_address bytes_to_hash bytes_to_address
to_big-big_to_hash n = (set_bytes-value 32 n, set_bytes-value 20 n)
