-- ===== src/Prelude/Numbers.antt =====
-- Big-endian bytes of a number, as math/big and encoding/binary read and write them.
use Prim.Native.Nat.{ℕ, zero, suc, ◌+◌, ◌-◌, ◌*◌, ◌/◌, ◌%◌, ◌^◌, ◌<◌, ◌≤◌}
use mathlib.Core.Path.{◌≡◌, refl, sym, ap, ◌∙◌}
use mathlib.Core.Logic.{inl, inr}
use mathlib.Core.Bool.{false}
use mathlib.Core.List.{[], ◌∷◌, ◌++◌}
use native.Mathlib.Omega.{arith}
use native.Mathlib.Nat.{
  pow-suc, pow-succ', add-mul, mul_assoc, mul-add-mod_self_right, mod-eq_of_lt,
}
use rfqrelayer.Prelude.Tests.{◌==◌, if◌then◌else◌, ltb, Bool-cases}
use rfqrelayer.Prelude.Lists.{length, replicate, take, drop, All, length-drop, take_whole}
use rfqrelayer.Prelude.ByteSlices.{Bytes}

be_from : ℕ → Bytes → ℕ
be_from acc [] = acc
be_from acc (b ∷ bs) = be_from (acc * 256 + b) bs

-- `new(big.Int).SetBytes(b)`, and `binary.BigEndian.Uint64(b)` of eight bytes.
unfoldable pub be_value : Bytes → ℕ
unfolding be_from
be_value b = be_from 0 b

-- `binary.BigEndian.PutUint64`
unfoldable pub put_uint64 : ℕ → Bytes
put_uint64 n =
    n / 2 ^ 56 % 256
    ∷ n / 2 ^ 48 % 256
    ∷ n / 2 ^ 40 % 256
    ∷ n / 2 ^ 32 % 256
    ∷ n / 2 ^ 24 % 256
    ∷ n / 2 ^ 16 % 256
    ∷ n / 2 ^ 8 % 256
    ∷ n % 256
    ∷ []

big_loop : ℕ → ℕ → Bytes → Bytes
big_loop zero n acc = acc
big_loop (suc fuel) n acc =
    let rest = big_loop fuel (n / 256) ((n % 256) ∷ acc) in if n == 0 then acc else rest

-- `b.Bytes()` of a big.Int: no leading zeros. As many rounds as the number are enough.
unfoldable pub big_bytes : ℕ → Bytes
unfolding big_loop
big_bytes n = big_loop n n []

-- `copy(out[n-len(b):], b)` into `n` zero bytes.
abbrev pub left_pad : ℕ → Bytes → Bytes
left_pad n b = replicate (n - length b) 0 ++ b

-- SetBytes of a fixed-length array: longer input is cropped from the left.
unfoldable pub set_bytes : ℕ → Bytes → Bytes
set_bytes n b = left_pad n (if ltb n (length b) then drop (length b - n) b else b)

be_from-big_loop :
    (fuel n : ℕ) (acc : Bytes) → n ≤ fuel → be_from 0 (big_loop fuel n acc) ≡ be_from n acc
unfolding be_from big_loop
be_from-big_loop zero n acc h = let e : n ≡ 0 = omega arith in rw e
be_from-big_loop (suc fuel) n acc h = elim (Bool-cases (n == 0)) [
  | inl z ↦ let e : n ≡ 0 = ground arith in rw e
  | inr more ↦
      let e : n / 256 * 256 + n % 256 ≡ n = omega arith in
      rw more (
        be_from-big_loop fuel (n / 256) ((n % 256) ∷ acc) (ground arith)
        ∙ ap (λ k. be_from k acc) e)
]

-- A number is read back from its bytes.
pub be_value-big_bytes : (n : ℕ) → be_value (big_bytes n) ≡ n
unfolding be_value big_bytes be_from
be_value-big_bytes n = be_from-big_loop n n [] (omega arith)

pub be_value-put_uint64 : (n : ℕ) → n < 2 ^ 64 → be_value (put_uint64 n) ≡ n
unfolding be_value put_uint64
be_value-put_uint64 n h = omega arith

be_from-replicate : (k : ℕ) (b : Bytes) → be_from 0 (replicate k 0 ++ b) ≡ be_from 0 b
unfolding be_from
be_from-replicate zero b = refl
be_from-replicate (suc k) b = be_from-replicate k b

-- Leading zeros do not change the number.
pub be_value-left_pad : (n : ℕ) (b : Bytes) → be_value (left_pad n b) ≡ be_value b
unfolding be_value
be_value-left_pad n b = be_from-replicate (n - length b) b

length-big_loop :
    (k fuel n : ℕ) (acc : Bytes) → n < 256 ^ k → length (big_loop fuel n acc) ≤ k + length acc
unfolding big_loop
length-big_loop k zero n acc h = omega arith
length-big_loop zero (suc fuel) n acc h = let e : n ≡ 0 = omega arith in rw e (omega arith)
length-big_loop (suc k) (suc fuel) n acc h = elim (Bool-cases (n == 0)) [
  | inl z ↦ rw z (omega arith)
  | inr more ↦
      let small : n / 256 < 256 ^ k = omega (arith, pow-suc 256 k) in
      rw more (omega (arith, length-big_loop k fuel (n / 256) ((n % 256) ∷ acc) small))
]

pub length-big_bytes : (k n : ℕ) → n < 256 ^ k → length (big_bytes n) ≤ k
unfolding big_bytes
length-big_bytes k n h = omega (arith, length-big_loop k n n [] h)

pub set_bytes_self : (n : ℕ) (b : Bytes) → length b ≡ n → set_bytes n b ≡ b
unfolding set_bytes
set_bytes_self n b h =
    let whole : ltb n (length b) ≡ false = ground arith in
    let none_left : n - length b ≡ 0 = omega arith in rw whole (rw none_left)

-- Slices of one length with the same value, after the same start, are the same.
be_from_inj :
    (xs ys : Bytes) (a b : ℕ)
    → length xs ≡ length ys
    → All (λ x. x < 256) xs
    → All (λ y. y < 256) ys
    → be_from a xs ≡ be_from b ys
    → (a ≡ b) × (xs ≡ ys)
unfolding be_from
be_from_inj [] [] a b l p q e = (e, refl)
be_from_inj [] (y ∷ ys) a b l p q e = absurd (omega arith)
be_from_inj (x ∷ xs) [] a b l p q e = absurd (omega arith)
be_from_inj (x ∷ xs) (y ∷ ys) a b l p q e =
    let (n, r) = be_from_inj xs ys (a * 256 + x) (b * 256 + y) (omega arith) p.1 q.1 e in
    let (px, qy) : (x < 256) × (y < 256) = (p.0, q.0) in
    let head : x ≡ y = omega arith in (omega arith, ap (λ z. z ∷ xs) head ∙ ap (λ zs. y ∷ zs) r)

pub be_value_inj :
    (xs ys : Bytes)
    → length xs ≡ length ys
    → All (λ x. x < 256) xs
    → All (λ y. y < 256) ys
    → be_value xs ≡ be_value ys
    → xs ≡ ys
unfolding be_value
be_value_inj xs ys l p q e = (be_from_inj xs ys 0 0 l p q e).1

mul-le-mul : (m n p : ℕ) → m ≤ n → m * p ≤ n * p
mul-le-mul m n p h =
    let e : m + (n - m) ≡ n = omega arith in
    let d : (m + (n - m)) * p ≡ n * p = ap (λ k. k * p) e in omega (arith, add-mul m (n - m) p)

be_from-lt : (xs : Bytes) (a : ℕ) → All (λ x. x < 256) xs → be_from a xs < suc a * 256 ^ length xs
unfolding be_from
be_from-lt [] a p = omega arith
be_from-lt (x ∷ xs) a p =
    let px : x < 256 = p.0 in
    let step = mul-le-mul (suc (a * 256 + x)) (suc a * 256) (256 ^ length xs) (omega arith) in
    let e : 256 ^ length (x ∷ xs) ≡ 256 * 256 ^ length xs = pow-succ' 256 (length xs) in
    let up : suc a * 256 ^ length (x ∷ xs) ≡ suc a * 256 * 256 ^ length xs =
      ap (λ k. suc a * k) e ∙ sym (mul_assoc (suc a) 256 (256 ^ length xs)) in
    omega (arith, be_from-lt xs (a * 256 + x) p.1, up)

-- The value of bytes is bounded by their number.
pub be_value-lt : (xs : Bytes) → All (λ x. x < 256) xs → be_value xs < 256 ^ length xs
unfolding be_value
be_value-lt xs p = omega (arith, be_from-lt xs 0 p)

All-big_loop :
    (fuel n : ℕ) (acc : Bytes) → All (λ x. x < 256) acc → All (λ x. x < 256) (big_loop fuel n acc)
unfolding big_loop
All-big_loop zero n acc h = h
All-big_loop (suc fuel) n acc h = elim (Bool-cases (n == 0)) [
  | inl z ↦ rw z h
  | inr more ↦ rw more (All-big_loop fuel (n / 256) ((n % 256) ∷ acc) (omega arith, h))
]

pub All-big_bytes : (n : ℕ) → All (λ x. x < 256) (big_bytes n)
unfolding big_bytes
All-big_bytes n = All-big_loop n n [] tt

All-replicate : (k : ℕ) (b : Bytes) → All (λ x. x < 256) b → All (λ x. x < 256) (replicate k 0 ++ b)
All-replicate zero b h = h
All-replicate (suc k) b h = (omega arith, All-replicate k b h)

pub All-left_pad : (n : ℕ) (b : Bytes) → All (λ x. x < 256) b → All (λ x. x < 256) (left_pad n b)
All-left_pad n b h = All-replicate (n - length b) b h

be_from-append : (xs ys : Bytes) (a : ℕ) → be_from a (xs ++ ys) ≡ be_from (be_from a xs) ys
unfolding be_from
be_from-append [] ys a = refl
be_from-append (x ∷ xs) ys a = be_from-append xs ys (a * 256 + x)

-- What stands before goes up by a power of 256.
be_from-start : (ys : Bytes) (a : ℕ) → be_from a ys ≡ a * 256 ^ length ys + be_from 0 ys
unfolding be_from
be_from-start [] a = omega arith
be_from-start (y ∷ ys) a =
    let e : 256 ^ length (y ∷ ys) ≡ 256 * 256 ^ length ys = pow-succ' 256 (length ys) in
    let up : a * 256 ^ length (y ∷ ys) ≡ a * 256 * 256 ^ length ys =
      ap (λ k. a * k) e ∙ sym (mul_assoc a 256 (256 ^ length ys)) in
    let first : be_from a (y ∷ ys) ≡ (a * 256 + y) * 256 ^ length ys + be_from 0 ys =
      be_from-start ys (a * 256 + y) in
    let z : 0 * 256 + y ≡ y = omega arith in
    let only : be_from 0 (y ∷ ys) ≡ y * 256 ^ length ys + be_from 0 ys =
      ap (λ b. be_from b ys) z ∙ be_from-start ys y in
    omega (arith, up, first, only, add-mul (a * 256) y (256 ^ length ys))

All-drop : (k : ℕ) (xs : Bytes) → All (λ x. x < 256) xs → All (λ x. x < 256) (drop k xs)
All-drop zero xs h = h
All-drop (suc k) [] h = h
All-drop (suc k) (x ∷ xs) h = All-drop k xs h.1

-- The value of the last bytes is that of all of them modulo a power of 256.
pub be_value-drop :
    (k : ℕ) (xs : Bytes)
    → k ≤ length xs
    → All (λ x. x < 256) xs
    → be_value (drop k xs) ≡ be_value xs % 256 ^ (length xs - k)
unfolding be_value
be_value-drop k xs h p =
    let size = length-drop k xs in
    let v = be_from 0 (drop k xs) in
    let head = be_from 0 (take k xs) in
    let small : v < 256 ^ length (drop k xs) = be_value-lt (drop k xs) (All-drop k xs p) in
    let whole : be_from 0 xs ≡ head * 256 ^ length (drop k xs) + v =
      ap (be_from 0) (sym (take_whole k xs))
      ∙ be_from-append (take k xs) (drop k xs) 0
      ∙ be_from-start (drop k xs) head in
    sym (
      ap (λ n. be_from 0 xs % 256 ^ n) (sym size)
      ∙ ap (λ n. n % 256 ^ length (drop k xs)) whole
      ∙ mul-add-mod_self_right head (256 ^ length (drop k xs)) v
      ∙ mod-eq_of_lt small)
