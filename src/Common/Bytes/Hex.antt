-- ===== src/Common/Bytes/Hex.antt =====
-- common/bytes.go: hexadecimal strings that are read back, in either case of their letters.
use rfqrelayer.Prelude.{
  ℕ, ◌+◌, ◌*◌, ◌/◌, ◌%◌, ◌<◌, ◌≡◌, refl, sym, ap, ◌∙◌, inl, inr, true, false, some, [], ◌∷◌, arith,
  ◌==◌, length, All, Option-cases, Bytes,
}
use rfqrelayer.Common.Bytes.{
  hex_digit, hex_value, hex_to_bytes, from_hex, without_prefix, has_0x_prefix, is_hex_character,
  are_hex_characters, decode_string,
}

-- A string that is a hexadecimal form of bytes, with letters of either case.
abbrev pub IsDigit : ℕ → ℕ → Type 0
IsDigit c n = (hex_value c ≡ some n) × (is_hex_character c ≡ true)

pub data IsHexOf : Bytes → Bytes → Type 0 where
  end : IsHexOf [] []
  pair :
      {a c x : ℕ} {s b : Bytes}
      → IsDigit a (x / 16)
      → IsDigit c (x % 16)
      → IsHexOf s b
      → IsHexOf (a ∷ c ∷ s) (x ∷ b)

pub hex_to_bytes-IsHexOf : {s b : Bytes} → IsHexOf s b → hex_to_bytes s ≡ b
unfolding hex_to_bytes
hex_to_bytes-IsHexOf end = refl
hex_to_bytes-IsHexOf (pair {a} {c} {x} {s} {b} p q h) =
    let e : x / 16 * 16 + x % 16 ≡ x = omega arith in
    rw (p.0, hex_to_bytes)
      (rw (q.0) (ap (λ k. k ∷ hex_to_bytes s) e ∙ ap (λ l. x ∷ l) (hex_to_bytes-IsHexOf h)))

pub length-IsHexOf : {s b : Bytes} → IsHexOf s b → length s ≡ 2 * length b
length-IsHexOf end = refl
length-IsHexOf (pair p q h) = omega (arith, length-IsHexOf h)

pub is_hex-IsHexOf : {s b : Bytes} → IsHexOf s b → are_hex_characters s ≡ true
unfolding are_hex_characters
is_hex-IsHexOf end = refl
is_hex-IsHexOf (pair p q h) = rw (p.1, q.1, is_hex-IsHexOf h) refl

-- FromHex of a form with the prefix 0x gives the bytes.
pub from_hex-IsHexOf : {s b : Bytes} → IsHexOf s b → from_hex (b'0' ∷ b'x' ∷ s) ≡ b
unfolding from_hex without_prefix has_0x_prefix
from_hex-IsHexOf {s} h =
    let even : (length s % 2 == 1) ≡ false = ground (arith, length-IsHexOf h) in
    rw even (hex_to_bytes-IsHexOf h)

hex_digit-IsDigit : (n : ℕ) → n < 16 → IsDigit (hex_digit n) n
unfolding hex_digit hex_value is_hex_character
hex_digit-IsDigit n h = (ground arith, ground arith)

hex_value-lt : (c x : ℕ) → hex_value c ≡ some x → x < 16
unfolding hex_value
hex_value-lt c x h = ground (arith, h)

-- What hex.DecodeString gives.
pub decode_string-All : (s b : Bytes) → decode_string s ≡ some b → All (λ x. x < 256) b
unfolding decode_string
decode_string-All [] b h = ground arith
decode_string-All (a ∷ []) b h = ground arith
decode_string-All (a ∷ c ∷ s) b h = elim (Option-cases (hex_value a)) [
  | inl e ↦ absurd (ground (arith, e, h))
  | inr (x, e) ↦ elim (Option-cases (hex_value c)) [
    | inl f ↦ absurd (ground (arith, e, f, h))
    | inr (y, f) ↦ elim (Option-cases (decode_string s)) [
      | inl g ↦ absurd (ground (arith, e, f, g, h))
      | inr (l, g) ↦
          let z : (x * 16 + y) ∷ l ≡ b = ground (arith, e, f, g, h) in
          rw (sym z)
            (omega (arith, hex_value-lt a x e, hex_value-lt c y f), decode_string-All s l g)
    ]
  ]
]
