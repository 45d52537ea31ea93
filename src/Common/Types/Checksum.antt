-- ===== src/Common/Types/Checksum.antt =====
-- common/types.go: the hexadecimal form of an address, with its checksum.
use rfqrelayer.Prelude.{
  ℕ, suc, ◌/◌, ◌%◌, ◌<◌, ◌≡◌, refl, ap, ◌∙◌, true, some, [], ◌∷◌, arith, ◌==◌, length, All, Bytes,
  bytes_eq_refl,
}
use rfqrelayer.Prelude.Numbers.{set_bytes, set_bytes_self}
use rfqrelayer.Common.Bytes.{
  hex_digit, hex_value, bytes_to_hex, without_prefix, has_0x_prefix, is_hex_character, is_hex,
}
use rfqrelayer.Common.Bytes.Hex.{
  IsDigit, IsHexOf, end, pair, length-IsHexOf, is_hex-IsHexOf, from_hex-IsHexOf,
}
use rfqrelayer.Common.Types.{
  checksum_character, checksum_from, hash_nibble, address_hex, hex_to_address, bytes_to_address,
  is_hex_address, MixedcaseAddress, new_mixedcase_address_from_string, valid_checksum,
}

-- A digit keeps its value, capital or not.
checksum_character-IsDigit :
    (nibble n : ℕ) → n < 16 → IsDigit (checksum_character nibble (hex_digit n)) n
unfolding checksum_character hex_digit hex_value is_hex_character
checksum_character-IsDigit nibble n h = (ground arith, ground arith)

checksum_from-IsHexOf :
    (hash : Bytes) (i : ℕ) (b : Bytes)
    → All (λ x. x < 256) b
    → IsHexOf (checksum_from hash i (bytes_to_hex b)) b
unfolding checksum_from bytes_to_hex
checksum_from-IsHexOf hash i [] h = end
checksum_from-IsHexOf hash i (x ∷ b) h =
    let small : x < 256 = h.0 in
    pair (checksum_character-IsDigit (hash_nibble hash i) (x / 16) (omega arith))
      (checksum_character-IsDigit (hash_nibble hash (suc i)) (x % 16) (omega arith))
      (checksum_from-IsHexOf hash (suc (suc i)) b h.1)

is_hex_address-IsHexOf :
    {s a : Bytes} → IsHexOf s a → length a ≡ 20 → is_hex_address (b'0' ∷ b'x' ∷ s) ≡ true
unfolding is_hex_address without_prefix has_0x_prefix is_hex
is_hex_address-IsHexOf {s} h l =
    let size : (length s == 40) ≡ true = ground (arith, length-IsHexOf h) in
    let even : (length s % 2 == 0) ≡ true = ground (arith, length-IsHexOf h) in
    rw (size, even, is_hex-IsHexOf h) refl

-- The form that Hex gives of an address, whichever letters its checksum makes capital, is an address
-- for IsHexAddress, from which HexToAddress gets the address back; and NewMixedcaseAddressFromString
-- takes it as one with a valid checksum.
pub hex_to_address-address_hex :
    (keccak : Bytes → Bytes) (a : Bytes)
    → length a ≡ 20
    → All (λ x. x < 256) a
    → (is_hex_address (address_hex keccak a) ≡ true)
      × (hex_to_address (address_hex keccak a) ≡ a)
      × (m : MixedcaseAddress) × (new_mixedcase_address_from_string (address_hex keccak a) ≡ some m)
      × (m.addr ≡ a)
      × (valid_checksum keccak m ≡ true)
unfolding address_hex hex_to_address bytes_to_address new_mixedcase_address_from_string
    valid_checksum
hex_to_address-address_hex keccak a l h =
    let form = checksum_from-IsHexOf (keccak (bytes_to_hex a)) 0 a h in
    let right = is_hex_address-IsHexOf form l in
    let back = ap (set_bytes 20) (from_hex-IsHexOf form) ∙ set_bytes_self 20 a l in
    (
      right,
      back,
      record { addr = a; original = address_hex keccak a },
      rw right (ap (λ b. some (record { addr = b; original = address_hex keccak a })) back),
      refl,
      bytes_eq_refl (address_hex keccak a),
    )
