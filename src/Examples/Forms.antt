-- ===== src/Examples/Forms.antt =====
-- Byte slices, hashes and addresses at concrete inputs.
use rfqrelayer.Prelude.{ℕ, zero, suc, ◌<◌, ◌≡◌, refl, true, some, arith, replicate, All, Bytes}
use rfqrelayer.Common.Types.{
  MixedcaseAddress, is_hex_address, address_hex, hex_to_address, new_mixedcase_address_from_string,
  valid_checksum,
}
use rfqrelayer.Common.Types.Checksum.{hex_to_address-address_hex}

bytes-small : (n : ℕ) → All (λ x. x < 256) (replicate n 171)
bytes-small zero = tt
bytes-small (suc n) = (omega arith, bytes-small n)

-- A hash of which every half is above 7.
abbrev keccak : Bytes → Bytes
keccak b = replicate 32 255

hex_to_address-address_hex_example :
    (is_hex_address (address_hex keccak (replicate 20 171)) ≡ true)
    × (hex_to_address (address_hex keccak (replicate 20 171)) ≡ replicate 20 171)
    × (m : MixedcaseAddress) × (new_mixedcase_address_from_string
          (address_hex keccak (replicate 20 171))
        ≡ some m)
    × (m.addr ≡ replicate 20 171)
    × (valid_checksum keccak m ≡ true)
hex_to_address-address_hex_example =
    hex_to_address-address_hex keccak (replicate 20 171) refl (bytes-small 20)
