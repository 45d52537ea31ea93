-- ===== src/Common/Types.antt =====
-- common/types.go: hashes of 32 bytes and addresses of 20, in numbers and in hexadecimal. A fixed array
-- is the list of its bytes, and `keccak` is the Keccak-256 of golang.org/x/crypto.
pub mod Checksum
pub mod Cropping
use rfqrelayer.Prelude.{
  ℕ, zero, suc, ◌+◌, ◌-◌, ◌*◌, ◌/◌, ◌%◌, ◌^◌, ◌≤◌, ◌<◌, ◌≡◌, refl, sym, ap, ◌∙◌, ◌≢◌, ◌↔◌, ◌⊎◌, inl,
  inr, Bool, true, false, ◌&&◌, ◌||◌, not, Option, none, some, List, [], ◌∷◌, ◌++◌, map, arith, ltb,
  leb, ◌==◌, if◌then◌else◌, length, get_elem?, set, take, drop, replicate, keep_if, All, Result, ok,
  err, panic, ◌>>=◌, ◌>>◌, Bool-cases, Option-cases, List-cases, length-append, length-take,
  length-drop, length-replicate, length-map, drop-append_length, get_elem?-append,
  get_elem?-append_length, drop-append, drop_one-drop, drop-get_elem?, take_run, take_whole,
  drop_past, get_elem?-map, Bytes, bytes_eq, bytes_eq_iff, bytes_eq_refl, bytes_eq-append, bytes_le,
  has_prefix, has_prefix-append, bytes_le-append,
}
use rfqrelayer.Prelude.Numbers.{be_value, big_bytes, set_bytes}
use rfqrelayer.Common.Bytes.{bytes_to_hex, from_hex, without_prefix, is_hex}

abbrev pub hash_length : ℕ
hash_length = 32

abbrev pub address_length : ℕ
address_length = 20

-- BytesToHash, with SetBytes of a hash.
unfoldable pub bytes_to_hash : Bytes → Bytes
bytes_to_hash b = set_bytes hash_length b

unfoldable pub big_to_hash : ℕ → Bytes
big_to_hash n = bytes_to_hash (big_bytes n)

unfoldable pub hex_to_hash : Bytes → Bytes
hex_to_hash s = bytes_to_hash (from_hex s)

-- Big of a hash and of an address.
unfoldable pub to_big : Bytes → ℕ
to_big h = be_value h

-- hexutil.Encode is the hexadecimal form with the prefix 0x.
unfoldable pub hash_hex : Bytes → Bytes
hash_hex h = b'0' ∷ b'x' ∷ bytes_to_hex h

unfoldable pub is_zero : Bytes → Bool
is_zero [] = true
is_zero (b ∷ h) = b == 0 && is_zero h

-- HashFromBytes panics on another length.
unfoldable pub hash_from_bytes : Bytes → Option Bytes
hash_from_bytes b = if not (length b == hash_length) then none else some b

unfoldable pub bytes_to_address : Bytes → Bytes
bytes_to_address b = set_bytes address_length b

unfoldable pub big_to_address : ℕ → Bytes
big_to_address n = bytes_to_address (big_bytes n)

unfoldable pub hex_to_address : Bytes → Bytes
hex_to_address s = bytes_to_address (from_hex s)

unfoldable pub is_hex_address : Bytes → Bool
is_hex_address s = let t = without_prefix s in length t == 2 * address_length && is_hex t

unfoldable pub address_hash : Bytes → Bytes
address_hash a = bytes_to_hash a

-- The half of a byte of the hash that belongs to the character `i`.
unfoldable pub hash_nibble : Bytes → ℕ → ℕ
hash_nibble hash i =
    let byte : ℕ = elim (get_elem? hash (i / 2)) [ none ↦ 0 | some b ↦ b ] in
    if i % 2 == 0 then byte / 16 else byte % 16

-- A letter becomes a capital one where that half is above 7.
unfoldable pub checksum_character : ℕ → ℕ → ℕ
checksum_character nibble c = if ltb b'9' c && ltb 7 nibble then c - 32 else c

-- The loop of checksumHex, from the character `i`.
unfoldable pub checksum_from : Bytes → ℕ → Bytes → Bytes
checksum_from hash i [] = []
checksum_from hash i (c ∷ s) =
    checksum_character (hash_nibble hash i) c ∷ checksum_from hash (suc i) s

-- MixedcaseAddress
pub record MixedcaseAddress : Type 0 where
  pub addr : Bytes
  pub original : Bytes

module _ (keccak : Bytes → Bytes) where
  -- checksumHex, which is Hex and String.
  unfoldable pub address_hex : Bytes → Bytes
  address_hex a = b'0' ∷ b'x' ∷ checksum_from (keccak (bytes_to_hex a)) 0 (bytes_to_hex a)

  unfoldable pub new_mixedcase_address : Bytes → MixedcaseAddress
  new_mixedcase_address a = record { addr = a; original = address_hex a }

  unfoldable pub valid_checksum : MixedcaseAddress → Bool
  valid_checksum m = bytes_eq m.original (address_hex m.addr)

-- NewMixedcaseAddressFromString; `none` is its error.
unfoldable pub new_mixedcase_address_from_string : Bytes → Option MixedcaseAddress
new_mixedcase_address_from_string s =
    if not (is_hex_address s)
    then none
    else some (record { addr = bytes_to_address (from_hex s); original = s })
