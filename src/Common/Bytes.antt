-- ===== src/Common/Bytes.antt =====
-- common/bytes.go: byte slices, and their hexadecimal forms as encoding/hex reads and writes them.
-- Characters are the numbers of their bytes.
pub mod Padding
pub mod Hex
use rfqrelayer.Prelude.{
  ℕ, zero, suc, ◌+◌, ◌-◌, ◌*◌, ◌/◌, ◌%◌, ◌^◌, ◌≤◌, ◌<◌, ◌≡◌, refl, sym, ap, ◌∙◌, ◌≢◌, ◌↔◌, ◌⊎◌, inl,
  inr, Bool, true, false, ◌&&◌, ◌||◌, not, Option, none, some, List, [], ◌∷◌, ◌++◌, map, arith, ltb,
  leb, ◌==◌, if◌then◌else◌, length, get_elem?, set, take, drop, replicate, keep_if, All, Result, ok,
  err, panic, ◌>>=◌, ◌>>◌, Bool-cases, Option-cases, List-cases, length-append, length-take,
  length-drop, length-replicate, length-map, drop-append_length, get_elem?-append,
  get_elem?-append_length, drop-append, drop_one-drop, drop-get_elem?, take_run, take_whole,
  drop_past, get_elem?-map, Bytes, bytes_eq, bytes_eq_iff, bytes_eq_refl, bytes_eq-append, bytes_le,
  has_prefix, has_prefix-append, bytes_le-append,
}
use rfqrelayer.Prelude.Numbers.{left_pad}

unfoldable pub right_pad_bytes : Bytes → ℕ → Bytes
right_pad_bytes b n = if leb n (length b) then b else b ++ replicate (n - length b) 0

unfoldable pub left_pad_bytes : Bytes → ℕ → Bytes
left_pad_bytes b n = if leb n (length b) then b else left_pad n b

unfoldable pub trim_left_zeroes : Bytes → Bytes
trim_left_zeroes [] = []
trim_left_zeroes (b ∷ bs) = let rest = trim_left_zeroes bs in if b == 0 then rest else b ∷ bs

-- The loop from the right: zeroes go as long as nothing else has come after them.
unfoldable pub trim_right_zeroes : Bytes → Bytes
trim_right_zeroes [] = []
trim_right_zeroes (b ∷ bs) = elim (trim_right_zeroes bs) [
  | [] ↦ if b == 0 then [] else b ∷ []
  | c ∷ cs ↦ b ∷ c ∷ cs
]

-- A digit of encoding/hex, and its value.
unfoldable pub hex_digit : ℕ → ℕ
hex_digit n = if ltb n 10 then 48 + n else 87 + n

unfoldable pub hex_value : ℕ → Option ℕ
hex_value c =
    if leb 48 c && leb c 57
    then some (c - 48)
    else if leb 97 c && leb c 102
    then some (c - 87)
    else if leb 65 c && leb c 70
    then some (c - 55)
    else none

-- hex.EncodeToString
unfoldable pub bytes_to_hex : Bytes → Bytes
bytes_to_hex [] = []
bytes_to_hex (b ∷ bs) = hex_digit (b / 16) ∷ hex_digit (b % 16) ∷ bytes_to_hex bs

-- hex.DecodeString without its error: the bytes before the first pair that is none.
unfoldable pub hex_to_bytes : Bytes → Bytes
hex_to_bytes [] = []
hex_to_bytes (a ∷ []) = []
hex_to_bytes (a ∷ b ∷ s) =
    let rest = hex_to_bytes s in
    elim (hex_value a) [
      | none ↦ []
      | some x ↦ elim (hex_value b) [ none ↦ [] | some y ↦ (x * 16 + y) ∷ rest ]
    ]

-- hex.DecodeString; `none` is its error.
unfoldable pub decode_string : Bytes → Option Bytes
decode_string [] = some []
decode_string (a ∷ []) = none
decode_string (a ∷ b ∷ s) =
    let rest = decode_string s in
    elim (hex_value a) [
      | none ↦ none
      | some x ↦ elim (hex_value b) [
        | none ↦ none
        | some y ↦ elim rest [ none ↦ none | some l ↦ some ((x * 16 + y) ∷ l) ]
      ]
    ]

-- Hex2BytesFixed
unfoldable pub hex_to_bytes_fixed : Bytes → ℕ → Bytes
hex_to_bytes_fixed s n =
    let h = hex_to_bytes s in
    if length h == n then h else if ltb n (length h) then drop (length h - n) h else left_pad n h

unfoldable pub has_0x_prefix : Bytes → Bool
has_0x_prefix [] = false
has_0x_prefix (a ∷ []) = false
has_0x_prefix (a ∷ b ∷ s) = a == b'0' && (b == b'x' || b == b'X')

-- The string without its prefix, as FromHex and IsHexAddress take it.
unfoldable pub without_prefix : Bytes → Bytes
without_prefix s = if has_0x_prefix s then drop 2 s else s

unfoldable pub from_hex : Bytes → Bytes
from_hex s = let t = without_prefix s in hex_to_bytes (if length t % 2 == 1 then b'0' ∷ t else t)

unfoldable pub is_hex_character : ℕ → Bool
is_hex_character c = (leb 48 c && leb c 57) || (leb 97 c && leb c 102) || (leb 65 c && leb c 70)

-- The loop of isHex.
unfoldable pub are_hex_characters : Bytes → Bool
are_hex_characters [] = true
are_hex_characters (c ∷ s) = is_hex_character c && are_hex_characters s

unfoldable pub is_hex : Bytes → Bool
is_hex s = length s % 2 == 0 && are_hex_characters s
