-- ===== src/Rawdb/Blocks.antt =====
-- core/rawdb/schema.go and accessors_db.go: the keys of headers and bodies, and blocks in the database.
-- What rlp encodes and decodes is a parameter; a Put that fails is only logged, and is dropped here.
pub mod ReadBack
use rfqrelayer.Prelude.{
  ℕ, zero, suc, ◌+◌, ◌-◌, ◌*◌, ◌/◌, ◌%◌, ◌^◌, ◌≤◌, ◌<◌, ◌≡◌, refl, sym, ap, ◌∙◌, ◌≢◌, ◌↔◌, ◌⊎◌, inl,
  inr, Bool, true, false, ◌&&◌, ◌||◌, not, Option, none, some, List, [], ◌∷◌, ◌++◌, map, arith, ltb,
  leb, ◌==◌, if◌then◌else◌, length, get_elem?, set, take, drop, replicate, keep_if, All, Result, ok,
  err, panic, ◌>>=◌, ◌>>◌, Bool-cases, Option-cases, List-cases, length-append, length-take,
  length-drop, length-replicate, length-map, drop-append_length, get_elem?-append,
  get_elem?-append_length, drop-append, drop_one-drop, drop-get_elem?, drop_past, get_elem?-map,
  Bytes, bytes_eq, bytes_eq_iff, bytes_eq_refl, bytes_eq-append, bytes_le, has_prefix,
  has_prefix-append, bytes_le-append,
}
use rfqrelayer.Prelude.Numbers.{put_uint64}
use rfqrelayer.Rfqdb.Interfaces.{DbError, Writer, Database}
use rfqrelayer.Types.Block.{Header, Body, Block, body}

-- encodeBlockHeight
unfoldable pub encode_block_height : ℕ → Bytes
encode_block_height n = put_uint64 n

unfoldable pub header_key : ℕ → Bytes → Bytes
header_key n hash = b'h' ∷ (encode_block_height n ++ hash)

unfoldable pub header_height_key : Bytes → Bytes
header_height_key hash = b'H' ∷ hash

unfoldable pub block_body_key : ℕ → Bytes → Bytes
block_body_key n hash = b'b' ∷ (encode_block_height n ++ hash)

module _ {S : Type 0} (w : Writer S) (hash : Header → Bytes) (encode_header : Header → Bytes)
    (encode_body : Body → Bytes) where
  -- WriteBody, with WriteBodyRLP.
  unfoldable pub write_body : Bytes → ℕ → Body → S → S
  write_body h n b s = (w.put s (block_body_key n h) (encode_body b)).0

  unfoldable pub write_header_number : Bytes → ℕ → S → S
  write_header_number h n s = (w.put s (header_height_key h) (encode_block_height n)).0

  unfoldable pub write_header : Header → S → S
  write_header header s =
      let numbered = write_header_number (hash header) header.height s in
      (w.put numbered (header_key header.height (hash header)) (encode_header header)).0

  unfoldable pub write_block : Block → S → S
  write_block b s = write_header b.header (write_body (hash b.header) b.header.height (body b) s)

-- A Get that fails gives the nil slice.
abbrev pub or_empty : Result DbError Bytes → Bytes
or_empty (ok b) = b
or_empty (err e) = []
or_empty panic = []

-- No data, and data that do not decode, are nil.
abbrev pub decoded : {A : Type 0} → (Bytes → Option A) → Bytes → Option A
decoded decode [] = none
decoded decode (x ∷ rest) = decode (x ∷ rest)

-- What is read: nothing (nil), or a value, or a panic. The package's logger is nil, so that what would
-- be logged panics: a body that Get does not find, and a header that does not decode.
pub data Read (A : Type 0) : Type 0 where
  nothing_read read_panics : Read A
  read_back : A → Read A

abbrev pub header_of : (Bytes → Option Header) → Bytes → Read Header
header_of decode [] = nothing_read
header_of decode (x ∷ rest) = elim (decode (x ∷ rest)) [ none ↦ read_panics | some h ↦ read_back h ]

abbrev pub body_of : (Bytes → Option Body) → Result DbError Bytes → Read Body
body_of decode (ok b) = elim (decoded decode b) [ none ↦ nothing_read | some r ↦ read_back r ]
body_of decode (err e) = read_panics
body_of decode panic = read_panics

module _ {S I : Type 0} (d : Database S I) (decode_header : Bytes → Option Header)
    (decode_body : Bytes → Option Body) where
  unfoldable pub read_header : S → Bytes → ℕ → Read Header
  read_header s h n = header_of decode_header (or_empty (d.get s (header_key n h)))

  unfoldable pub read_body : S → Bytes → ℕ → Read Body
  read_body s h n = body_of decode_body (d.get s (block_body_key n h))

  -- ReadBlock, with NewBlockWithHeader and WithBody.
  unfoldable pub read_block : S → Bytes → ℕ → Read Block
  read_block s h n = elim (read_header s h n) [
    | nothing_read ↦ nothing_read
    | read_panics ↦ read_panics
    | read_back header ↦ elim (read_body s h n) [
      | nothing_read ↦ read_back (record { header = header; transactions = []; validator = [] })
      | read_panics ↦ read_panics
      | read_back b ↦
          read_back
            (record { header = header; transactions = b.transactions; validator = b.validator })
    ]
  ]
