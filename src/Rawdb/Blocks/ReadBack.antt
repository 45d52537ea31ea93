-- ===== src/Rawdb/Blocks/ReadBack.antt =====
-- core/rawdb/accessors_db.go: ReadBlock after WriteBlock.
use rfqrelayer.Prelude.{
  arith, [], ◌∷◌, ℕ, ◌≡◌, refl, ap, ◌∙◌, false, Option, some, if◌then◌else◌, ok, Bytes, bytes_eq,
  bytes_eq_refl,
}
use rfqrelayer.Rfqdb.Interfaces.{Database, IsKeyValue, answer}
use rfqrelayer.Types.Block.{Header, Body, Block, body}
use rfqrelayer.Rawdb.Blocks.{
  header_key, header_height_key, block_body_key, encode_block_height, write_body,
  write_header_number, write_header, write_block, decoded, header_of, read_back, read_header,
  read_body, read_block,
}

header_of-decoded :
    (decode : Bytes → Option Header) (b : Bytes) (h : Header)
    → decoded decode b ≡ some h
    → header_of decode b ≡ read_back h
header_of-decoded decode [] h e = absurd (ground arith)
header_of-decoded decode (x ∷ b) h e =
    let e' : decode (x ∷ b) ≡ some h = e in rw (e', header_of) refl

module _ {S I : Type 0} {d : Database S I} {IsOpen : S → Type 0} {view : S → Bytes → Option Bytes}
    (laws : IsKeyValue d IsOpen view) (hash : Header → Bytes) (encode_header : Header → Bytes)
    (encode_body : Body → Bytes) (decode_header : Bytes → Option Header)
    (decode_body : Bytes → Option Body) where
  -- What WriteBlock does to the content of the store.
  view-write_block :
      (b : Block) (s : S) (k : Bytes)
      → IsOpen s
      → IsOpen (write_block d.writer hash encode_header encode_body b s)
        × (view (write_block d.writer hash encode_header encode_body b s) k ≡ (
            if bytes_eq (header_key b.header.height (hash b.header)) k
            then some (encode_header b.header)
            else if bytes_eq (header_height_key (hash b.header)) k
            then some (encode_block_height b.header.height)
            else if bytes_eq (block_body_key b.header.height (hash b.header)) k
            then some (encode_body (body b))
            else view s k))
  unfolding write_block write_header write_header_number write_body
  view-write_block b s k o =
      let h = hash b.header in
      let n = b.header.height in
      let o1 = laws.put_open s (block_body_key n h) (encode_body (body b)) o in
      let o2 = laws.put_open _ (header_height_key h) (encode_block_height n) o1 in
      (
        laws.put_open _ (header_key n h) (encode_header b.header) o2,
        laws.put_view _ (header_key n h) (encode_header b.header) k o2
            ∙ ap (λ r. if bytes_eq (header_key n h) k then some (encode_header b.header) else r)
                (laws.put_view _ (header_height_key h) (encode_block_height n) k o1
                  ∙ ap
                      (λ r.
                        if bytes_eq (header_height_key h) k
                        then some (encode_block_height n)
                        else r)
                      (laws.put_view s (block_body_key n h) (encode_body (body b)) k o)),
      )

  keys_apart :
      (n : ℕ) (h : Bytes)
      → (bytes_eq (header_key n h) (block_body_key n h) ≡ false)
        × (bytes_eq (header_height_key h) (block_body_key n h) ≡ false)
  unfolding bytes_eq header_key block_body_key header_height_key
  keys_apart n h = (refl, refl)

  -- ReadBlock finds the block that WriteBlock wrote, if its header and its body come back from their
  -- encodings, which are not empty, and the database is an open key-value database.
  pub read_block-write_block :
      (b : Block) (s : S)
      → IsOpen s
      → decoded decode_header (encode_header b.header) ≡ some b.header
      → decoded decode_body (encode_body (body b)) ≡ some (body b)
      → read_block d decode_header decode_body
          (write_block d.writer hash encode_header encode_body b s)
          (hash b.header)
          b.header.height
        ≡ read_back b
  unfolding read_block read_header read_body body
  read_block-write_block b s o back_header back_body =
      let h = hash b.header in
      let n = b.header.height in
      let s' = write_block d.writer hash encode_header encode_body b s in
      let (open', header_view) = view-write_block b s (header_key n h) o in
      let (_, body_view) = view-write_block b s (block_body_key n h) o in
      let (apart, apart') = keys_apart n h in
      let stored_header : view s' (header_key n h) ≡ some (encode_header b.header) =
        header_view ∙ rw (bytes_eq_refl (header_key n h)) refl in
      let stored_body : view s' (block_body_key n h) ≡ some (encode_body (body b)) =
        body_view ∙ rw (apart, apart', bytes_eq_refl (block_body_key n h)) refl in
      let got_header : d.get s' (header_key n h) ≡ ok (encode_header b.header) =
        laws.get_view s' (header_key n h) open' ∙ ap answer stored_header in
      let got_body : d.get s' (block_body_key n h) ≡ ok (encode_body (body b)) =
        laws.get_view s' (block_body_key n h) open' ∙ ap answer stored_body in
      let header_back =
        header_of-decoded decode_header (encode_header b.header) b.header back_header in
      rw (got_header, read_block) (rw header_back (rw got_body (rw back_body refl)))
