-- ===== src/Core/Chain/Stored.antt =====
-- core/blockchain.go, GetBlock of the block that addBlockWithoutValidation put in.
use rfqrelayer.Prelude.{
  ℕ, suc, ◌≡◌, refl, ap, ◌∙◌, Bool, false, Option, some, List, [], ◌∷◌, ◌++◌, arith, length, ok,
  length-append, get_elem?-append_length, Bytes,
}
use rfqrelayer.Prelude.Int.{pos, ltb_ℤ}
use rfqrelayer.Rfqdb.Interfaces.{Database, IsKeyValue}
use rfqrelayer.Types.Data.{Transaction}
use rfqrelayer.Types.Block.{Header, Body, Block, body}
use rfqrelayer.Rawdb.Blocks.{read_block, decoded, read_back}
use rfqrelayer.Rawdb.Blocks.ReadBack.{read_block-write_block}
use rfqrelayer.Core.Chain.{
  Ledger, height, get_block_header, add_block_without_validation, get_block,
}

module _ {S I : Type 0} {d : Database S I} {IsOpen : S → Type 0} {view : S → Bytes → Option Bytes}
    (laws : IsKeyValue d IsOpen view) (header_hash : Header → Bytes)
    (encode_header : Header → Bytes) (encode_body : Body → Bytes)
    (decode_header : Bytes → Option Header) (decode_body : Bytes → Option Body)
    (tx_hash : Transaction → Bytes) (valid_values : ℕ → ℕ → ℕ → Bool)
    (recover : Bytes → ℕ → ℕ → ℕ → Option Bytes) (keccak : Bytes → Bytes)
    (verify_signature : Bytes → Bytes → Bytes → Bool) where
  in_range : (c : Ledger S) (n : ℕ) → suc n ≡ length c.headers → ltb_ℤ (height c) (pos n) ≡ false
  unfolding height
  in_range c n e = rw (← e, height) (ground arith)

  last_found :
      (c : Ledger S) (hs : List Header) (h : Header)
      → c.headers ≡ hs ++ h ∷ []
      → get_block_header (pos (length hs)) c ≡ ok h
  unfolding get_block_header
  last_found c hs h e =
      rw e (ground (arith, length-append hs (h ∷ []), get_elem?-append_length hs h))

  -- GetBlock at the height of a block that addBlockWithoutValidation put at its place finds this block,
  -- and lets go of the lock. The database is an open key-value database, and the header and the body
  -- come back from their encodings, which are not empty.
  pub get_block-add_block :
      (b : Block) (c : Ledger S) (readers : ℕ)
      → IsOpen c.db
      → b.header.height ≡ length c.headers
      → decoded decode_header (encode_header b.header) ≡ some b.header
      → decoded decode_body (encode_body (body b)) ≡ some (body b)
      → get_block d decode_header decode_body header_hash b.header.height
          (add_block_without_validation tx_hash valid_values recover d.writer keccak
            verify_signature header_hash encode_header encode_body b c)
          readers
        ≡ (ok b, readers)
  unfolding get_block add_block_without_validation
  get_block-add_block b c readers o at back_header back_body =
      let c' =
        add_block_without_validation tx_hash valid_values recover d.writer keccak verify_signature
          header_hash encode_header encode_body b c in
      let size : suc (b.header.height) ≡ length c'.headers =
        omega (arith, at, length-append c.headers (b.header ∷ [])) in
      let near : ltb_ℤ (height c') (pos b.header.height) ≡ false =
        in_range c' b.header.height size in
      let found : get_block_header (pos b.header.height) c' ≡ ok b.header =
        ap (λ n. get_block_header (pos n) c') at ∙ last_found c' c.headers b.header refl in
      let read : read_block d decode_header decode_body c'.db (header_hash b.header) b.header.height
          ≡ read_back b =
        read_block-write_block laws header_hash encode_header encode_body decode_header decode_body
          b c.db o back_header back_body in
      rw (near, get_block) (rw found (rw read refl))
