-- ===== src/Network/Rpc.antt =====
-- network/message.go and rpc.go: the messages of peers, and how they are decoded. gob and rlp are
-- parameters.
use rfqrelayer.Prelude.{
  ◌≡◌, map, ℕ, Option, none, some, List, [], ◌==◌, if◌then◌else◌, Result, ok, err, Bytes,
}
use rfqrelayer.Types.Data.{TxData}
use rfqrelayer.Types.Block.{Header, RawBlock}

-- MessageType
abbrev pub tx_message : ℕ
tx_message = 1

abbrev pub block_message : ℕ
block_message = 2

abbrev pub get_blocks_message : ℕ
get_blocks_message = 3

abbrev pub status_message : ℕ
status_message = 4

abbrev pub get_status_message : ℕ
get_status_message = 5

abbrev pub blocks_message : ℕ
blocks_message = 6

pub record Message : Type 0 where
  pub header : ℕ
  pub payload : Bytes
  pub id : Bytes

unfoldable pub new_message : ℕ → Bytes → Bytes → Message
new_message t payload id = record { header = t; payload = payload; id = id }

pub record GetBlocksMessage : Type 0 where
  pub from_block : ℕ
  pub to_block : ℕ

-- Either pointer may be nil.
pub record FullBlock : Type 0 where
  pub block : Option RawBlock
  pub header : Option Header

pub record StatusMessage : Type 0 where
  pub id : Bytes
  pub current_length : ℕ

-- The data of a DecodeMessage. A transaction may be one without an inner transaction.
pub data Payload : Type 0 where
  tx_payload : Option TxData → Payload
  block_payload : RawBlock → Payload
  get_blocks_payload : GetBlocksMessage → Payload
  status_payload : StatusMessage → Payload
  get_status_payload : Bytes → Payload
  blocks_payload : List FullBlock → Payload

pub data RpcError : Type 0 where
  bad_message bad_block bad_status bad_get_blocks bad_blocks unknown_header : RpcError

-- What gob and rlp do with the messages.
pub record Codec : Type 0 where
  pub encode_message : Message → Bytes
  pub decode_message : Bytes → Option Message
  pub encode_status : StatusMessage → Bytes
  pub decode_status : Bytes → Option StatusMessage
  pub encode_get_blocks : GetBlocksMessage → Bytes
  pub decode_get_blocks : Bytes → Option GetBlocksMessage
  pub encode_blocks : List FullBlock → Option Bytes
  pub decode_blocks : Bytes → Option (List FullBlock)
  pub decode_block : Bytes → Option RawBlock

-- What gob keeps of a FullBlock: the exported fields, which of a block are its validator alone. Its
-- header and its transactions are left out.
abbrev pub through_gob : FullBlock → FullBlock
through_gob f = record f {
  block = elim f.block [
    | none ↦ none
    | some b ↦ some (record { header = none; transactions = []; validator = b.validator })
  ];
}

-- gob encodes this answer, and decodes from it what it keeps.
abbrev pub IsGob : Codec → List FullBlock → Type 0
IsGob c fs =
    (b : Bytes) × (c.encode_blocks fs ≡ some b) × (c.decode_blocks b ≡ some (map through_gob fs))

-- The decoded data, or the error of the decoder.
abbrev pub decoded_as : {A : Type 0} → Option A → RpcError → (A → Payload) → Result RpcError Payload
decoded_as none e f = err e
decoded_as (some a) e f = ok (f a)

-- Decode of a block decodes a block from an empty buffer first.
unfoldable pub block_decode : Codec → Bytes → Option RawBlock
block_decode c payload = elim (c.decode_block []) [ none ↦ none | some _ ↦ c.decode_block payload ]

unfoldable pub decode_payload : Codec → Message → Result RpcError Payload
decode_payload c m =
    if m.header == tx_message
    then ok (tx_payload none)
    else if m.header == block_message
    then decoded_as (block_decode c m.payload) bad_block block_payload
    else if m.header == get_status_message
    then ok (get_status_payload m.id)
    else if m.header == status_message
    then decoded_as (c.decode_status m.payload) bad_status status_payload
    else if m.header == get_blocks_message
    then decoded_as (c.decode_get_blocks m.payload) bad_get_blocks get_blocks_payload
    else if m.header == blocks_message
    then decoded_as (c.decode_blocks m.payload) bad_blocks blocks_payload
    else err unknown_header

-- DefaultRPCDecodeFunc
unfoldable pub decode_rpc : Codec → Bytes → Result RpcError Payload
decode_rpc c payload = elim (c.decode_message payload) [
  | none ↦ err bad_message
  | some m ↦ decode_payload c m
]
