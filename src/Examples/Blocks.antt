-- ===== src/Examples/Blocks.antt =====
-- Blocks, their Merkle roots and the chain of headers at concrete inputs.
use rfqrelayer.Prelude.{
  ℕ, zero, suc, ◌≡◌, refl, Bool, true, Option, none, some, [], ◌∷◌, map, arith, get_elem?, take,
  replicate, Result, ok, Bytes,
}
use rfqrelayer.Rfqdb.Memorydb.{Store, writer}
use rfqrelayer.Rfqdb.Memorydb.Contract.{memory_database, memory_database-IsKeyValue}
use rfqrelayer.Types.Data.{Transaction, SignableData, request, sender}
use rfqrelayer.Types.Block.{Header, Body, Block, raw, body, empty_txs_hash, levels, merkle_root}
use rfqrelayer.Types.Block.Merkle.{merkle_root_ends, merkle_root_collides}
use rfqrelayer.Rawdb.Blocks.{write_block, read_back, read_block}
use rfqrelayer.Rawdb.Blocks.ReadBack.{read_block-write_block}
use rfqrelayer.Core.Chain.{Ledger, ChainError, verify_block, add_block_without_validation}
use rfqrelayer.Core.Chain.{get_block}
use rfqrelayer.Core.Chain.Stored.{get_block-add_block}
use rfqrelayer.Core.Chain.Linked.{IsLinked}

-- Stand-ins for the functions of other packages.
abbrev pub keccak : Bytes → Bytes
keccak b = take 32 b

abbrev pub tx_hash : Transaction → Bytes
tx_hash t = sender t.inner

abbrev pub verify_signature : Bytes → Bytes → Bytes → Bool
verify_signature pk digest sig = true

abbrev pub valid_values : ℕ → ℕ → ℕ → Bool
valid_values v r s = true

abbrev pub recover : Bytes → ℕ → ℕ → ℕ → Option Bytes
recover digest v r s = some []

abbrev pub header_hash : Header → Bytes
header_hash h = h.height ∷ []

abbrev pub encode_header : Header → Bytes
encode_header h = h.height ∷ []

abbrev pub encode_body : Body → Bytes
encode_body b = 1 ∷ []

abbrev bare_data : SignableData
bare_data = record {
  requestor_id = b'1' ∷ [];
  base_token_amount = none;
  base_token = none;
  quote_token = none;
  rfq_duration_ms = 5;
}

abbrev pub tx_of : ℕ → Transaction
tx_of i = record {
  inner =
      request
        (record { from = replicate 20 i; body = bare_data; v = some 0; r = some 1; s = some 2 });
}

merkle_root_ends_example :
    levels keccak 5 (map tx_hash (tx_of 1 ∷ tx_of 2 ∷ tx_of 3 ∷ []))
    ≡ merkle_root keccak tx_hash verify_signature (tx_of 1 ∷ tx_of 2 ∷ tx_of 3 ∷ []) ∷ []
merkle_root_ends_example =
    merkle_root_ends keccak tx_hash verify_signature 5 (tx_of 1 ∷ tx_of 2 ∷ tx_of 3 ∷ [])
      (omega arith) (omega arith)

merkle_root_collides_example :
    merkle_root keccak tx_hash verify_signature (tx_of 1 ∷ tx_of 2 ∷ tx_of 3 ∷ tx_of 3 ∷ [])
    ≡ merkle_root keccak tx_hash verify_signature (tx_of 1 ∷ tx_of 2 ∷ tx_of 3 ∷ [])
merkle_root_collides_example =
    merkle_root_collides keccak tx_hash verify_signature (tx_of 1 ∷ tx_of 2 ∷ []) (tx_of 3)
      (omega arith) refl

abbrev pub genesis_header : Header
genesis_header = record {
  version = 1;
  tx_hash = empty_txs_hash;
  parent_hash = [];
  timestamp = 0;
  height = 0;
  block_signature = none;
}

-- The block after it.
abbrev pub next_block : Block
next_block = record {
  header = record {
    version = 1;
    tx_hash = empty_txs_hash;
    parent_hash = 0 ∷ [];
    timestamp = 9;
    height = 1;
    block_signature = some (replicate 65 1);
  };
  transactions = [];
  validator = [];
}

abbrev pub empty_store : Store
empty_store = record { db = some [] }

abbrev pub decode_header : Bytes → Option Header
decode_header b = some next_block.header

abbrev pub decode_body : Bytes → Option Body
decode_body b = some (record { transactions = []; validator = [] })

read_block-write_block_example :
    read_block memory_database decode_header decode_body
      (write_block writer header_hash encode_header encode_body next_block empty_store)
      (1 ∷ [])
      1
    ≡ read_back next_block
unfolding body
read_block-write_block_example =
    read_block-write_block memory_database-IsKeyValue header_hash encode_header encode_body
      decode_header decode_body next_block empty_store (λ e. cc) refl refl

abbrev pub ledger : Ledger Store
ledger = record {
  headers = genesis_header ∷ [];
  db = empty_store;
  current_block = some genesis_header;
  genesis_block = none;
  validating = true;
}

abbrev run : Block → Ledger Store → Result ChainError (Ledger Store)
run b =
    verify_block tx_hash valid_values recover writer keccak verify_signature header_hash
      encode_header encode_body (some (raw b))

height_lem : (i : ℕ) (h : Header) → get_elem? (genesis_header ∷ []) i ≡ some h → h.height ≡ i
height_lem zero h e = ground arith
height_lem (suc i) h e = absurd (ground arith)

pub ledger-IsLinked : IsLinked header_hash ledger.headers
ledger-IsLinked = record {
  heights = λ i h e. height_lem i h e;
  parents = λ i h g e f. absurd (ground arith);
}

get_block-add_block_example :
    get_block memory_database decode_header decode_body header_hash 1
      (add_block_without_validation tx_hash valid_values recover writer keccak verify_signature
        header_hash encode_header encode_body next_block ledger)
      2
    ≡ (ok next_block, 2)
unfolding body
get_block-add_block_example =
    get_block-add_block memory_database-IsKeyValue header_hash encode_header encode_body
      decode_header decode_body tx_hash valid_values recover keccak verify_signature next_block
      ledger 2 (λ e. cc) refl refl refl
