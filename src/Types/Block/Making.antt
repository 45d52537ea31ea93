-- ===== src/Types/Block/Making.antt =====
-- core/types/block.go: how blocks are made, changed and signed. A header that a function of the code
-- changes through its pointer is given back.
use rfqrelayer.Prelude.{
  ℕ, ◌+◌, Bool, Option, none, some, List, [], ◌∷◌, ◌++◌, ◌==◌, if◌then◌else◌, length, Bytes,
  bytes_eq,
}
use rfqrelayer.Types.Data.{Transaction}
use rfqrelayer.Types.Block.{Header, Block, empty_txs_hash, merkle_root, block_hash}

-- NewBlockWithHeader, and WithHeader of any block.
unfoldable pub new_block_with_header : Header → Block
new_block_with_header h = record { header = h; transactions = []; validator = [] }

unfoldable pub with_body : Block → List Transaction → Bytes → Block
with_body b txs validator = record { header = b.header; transactions = txs; validator = validator }

unfoldable pub add_transaction : Block → Transaction → Block
add_transaction b t = record b { transactions = b.transactions ++ t ∷ [] }

-- EmptyBody of a header.
unfoldable pub empty_body : Header → Bool
empty_body h = bytes_eq h.tx_hash empty_txs_hash

module _ (keccak : Bytes → Bytes) (tx_hash : Transaction → Bytes)
    (verify_signature : Bytes → Bytes → Bytes → Bool) where
  -- NewBlock, and the header of the caller as it is left: with no transactions its TxHash is
  -- overwritten.
  unfoldable pub new_block : Header → List Transaction → Bytes → Block × Header
  new_block h txs public_key = (
    record {
      header = record h { tx_hash = merkle_root keccak tx_hash verify_signature txs };
      transactions = txs;
      validator = public_key;
    },
    if length txs == 0 then record h { tx_hash = empty_txs_hash } else h,
  )

  -- NewBlockFromPrevHeader at the time `now`, and the previous header as it is left.
  unfoldable pub new_block_from_prev_header :
      (Header → Bytes) → ℕ → Header → List Transaction → Block × Header
  new_block_from_prev_header header_hash now prev txs =
      let (b, left) = new_block prev txs [] in
      (
        record b {
          header = record (b.header) {
            height = left.height + 1;
            parent_hash = header_hash left;
            timestamp = now;
            tx_hash =
                if length txs == 0
                then empty_txs_hash
                else merkle_root keccak tx_hash verify_signature txs;
          };
        },
        left,
      )

  -- Sign of a block. `sign` makes the 65 bytes of a signature with the key.
  unfoldable pub sign_block : (Bytes → Option Bytes) → Bytes → Block → Option Block
  sign_block sign public_key b = elim (sign (block_hash keccak b.header)) [
    | none ↦ none
    | some sig ↦ some (record b {
      validator = public_key;
      header = record (b.header) { block_signature = some sig };
    })
  ]
