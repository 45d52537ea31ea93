-- ===== src/Network/Server/Ready.antt =====
-- network/server.go and core/types/block.go: the block that CreateNewBlock makes.
use rfqrelayer.Prelude.{ℕ, ◌≡◌, true, some, List, ◌==◌, if◌then◌else◌, length, take, Bytes}
use rfqrelayer.Types.Data.{Transaction}
use rfqrelayer.Types.Block.{Header, Block}
use rfqrelayer.Network.Node.{Node, Externals}
use rfqrelayer.Types.Block.{empty_txs_hash, merkle_root}
use rfqrelayer.Types.Block.Making.{new_block_from_prev_header}

module _ {S I : Type 0} (x : Externals S I) where
  abbrev signed_by : Bytes → Block → Block
  signed_by sig b = record b {
    validator = x.public_key;
    header = record (b.header) { block_signature = some sig };
  }

  -- The key signs every digest with 65 bytes that its public key accepts.
  unfoldable pub IsSigner : Type 0
  IsSigner =
      (digest : Bytes)
      → (sig : Bytes) × (x.sign digest ≡ some sig)
        × (length sig ≡ 65)
        × (x.verify_signature x.public_key digest (take 64 sig) ≡ true)

  abbrev made : ℕ → Header → List Transaction → Block × Header
  made = new_block_from_prev_header x.keccak x.tx_hash x.verify_signature x.header_hash

  abbrev root : List Transaction → Bytes
  root = merkle_root x.keccak x.tx_hash x.verify_signature

  -- What the previous header is left as.
  abbrev pub left_of : Header → List Transaction → Header
  left_of prev txs = if length txs == 0 then record prev { tx_hash = empty_txs_hash } else prev
