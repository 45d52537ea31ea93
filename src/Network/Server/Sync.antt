-- ===== src/Network/Server/Sync.antt =====
-- network/server.go: a node that asks a peer for the blocks it lacks, and gets its answer through gob.
use rfqrelayer.Prelude.{ℕ, ◌≡◌, some, List, [], ◌∷◌, map, get_elem?, ok}
use rfqrelayer.Types.Block.{Header, Block}
use rfqrelayer.Core.Chain.{Ledger, get_block}
use rfqrelayer.Network.Rpc.{FullBlock, through_gob}
use rfqrelayer.Network.Node.{Node, Externals}
use rfqrelayer.Network.Server.{full_block}
use rfqrelayer.Core.Chain.{add_block_without_validation}

-- A block without its transactions.
abbrev pub emptied : Block → Block
emptied b = record b { transactions = [] }

-- An answer that has come through gob.
abbrev pub answer_of : List Block → List FullBlock
answer_of bs = map through_gob (map full_block bs)

module _ {S I : Type 0} (x : Externals S I) where
  -- GetBlock finds a block of each header.
  unfoldable pub IsServed : Ledger S → Type 0
  IsServed c =
      (i readers : ℕ) (h : Header)
      → get_elem? c.headers i ≡ some h
      → (b : Block) × (get_block x.database x.decode_header x.decode_body x.header_hash i c readers
          ≡ (ok b, readers))
        × (b.header ≡ h)

  -- addBlockWithoutValidation of one block after the other.
  abbrev pub add_all : List Block → Ledger S → Ledger S
  add_all [] c = c
  add_all (b ∷ bs) c = add_all bs (
      add_block_without_validation x.tx_hash x.valid_values x.recover x.database.writer x.keccak
        x.verify_signature x.header_hash x.encode_header x.encode_body b c)
