-- ===== src/Types/Block.antt =====
-- core/types/block.go: headers, blocks, the Merkle root of a block's transactions, and the check of a
-- block. Heights are not negative, since rlp refuses the others, and hashes are not cached.
pub mod Merkle
pub mod Making
use rfqrelayer.Prelude.{
  ℕ, zero, suc, ◌+◌, ◌-◌, ◌*◌, ◌/◌, ◌%◌, ◌^◌, ◌≤◌, ◌<◌, ◌≡◌, refl, sym, ap, ◌∙◌, ◌≢◌, ◌↔◌, ◌⊎◌, inl,
  inr, Bool, true, false, ◌&&◌, ◌||◌, not, Option, none, some, List, [], ◌∷◌, ◌++◌, map, arith, ltb,
  leb, ◌==◌, if◌then◌else◌, length, get_elem?, set, take, drop, replicate, keep_if, All, Result, ok,
  err, panic, ◌>>=◌, ◌>>◌, Bool-cases, Option-cases, List-cases, length-append, length-take,
  length-drop, length-replicate, length-map, drop-append_length, get_elem?-append,
  get_elem?-append_length, drop-append, drop_one-drop, drop-get_elem?, drop_past, get_elem?-map,
  Bytes, bytes_eq, bytes_eq_iff, bytes_eq_refl, bytes_eq-append, bytes_le, has_prefix,
  has_prefix-append, bytes_le-append,
}
use rfqrelayer.Prelude.Numbers.{put_uint64, big_bytes}
use rfqrelayer.Types.Data.{Transaction}

pub record Header : Type 0 where
  pub version : ℕ
  pub tx_hash : Bytes
  pub parent_hash : Bytes
  pub timestamp : ℕ
  pub height : ℕ
  pub block_signature : Option Bytes

pub record Body : Type 0 where
  pub transactions : List Transaction
  pub validator : Bytes

pub record Block : Type 0 where
  pub header : Header
  pub transactions : List Transaction
  pub validator : Bytes

-- *types.Block of a peer, whose header may be nil.
pub record RawBlock : Type 0 where
  pub header : Option Header
  pub transactions : List Transaction
  pub validator : Bytes

abbrev pub raw : Block → RawBlock
raw b = record { header = some b.header; transactions = b.transactions; validator = b.validator }

-- EmptyTxsHash
abbrev pub empty_txs_hash : Bytes
empty_txs_hash =
    86 ∷ 232 ∷ 31 ∷ 23 ∷ 27 ∷ 204 ∷ 85 ∷ 166 ∷ 255 ∷ 131 ∷ 69 ∷ 230 ∷ 146 ∷ 192 ∷ 248 ∷ 110 ∷ 91
    ∷ 72 ∷ 224 ∷ 27 ∷ 153 ∷ 108 ∷ 173 ∷ 192 ∷ 1 ∷ 98 ∷ 47 ∷ 181 ∷ 227 ∷ 99 ∷ 180 ∷ 33 ∷ []

-- A level of odd length takes its last hash once more.
unfoldable pub pad : List Bytes → List Bytes
pad hs =
    if length hs % 2 == 1
    then elim (get_elem? hs (length hs - 1)) [ none ↦ hs | some h ↦ hs ++ h ∷ [] ]
    else hs

unfoldable pub body : Block → Body
body b = record { transactions = b.transactions; validator = b.validator }

pub data BlockError : Type 0 where
  no_signature bad_signature_length invalid_signature data_hash_mismatch : BlockError

-- `keccak` is Keccak-256.
module _ (keccak : Bytes → Bytes) where
  -- The inner loop of MerkleRoot, on a level of even length.
  unfoldable pub pair_hashes : List Bytes → List Bytes
  pair_hashes [] = []
  pair_hashes (x ∷ []) = []
  pair_hashes (x ∷ y ∷ hs) = keccak (x ++ y) ∷ pair_hashes hs

  -- The outer loop, on fuel.
  unfoldable pub levels : ℕ → List Bytes → List Bytes
  levels zero hs = hs
  levels (suc fuel) hs =
      let rest = levels fuel (pair_hashes (pad hs)) in if ltb 1 (length hs) then rest else hs

  unfoldable pub root_of : List Bytes → Bytes
  root_of [] = empty_txs_hash
  root_of (h ∷ hs) = elim (levels (length (h ∷ hs)) (h ∷ hs)) [ [] ↦ [] | r ∷ _ ↦ r ]

  -- Block.Hash
  unfoldable pub block_hash : Header → Bytes
  block_hash h = keccak (
      put_uint64 h.version
      ++ h.parent_hash
      ++ h.tx_hash
      ++ big_bytes h.height
      ++ put_uint64 h.timestamp)

-- `tx_hash` is the hash of a transaction, and `verify_signature` the check of a signature of 64 bytes
-- by a public key on a digest.
module _ (keccak : Bytes → Bytes) (tx_hash : Transaction → Bytes)
    (verify_signature : Bytes → Bytes → Bytes → Bool) where
  unfoldable pub merkle_root : List Transaction → Bytes
  merkle_root txs = root_of keccak (map tx_hash txs)

  -- Block.Verify, with DeserializeSig and Signature.Verify.
  unfoldable pub verify : Block → Result BlockError (Unit {0})
  verify b = elim b.header.block_signature [
    | none ↦ err no_signature
    | some sig ↦
        if not (length sig == 65)
        then err bad_signature_length
        else if not (verify_signature b.validator (block_hash keccak b.header) (take 64 sig))
        then err invalid_signature
        else if not (bytes_eq (merkle_root b.transactions) b.header.tx_hash)
        then err data_hash_mismatch
        else ok tt
  ]
