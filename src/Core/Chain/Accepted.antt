-- ===== src/Core/Chain/Accepted.antt =====
-- core/blockchain.go and core/block_validator.go: which headers are found by their height, and which
-- blocks VerifyBlock takes.
use rfqrelayer.Prelude.{
  ℕ, zero, suc, ◌≤◌, ◌<◌, ◌≡◌, refl, ◌⊎◌, inl, inr, none, some, List, [], ◌∷◌, arith, ltb, ◌==◌,
  length, get_elem?, ok, err, panic, Bool-cases,
}
use rfqrelayer.Prelude.Int.{pos}
use rfqrelayer.Types.Block.{Header, Block}
use rfqrelayer.Core.Heap.Order.{get_elem?-lt}
use rfqrelayer.Core.Chain.{Ledger, no_header, get_block_header}

past_end : (l : List Header) (n : ℕ) → length l ≤ n → get_elem? l n ≡ none
past_end [] n h = refl
past_end (x ∷ l) zero h = absurd (omega arith)
past_end (x ∷ l) (suc n) h = past_end l n (omega arith)

-- GetBlockHeader finds the header of every height below the number of headers. At that number it
-- panics, and above it returns an error.
pub get_block_header_lem :
    {S : Type 0} (n : ℕ) (c : Ledger S)
    → ((h : Header) × (n < length c.headers)
        × (get_elem? c.headers n ≡ some h)
        × (get_block_header (pos n) c ≡ ok h))
      ⊎ ((n ≡ length c.headers) × (get_block_header (pos n) c ≡ panic))
      ⊎ ((length c.headers < n) × (get_block_header (pos n) c ≡ err no_header))
unfolding get_block_header
get_block_header_lem n c = elim (Bool-cases (ltb n (length c.headers))) [
  | inl below ↦
      let (h, e) = get_elem?-lt c.headers n (ground arith) in
      inl (h, ground arith, e, ground (arith, e))
  | inr other ↦ elim (Bool-cases (n == length c.headers)) [
    | inl same ↦ inr (inl (ground arith, ground (arith, past_end c.headers n (ground arith))))
    | inr above ↦ inr (inr (ground arith, ground arith))
  ]
]
