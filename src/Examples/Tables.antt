-- ===== src/Examples/Tables.antt =====
-- Whole tables at concrete inputs.
use rfqrelayer.Prelude.{
  ℕ, ◌≡◌, refl, sym, inl, inr, Option, none, some, List, [], ◌∷◌, ◌++◌, arith, length, ok, err,
  Bool-cases, Bytes, bytes_eq,
}
use rfqrelayer.Prelude.Assoc.{lookup}
use rfqrelayer.Rfqdb.Memorydb.{Store, iterator_ops}
use rfqrelayer.Rfqdb.Memorydb.Contract.{memory_database}
use rfqrelayer.Rawdb.Table.Iteration.{table_entries}
use rfqrelayer.Core.Auction.{Chain, closed_table}
use rfqrelayer.Core.Auction.Reading.{not_decoded, read_table}
use rfqrelayer.Core.Auction.Reading.Rows.{read_table-fails, read_table-found}
use rfqrelayer.Examples.Auctions.{chain}

-- One row, of the key 7.
abbrev with_row : Chain Store
with_row = record chain { db = record { db = some ((closed_table ++ 7 ∷ [], 5 ∷ []) ∷ []) } }

abbrev first_byte : Bytes → Option ℕ
first_byte [] = none
first_byte (x ∷ b) = some x

abbrev nothing : Bytes → Option ℕ
nothing b = none

read_table-fails_example :
    read_table memory_database iterator_ops 2 closed_table nothing with_row ≡ err not_decoded
unfolding lookup bytes_eq
read_table-fails_example =
    read_table-fails nothing closed_table (7 ∷ []) (5 ∷ []) with_row 2 (refl, tt) (omega arith) refl
      refl

only_row :
    (j row : Bytes)
    → lookup (closed_table ++ j) ((closed_table ++ 7 ∷ [], 5 ∷ []) ∷ []) ≡ some row
    → (w : ℕ) × (first_byte row ≡ some w)
unfolding lookup
only_row j row e = elim (Bool-cases (bytes_eq (closed_table ++ 7 ∷ []) (closed_table ++ j))) [
  | inl same ↦ let z : 5 ∷ [] ≡ row = ground (arith, e, same) in (5, rw (sym z) refl)
  | inr other ↦ absurd (ground (arith, e, other))
]

read_table-found_example :
    (before after : List ℕ) × (read_table memory_database iterator_ops 2 closed_table first_byte
        with_row
      ≡ ok (before ++ 5 ∷ after))
    × (length (before ++ 5 ∷ after) ≡ length (table_entries with_row.db closed_table [] []))
unfolding lookup bytes_eq
read_table-found_example =
    read_table-found first_byte closed_table (7 ∷ []) (5 ∷ []) 5 with_row 2 (refl, tt) (omega arith)
      only_row refl refl
