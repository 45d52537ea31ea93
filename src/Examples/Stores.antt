-- ===== src/Examples/Stores.antt =====
-- The in-memory store, its batches and the tables over it at concrete inputs.
use rfqrelayer.Prelude.{
  ℕ, ◌≡◌, refl, ◌≢◌, ◌⊎◌, true, ◌&&◌, none, some, List, [], ◌∷◌, ◌++◌, arith, if◌then◌else◌, All,
  Bytes, bytes_eq, bytes_le, has_prefix,
}
use rfqrelayer.Prelude.Assoc.{lookup, keys, AreDistinct}
use rfqrelayer.Rfqdb.Interfaces.{IsKeyValue}
use rfqrelayer.Rfqdb.Memorydb.{Store, new_batch, batch_write, contents}
use rfqrelayer.Rfqdb.Memorydb.Batches.{Op, put_op, delete_op, fill, run, batch_write-run}
use rfqrelayer.Rfqdb.Memorydb.Sorting.{IsSorted}
use rfqrelayer.Rfqdb.Memorydb.Iteration.{entries_of, entries_of_lem}
use rfqrelayer.Rfqdb.Memorydb.Contract.{memory_database, IsOpen, view, memory_database-IsKeyValue}
use rfqrelayer.Rawdb.Table.{new_table, compact_start, compact_limit}
use rfqrelayer.Rawdb.Table.Contract.{new_table-IsKeyValue, new_table_apart}
use rfqrelayer.Rawdb.Table.Iteration.{table_entries, table_entries_lem}
use rfqrelayer.Rawdb.Table.Compaction.{compact_covers, is_below}

-- A store with three entries, two of them under the prefix `a`.
abbrev small_store : Store
small_store = record {
  db = some ((b'a' ∷ b'y' ∷ [], 1 ∷ []) ∷ (b'b' ∷ [], 2 ∷ []) ∷ (b'a' ∷ b'x' ∷ [], 3 ∷ []) ∷ []);
}

abbrev a_prefix : Bytes
a_prefix = b'a' ∷ []

abbrev b_prefix : Bytes
b_prefix = b'b' ∷ []

small_store-IsOpen : IsOpen small_store
small_store-IsOpen e = cc

small_store-IsValid : AreDistinct (keys (contents small_store))
unfolding bytes_eq
small_store-IsValid = (refl, (refl, (refl, tt)))

new_table-IsKeyValue_example :
    IsKeyValue (new_table memory_database a_prefix) IsOpen (λ s k. view s (a_prefix ++ k))
new_table-IsKeyValue_example = new_table-IsKeyValue memory_database-IsKeyValue a_prefix

abbrev written : Store
written = ((new_table memory_database a_prefix).writer.put small_store (b'z' ∷ []) (9 ∷ [])).0

abbrev deleted : Store
deleted = ((new_table memory_database a_prefix).writer.delete small_store (b'z' ∷ [])).0

new_table_apart_example :
    ((new_table memory_database b_prefix).get written []
      ≡ (new_table memory_database b_prefix).get small_store [])
    × ((new_table memory_database b_prefix).has written []
        ≡ (new_table memory_database b_prefix).has small_store [])
    × ((new_table memory_database b_prefix).get deleted []
        ≡ (new_table memory_database b_prefix).get small_store [])
    × ((new_table memory_database b_prefix).has deleted []
        ≡ (new_table memory_database b_prefix).has small_store [])
unfolding has_prefix
new_table_apart_example =
    new_table_apart memory_database-IsKeyValue a_prefix b_prefix small_store (b'z' ∷ []) (9 ∷ []) []
      small_store-IsOpen refl refl

table_entries_lem_example :
    ((k : Bytes)
      → lookup k (table_entries small_store a_prefix [] [])
        ≡ (if has_prefix k [] && bytes_le [] k then view small_store (a_prefix ++ k) else none))
    × IsSorted (keys (table_entries small_store a_prefix [] []))
    × AreDistinct (keys (table_entries small_store a_prefix [] []))
table_entries_lem_example = table_entries_lem small_store a_prefix [] [] small_store-IsValid

compact_covers_example :
    (bytes_le (compact_start (7 ∷ 255 ∷ []) none) (7 ∷ 255 ∷ 3 ∷ []) ≡ true)
    × (is_below (7 ∷ 255 ∷ 3 ∷ []) (compact_limit (7 ∷ 255 ∷ []) none) ≡ true)
    × ((compact_limit (7 ∷ 255 ∷ []) none ≢ none) ⊎ All {A = ℕ} (λ b. b ≡ 255) (7 ∷ 255 ∷ []))
unfolding has_prefix
compact_covers_example =
    compact_covers (7 ∷ 255 ∷ []) (7 ∷ 255 ∷ 3 ∷ []) (omega arith) (omega arith, (omega arith, tt))
      refl

entries_of_lem_example :
    ((k : Bytes)
      → lookup k (entries_of small_store a_prefix []) ≡ (
          if has_prefix k a_prefix && bytes_le a_prefix k
          then lookup k (contents small_store)
          else none))
    × IsSorted (keys (entries_of small_store a_prefix []))
    × AreDistinct (keys (entries_of small_store a_prefix []))
entries_of_lem_example = entries_of_lem small_store a_prefix [] small_store-IsValid

abbrev calls : List Op
calls = put_op (b'c' ∷ []) (4 ∷ []) ∷ delete_op (b'b' ∷ []) ∷ put_op (b'c' ∷ []) (5 ∷ []) ∷ []

batch_write-run_example :
    batch_write (fill new_batch calls) small_store ≡ (run small_store calls, none)
batch_write-run_example = batch_write-run small_store calls small_store-IsOpen
