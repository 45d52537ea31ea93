-- ===== src/Core/Auction/Reading/Rows.antt =====
-- core/blockchain.go: what the functions that read a whole table give on the in-memory store.
use rfqrelayer.Prelude.{
  ℕ, zero, suc, ◌<◌, ◌≡◌, refl, sym, ap, ◌∙◌, inl, inr, Option, none, some, List, [], ◌∷◌, ◌++◌,
  arith, length, All, Result, ok, err, ◌>>=◌, Bool-cases, Option-cases, Bytes, bytes_eq,
  bytes_eq_iff, bytes_eq_refl, bytes_le, has_prefix,
}
use rfqrelayer.Prelude.Assoc.{Assoc, lookup, keys, AreDistinct, lookup-member}
use rfqrelayer.Rfqdb.Interfaces.{IteratorOps}
use rfqrelayer.Rfqdb.Memorydb.{Store, iterator_ops, contents}
use rfqrelayer.Rfqdb.Memorydb.Entries.{IsValid}
use rfqrelayer.Rfqdb.Memorydb.Iteration.{collect}
use rfqrelayer.Rfqdb.Memorydb.Contract.{memory_database, view}
use rfqrelayer.Rawdb.Table.{table_iterator}
use rfqrelayer.Rawdb.Table.Iteration.{
  table_entries, table_iterator-error, table_entries-fuel, table_entries_lem,
}
use rfqrelayer.Core.Auction.{Chain}
use rfqrelayer.Core.Auction.Reading.{ReadError, not_decoded, read_rows, read_table}

module _ {V : Type 0} (decode : Bytes → Option V) where
  decode_rows : Assoc Bytes → Result ReadError (List V)
  decode_rows [] = ok []
  decode_rows ((k, b) ∷ m) = elim (decode b) [
    | none ↦ err not_decoded
    | some v ↦ decode_rows m >>= λ vs. ok (v ∷ vs)
  ]

  -- A loop whose iterator has no errors decodes the rows that it meets.
  read_rows-collect :
      {I : Type 0} (o : IteratorOps I) (fuel : ℕ) (it : I)
      → ((i : I) → o.error i ≡ none)
      → read_rows o decode fuel it ≡ decode_rows (collect o fuel it)
  unfolding read_rows collect decode_rows
  read_rows-collect o zero it h = refl
  read_rows-collect o (suc fuel) it h =
      ground (arith, read_rows-collect o fuel (o.next it).0 h, h (o.next it).0)

  Decoded : Assoc Bytes → Type 0
  Decoded = All (λ e. (v : V) × (decode e.1 ≡ some v))

  -- Rows under distinct keys are decoded if each that a lookup finds is.
  lookup-Decoded :
      (m : Assoc Bytes)
      → AreDistinct (keys m)
      → ((k b : Bytes) → lookup k m ≡ some b → (v : V) × (decode b ≡ some v))
      → Decoded m
  unfolding Decoded lookup
  lookup-Decoded [] d h = tt
  lookup-Decoded ((j, b) ∷ m) (out, d) h = (
    h j b (rw (bytes_eq_refl j) refl),
    lookup-Decoded m d (λ k c found. h k c (elim (Bool-cases (bytes_eq j k)) [
      | inl same ↦
          let e = (bytes_eq_iff j k).0 same in
          absurd (ground (arith, (lookup-member j m).0 out, found, ap (λ i. lookup i m) e))
      | inr other ↦ rw other found
    ])),
  )

  decode_rows-ok :
      (m : Assoc Bytes)
      → Decoded m
      → (vs : List V) × (decode_rows m ≡ ok vs) × (length vs ≡ length m)
  unfolding Decoded decode_rows
  decode_rows-ok [] h = ([], refl, refl)
  decode_rows-ok ((k, b) ∷ m) ((v, e), h) =
      let (vs, f, l) = decode_rows-ok m h in (v ∷ vs, rw (e, decode_rows) (rw f refl), omega arith)

  decode_rows-found :
      (m : Assoc Bytes) (k b : Bytes) (v : V)
      → Decoded m
      → lookup k m ≡ some b
      → decode b ≡ some v
      → (before after : List V) × (decode_rows m ≡ ok (before ++ v ∷ after))
        × (length (before ++ v ∷ after) ≡ length m)
  unfolding Decoded decode_rows lookup
  decode_rows-found [] k b v h found e = absurd (ground arith)
  decode_rows-found ((j, c) ∷ m) k b v ((w, f), h) found e = elim (Bool-cases (bytes_eq j k)) [
    | inl same ↦
        let (vs, g, l) = decode_rows-ok m h in
        let here : w ≡ v = ground (arith, found, same, e, f) in
        ([], vs, rw (f, decode_rows) (rw (g, here) refl), omega arith)
    | inr other ↦
        let (before, after, g, l) = decode_rows-found m k b v h (ground (arith, found, other)) e in
        (w ∷ before, after, rw (f, decode_rows) (rw g refl), omega arith)
  ]

  decode_rows-bad :
      (m : Assoc Bytes) (k b : Bytes)
      → lookup k m ≡ some b
      → decode b ≡ none
      → decode_rows m ≡ err not_decoded
  unfolding decode_rows lookup
  decode_rows-bad [] k b found e = absurd (ground arith)
  decode_rows-bad ((j, c) ∷ m) k b found e = elim (Bool-cases (bytes_eq j k)) [
    | inl same ↦
        let here : c ≡ b = ground (arith, found, same) in rw here (rw (e, decode_rows) refl)
    | inr other ↦
        let rest = decode_rows-bad m k b (ground (arith, found, other)) e in
        elim (Option-cases (decode c)) [
          | inl f ↦ rw (f, decode_rows) refl
          | inr (w, f) ↦ rw (f, decode_rows) (rw rest refl)
        ]
  ]

  -- What the loop meets in a table of the in-memory store, by the keys in the table.
  abbrev rows_of : Bytes → Chain Store → Assoc Bytes
  rows_of name c = table_entries c.db name [] []

  row_of :
      (name : Bytes) (c : Chain Store) (k : Bytes)
      → IsValid c.db
      → lookup k (rows_of name c) ≡ view c.db (name ++ k)
  unfolding has_prefix bytes_le
  row_of name c k valid = (table_entries_lem c.db name [] [] valid).0 k

  read_table-rows :
      (name : Bytes) (c : Chain Store) (fuel : ℕ)
      → length (contents c.db) < fuel
      → read_table memory_database iterator_ops fuel name decode c ≡ decode_rows (rows_of name c)
  unfolding read_table
  read_table-rows name c fuel enough =
      read_rows-collect (table_iterator iterator_ops name) fuel _ (table_iterator-error name)
      ∙ ap decode_rows (table_entries-fuel c.db name [] [] fuel enough)

  -- A loop over a table of the in-memory store that reads a row which is not decoded ends with an
  -- error. It has more rounds than the store has entries.
  pub read_table-fails :
      (name k b : Bytes) (c : Chain Store) (fuel : ℕ)
      → IsValid c.db
      → length (contents c.db) < fuel
      → view c.db (name ++ k) ≡ some b
      → decode b ≡ none
      → read_table memory_database iterator_ops fuel name decode c ≡ err not_decoded
  read_table-fails name k b c fuel valid enough found e =
      read_table-rows name c fuel enough
      ∙ decode_rows-bad (rows_of name c) k b (row_of name c k valid ∙ found) e

  -- A loop over a table of the in-memory store, whose rows are all decoded, gives one value for each
  -- row, and that of the row at any key is among them. It has more rounds than the store has entries.
  pub read_table-found :
      (name k b : Bytes) (v : V) (c : Chain Store) (fuel : ℕ)
      → IsValid c.db
      → length (contents c.db) < fuel
      → ((j row : Bytes) → view c.db (name ++ j) ≡ some row → (w : V) × (decode row ≡ some w))
      → view c.db (name ++ k) ≡ some b
      → decode b ≡ some v
      → (before after : List V) × (read_table memory_database iterator_ops fuel name decode c
          ≡ ok (before ++ v ∷ after))
        × (length (before ++ v ∷ after) ≡ length (table_entries c.db name [] []))
  read_table-found name k b v c fuel valid enough all found e =
      let (at, _, distinct) = table_entries_lem c.db name [] [] valid in
      let decoded =
        lookup-Decoded (rows_of name c) distinct
          (λ j row r. all j row (sym (row_of name c j valid) ∙ r)) in
      let (before, after, g, l) =
        decode_rows-found (rows_of name c) k b v decoded (row_of name c k valid ∙ found) e in
      (before, after, read_table-rows name c fuel enough ∙ g, l)
