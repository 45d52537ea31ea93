-- ===== src/Rawdb/Table/Iteration.antt =====
-- core/rawdb/table.go: what a loop over a table's iterator meets.
use rfqrelayer.Prelude.{
  ℕ, zero, suc, ◌<◌, ◌≡◌, refl, sym, ap, ◌∙◌, true, ◌&&◌, none, List, [], ◌∷◌, ◌++◌, map, arith,
  if◌then◌else◌, length, drop, All, drop-append_length, drop_past, Bytes, bytes_eq_refl,
  bytes_eq-append, bytes_le, has_prefix, bytes_le-append, has_prefix-split, has_prefix-append_left,
  has_prefix-append_both,
}
use mathlib.Core.List.{append_assoc}
use rfqrelayer.Prelude.Assoc.{Assoc, lookup, keys, member, lookup-member, AreDistinct}
use rfqrelayer.Rfqdb.Interfaces.{IteratorOps}
use rfqrelayer.Rfqdb.Memorydb.{Store, Iterator, new_iterator, iterator_ops, contents}
use rfqrelayer.Rfqdb.Memorydb.Entries.{IsValid}
use rfqrelayer.Rfqdb.Memorydb.Sorting.{IsSorted}
use rfqrelayer.Rfqdb.Memorydb.Iteration.{
  collect, entries_of, entries_of_lem, collect-enough, new_iterator-length,
}
use rfqrelayer.Rfqdb.Memorydb.Contract.{memory_database, view}
use rfqrelayer.Rawdb.Table.{new_table, table_iterator}

strip : ℕ → Assoc Bytes → Assoc Bytes
strip n = map (λ e. (drop n e.0, e.1))

collect-strip :
    {I : Type 0} (o : IteratorOps I) (prefix : Bytes) (fuel : ℕ) (it : I)
    → collect (table_iterator o prefix) fuel it ≡ strip (length prefix) (collect o fuel it)
unfolding collect table_iterator strip
collect-strip o prefix zero it = refl
collect-strip o prefix (suc fuel) it =
    let nothing : drop (length prefix) [] ≡ [] =
      drop_past {A = ℕ} (length prefix) [] (omega arith) in
    ground (arith, collect-strip o prefix fuel (o.next it).0)

-- Its iterator has no error, as that of the store has none.
pub table_iterator-error :
    (prefix : Bytes) (it : Iterator) → (table_iterator iterator_ops prefix).error it ≡ none
unfolding table_iterator
table_iterator-error prefix it = refl

-- What a loop over a new iterator of a table on the in-memory store meets.
pub table_entries : Store → Bytes → Bytes → Bytes → Assoc Bytes
unfolding new_table
table_entries s prefix pr start =
    let it = (new_table memory_database prefix).new_iterator s pr start in
    collect (table_iterator iterator_ops prefix) (suc (length it.keys)) it

table_entries-strip :
    (s : Store) (prefix pr start : Bytes)
    → table_entries s prefix pr start ≡ strip (length prefix) (entries_of s (prefix ++ pr) start)
unfolding table_entries entries_of
table_entries-strip s prefix pr start =
    let it = new_iterator s (prefix ++ pr) start in
    collect-strip iterator_ops prefix (suc (length it.keys)) it

-- More fuel than the store has entries meets the same.
pub table_entries-fuel :
    (s : Store) (prefix pr start : Bytes) (fuel : ℕ)
    → length (contents s) < fuel
    → collect
        (table_iterator iterator_ops prefix)
        fuel
        ((new_table memory_database prefix).new_iterator s pr start)
      ≡ table_entries s prefix pr start
unfolding new_table
table_entries-fuel s prefix pr start fuel h =
    collect-strip iterator_ops prefix fuel (new_iterator s (prefix ++ pr) start)
    ∙ ap (strip (length prefix)) (
        collect-enough s (prefix ++ pr) start fuel
          (omega (arith, new_iterator-length s (prefix ++ pr) start)))
    ∙ sym (table_entries-strip s prefix pr start)

module _ (p : Bytes) where
  abbrev Prefixed : List Bytes → Type 0
  Prefixed = All (λ k. has_prefix k p ≡ true)

  keys-Prefixed :
      (ks : List Bytes) → ((k : Bytes) → member k ks ≡ true → has_prefix k p ≡ true) → Prefixed ks
  keys-Prefixed [] h = tt
  keys-Prefixed (k ∷ ks) h =
      (h k (rw (bytes_eq_refl k)), keys-Prefixed ks (λ j m. h j (ground arith)))

  drop-has_prefix : (k : Bytes) → has_prefix k p ≡ true → p ++ drop (length p) k ≡ k
  drop-has_prefix k h = let (r, e) = has_prefix-split k p h in rw (e, drop-append_length p r)

  lookup-strip :
      (m : Assoc Bytes) (k : Bytes)
      → Prefixed (keys m)
      → lookup k (strip (length p) m) ≡ lookup (p ++ k) m
  unfolding strip lookup
  lookup-strip [] k h = refl
  lookup-strip ((j, v) ∷ m) k h =
      let e = drop-has_prefix j h.0 in
      ground (arith, lookup-strip m k, bytes_eq-append p (drop (length p) j) k)

  IsSorted-strip :
      (m : Assoc Bytes)
      → Prefixed (keys m)
      → IsSorted (keys m)
      → IsSorted (keys (strip (length p) m))
  unfolding strip
  IsSorted-strip [] h s = tt
  IsSorted-strip ((j, v) ∷ m) h s = (above m h.1 s.0, IsSorted-strip m h.1 s.1)
    where
      above :
          (n : Assoc Bytes)
          → Prefixed (keys n)
          → All (λ i. bytes_le j i ≡ true) (keys n)
          → All (λ i. bytes_le (drop (length p) j) i ≡ true) (keys (strip (length p) n))
      above [] q a = tt
      above ((i, w) ∷ n) q a = (
        ground (
          arith,
          drop-has_prefix j h.0,
          drop-has_prefix i q.0,
          bytes_le-append p (drop (length p) j) (drop (length p) i),
        ),
        above n q.1 a.1,
      )

  member-strip :
      (m : Assoc Bytes) (k : Bytes)
      → Prefixed (keys m)
      → member k (keys (strip (length p) m)) ≡ member (p ++ k) (keys m)
  unfolding strip
  member-strip [] k h = refl
  member-strip ((j, v) ∷ m) k h =
      let e = drop-has_prefix j h.0 in
      ground (arith, member-strip m k, bytes_eq-append p (drop (length p) j) k)

  AreDistinct-strip :
      (m : Assoc Bytes)
      → Prefixed (keys m)
      → AreDistinct (keys m)
      → AreDistinct (keys (strip (length p) m))
  unfolding strip
  AreDistinct-strip [] h d = tt
  AreDistinct-strip ((j, v) ∷ m) h d = (
    member-strip m (drop (length p) j) h.1
        ∙ ap (λ i. member i (keys m)) (drop-has_prefix j h.0)
        ∙ d.0,
    AreDistinct-strip m h.1 d.1,
  )

-- A loop over a new iterator of a table on the in-memory store meets, by their keys in the table,
-- the entries of the table that have the prefix asked for and are not below prefix and start
-- together, and no other, in ascending order, each key once.
pub table_entries_lem :
    (s : Store) (prefix pr start : Bytes)
    → IsValid s
    → ((k : Bytes)
        → lookup k (table_entries s prefix pr start)
          ≡ (if has_prefix k pr && bytes_le (pr ++ start) k then view s (prefix ++ k) else none))
      × IsSorted (keys (table_entries s prefix pr start))
      × AreDistinct (keys (table_entries s prefix pr start))
table_entries_lem s prefix pr start v =
    let m = entries_of s (prefix ++ pr) start in
    let (found, sorted, distinct) = entries_of_lem s (prefix ++ pr) start v in
    let all : Prefixed prefix (keys m) =
      keys-Prefixed prefix (keys m) (λ k h.
        ground (arith, found k, (lookup-member k m).1, has_prefix-append_left prefix pr k)) in
    rw (table_entries-strip s prefix pr start) (
      (λ k.
          lookup-strip prefix m k all
          ∙ found (prefix ++ k)
          ∙ rw (
            append_assoc prefix pr start,
            has_prefix-append_both prefix k pr,
            bytes_le-append prefix (pr ++ start) k,
          )),
      IsSorted-strip prefix m all sorted,
      AreDistinct-strip prefix m all distinct,
    )
