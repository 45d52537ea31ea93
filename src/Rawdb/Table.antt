-- ===== src/Rawdb/Table.antt =====
-- core/rawdb/table.go: a database seen through a prefix on its keys, and the batches, replayers and
-- iterators that go with it. The wrapped database is any implementation of the interface.
pub mod Contract
pub mod Iteration
pub mod Compaction
use rfqrelayer.Prelude.{
  ℕ, zero, suc, ◌+◌, ◌-◌, ◌*◌, ◌/◌, ◌%◌, ◌^◌, ◌≤◌, ◌<◌, ◌≡◌, refl, sym, ap, ◌∙◌, ◌≢◌, ◌↔◌, ◌⊎◌, inl,
  inr, Bool, true, false, ◌&&◌, ◌||◌, not, Option, none, some, List, [], ◌∷◌, ◌++◌, map, arith, ltb,
  leb, ◌==◌, if◌then◌else◌, length, get_elem?, set, take, drop, replicate, keep_if, All, Result, ok,
  err, panic, ◌>>=◌, ◌>>◌, Bool-cases, Option-cases, List-cases, length-append, length-take,
  length-drop, length-replicate, length-map, drop-append_length, get_elem?-append,
  get_elem?-append_length, drop-append, drop_one-drop, drop-get_elem?, drop_past, get_elem?-map,
  Bytes, bytes_eq, bytes_eq_iff, bytes_eq_refl, bytes_eq-append, bytes_le, has_prefix,
}
use rfqrelayer.Rfqdb.Interfaces.{DbError, Writer, IteratorOps, Database}

-- A slice expression `key[n:]` panics where the key is shorter; the wrapped database never hands
-- out such a key, and `drop` gives the empty slice.
pub table_iterator : {I : Type 0} → IteratorOps I → Bytes → IteratorOps I
table_iterator o prefix = record {
  next = o.next;
  error = o.error;
  key = λ it. elim (o.key it) [ none ↦ none | some k ↦ some (drop (length prefix) k) ];
  value = o.value;
  release = o.release;
}

pub table_writer : {W : Type 0} → Writer W → Bytes → Writer W
table_writer w prefix = record {
  put = λ s k v. w.put s (prefix ++ k) v;
  delete = λ s k. w.delete s (prefix ++ k);
}

-- tableReplayer, through which a table's batch is replayed into a writer.
abbrev pub table_replayer : {W : Type 0} → Writer W → Bytes → Writer W
table_replayer w prefix = record {
  put = λ s k v. w.put s (drop (length prefix) k) v;
  delete = λ s k. w.delete s (drop (length prefix) k);
}

byte_at : Bytes → ℕ → ℕ
byte_at l i = elim (get_elem? l i) [ none ↦ 0 | some b ↦ b ]

-- The loop of Compact over `limit`, at the index below `n`; `none` is the nil limit.
bump : ℕ → Bytes → Option Bytes
bump zero limit = some limit
bump (suc i) limit =
    let b = (byte_at limit i + 1) % 256 in
    let rest = bump i (set limit i b) in
    if ltb 0 b then some (set limit i b) else if i == 0 then none else rest

pub compact_start : Bytes → Option Bytes → Bytes
compact_start prefix none = prefix
compact_start prefix (some start) = prefix ++ start

pub compact_limit : Bytes → Option Bytes → Option Bytes
compact_limit prefix none = bump (length prefix) prefix
compact_limit prefix (some limit) = some (prefix ++ limit)

pub new_table : {S I : Type 0} → Database S I → Bytes → Database S I
new_table d prefix = record {
  has = λ s k. d.has s (prefix ++ k);
  get = λ s k. d.get s (prefix ++ k);
  writer = table_writer d.writer prefix;
  new_iterator = λ s pr start. d.new_iterator s (prefix ++ pr) start;
  compact =
      λ s start limit. d.compact s (some (compact_start prefix start)) (compact_limit prefix limit);
}
