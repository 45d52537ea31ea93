-- ===== src/Rfqdb/Memorydb/Batches.antt =====
-- rfqdb/memorydb/memorydb.go: a batch, and the calls that fill it.
use rfqrelayer.Prelude.{
  ℕ, ◌+◌, ◌≡◌, refl, sym, ◌≢◌, inl, inr, true, false, none, some, List, [], ◌∷◌, ◌++◌, map, arith,
  length, Bool-cases, Option-cases, Bytes,
}
use mathlib.Core.List.{append_assoc, append-nil}
use rfqrelayer.Prelude.Assoc.{Assoc, insert, delete}
use rfqrelayer.Rfqdb.Memorydb.{
  Store, put, remove, writer, KeyValue, Batch, new_batch, batch_put, batch_delete, batch_write,
  batch_replay, apply_writes, replay_writes,
}

-- The calls that fill a batch, and the same calls made to a store.
pub data Op : Type 0 where
  put_op : Bytes → Bytes → Op
  delete_op : Bytes → Op

pub fill : Batch → List Op → Batch
fill b [] = b
fill b (put_op k v ∷ ops) = fill (batch_put b k v) ops
fill b (delete_op k ∷ ops) = fill (batch_delete b k) ops

pub run : Store → List Op → Store
run s [] = s
run s (put_op k v ∷ ops) = run (put s k v).0 ops
run s (delete_op k ∷ ops) = run (remove s k).0 ops

as_write : Op → KeyValue
as_write (put_op k v) = record { key = k; value = v; is_delete = false }
as_write (delete_op k) = record { key = k; value = []; is_delete = true }

fill-writes : (b : Batch) (ops : List Op) → (fill b ops).writes ≡ b.writes ++ map as_write ops
unfolding fill batch_put batch_delete as_write
fill-writes b [] = sym (append-nil b.writes)
fill-writes b (put_op k v ∷ ops) =
    rw (fill-writes (batch_put b k v) ops) (append_assoc b.writes _ _)
fill-writes b (delete_op k ∷ ops) =
    rw (fill-writes (batch_delete b k) ops) (append_assoc b.writes _ _)

apply-run :
    (ops : List Op) (m : Assoc Bytes)
    → record { db = some (apply_writes (map as_write ops) m) } ≡ run (record { db = some m }) ops
unfolding apply_writes run put remove as_write
apply-run [] m = refl
apply-run (put_op k v ∷ ops) m = apply-run ops (insert k v m)
apply-run (delete_op k ∷ ops) m = apply-run ops (delete k m)

-- Write of a new batch to an open store succeeds, and leaves the store as the batch's calls would
-- have left it, made directly and in the same order.
pub batch_write-run :
    (s : Store) (ops : List Op)
    → s.db ≢ none
    → batch_write (fill new_batch ops) s ≡ (run s ops, none)
unfolding batch_write new_batch
batch_write-run s ops h = elim (Option-cases s.db) [
  | inl c ↦ absurd (h c)
  | inr (m, o) ↦
      rw (o, batch_write)
        (ground (arith, fill-writes (record { writes = []; size = 0 }) ops, apply-run ops m))
]

replay-apply :
    (ws : List KeyValue) (m : Assoc Bytes)
    → replay_writes writer ws (record { db = some m })
      ≡ (record { db = some (apply_writes ws m) }, none)
unfolding replay_writes apply_writes put remove
replay-apply [] m = refl
replay-apply (w ∷ ws) m = elim (Bool-cases w.is_delete) [
  | inl d ↦ rw d (replay-apply ws (delete w.key m))
  | inr p ↦ rw p (replay-apply ws (insert w.key w.value m))
]

-- Replay into an open store is Write to it.
pub batch_replay-write :
    (b : Batch) (s : Store) → s.db ≢ none → batch_replay writer b s ≡ batch_write b s
unfolding batch_replay batch_write
batch_replay-write b s h = elim (Option-cases s.db) [
  | inl c ↦ absurd (h c)
  | inr (m, o) ↦ rw (o, batch_replay, batch_write) (replay-apply b.writes m)
]

-- The bytes of a call that ValueSize counts.
abbrev pub op_size : Op → ℕ
op_size (put_op k v) = length k + length v
op_size (delete_op k) = length k

abbrev pub total : List Op → ℕ
total [] = 0
total (o ∷ os) = op_size o + total os

-- ValueSize of a new batch is the number of bytes in the keys and values of its calls.
pub fill-size : (b : Batch) (ops : List Op) → (fill b ops).size ≡ b.size + total ops
unfolding fill batch_put batch_delete
fill-size b [] = omega arith
fill-size b (put_op k v ∷ ops) = omega (arith, fill-size (batch_put b k v) ops)
fill-size b (delete_op k ∷ ops) = omega (arith, fill-size (batch_delete b k) ops)
