-- ===== src/Rfqdb/Memorydb.antt =====
-- rfqdb/memorydb/memorydb.go: the in-memory key-value store, its write batches, its iterators and
-- its snapshots. A nil map (a closed store, a released snapshot) is `none`. Values are immutable
-- here, so that CopyBytes is the identity.
pub mod Entries
pub mod Batches
pub mod Sorting
pub mod Iteration
pub mod Contract
use rfqrelayer.Prelude.{
  ℕ, zero, suc, ◌+◌, ◌-◌, ◌*◌, ◌/◌, ◌%◌, ◌^◌, ◌≤◌, ◌<◌, ◌≡◌, refl, sym, ap, ◌∙◌, ◌≢◌, ◌↔◌, ◌⊎◌, inl,
  inr, Bool, true, false, ◌&&◌, ◌||◌, not, Option, none, some, List, [], ◌∷◌, ◌++◌, map, arith, ltb,
  leb, ◌==◌, if◌then◌else◌, length, get_elem?, set, take, drop, replicate, keep_if, All, Result, ok,
  err, panic, ◌>>=◌, ◌>>◌, Bool-cases, Option-cases, List-cases, length-append, length-take,
  length-drop, length-replicate, length-map, drop-append_length, get_elem?-append,
  get_elem?-append_length, drop-append, drop_one-drop, Bytes, bytes_eq, bytes_eq_iff, bytes_eq_refl,
  bytes_eq-append, bytes_le, has_prefix,
}
use rfqrelayer.Prelude.Assoc.{Assoc, lookup, insert, delete, keys}
use rfqrelayer.Rfqdb.Interfaces.{DbError, Writer, IteratorOps, closed, not_found, snapshot_released}

pub record Store : Type 0 where
  pub db : Option (Assoc Bytes)

abbrev pub new : Store
new = record { db = some [] }

pub close : Store → Store
close s = record { db = none }

pub has : Store → Bytes → Result DbError Bool
has s key = elim s.db [
  | none ↦ err closed
  | some m ↦ elim (lookup key m) [ none ↦ ok false | some _ ↦ ok true ]
]

pub get : Store → Bytes → Result DbError Bytes
get s key = elim s.db [
  | none ↦ err closed
  | some m ↦ elim (lookup key m) [ none ↦ err not_found | some entry ↦ ok entry ]
]

pub put : Store → Bytes → Bytes → Store × Option DbError
put s key value = elim s.db [
  | none ↦ (s, some closed)
  | some m ↦ (record { db = some (insert key value m) }, none)
]

-- Delete of the store.
pub remove : Store → Bytes → Store × Option DbError
remove s key = elim s.db [
  | none ↦ (s, some closed)
  | some m ↦ (record { db = some (delete key m) }, none)
]

-- Len; of a nil map it is 0.
abbrev pub size : Store → ℕ
size s = elim s.db [ none ↦ 0 | some m ↦ length m ]

abbrev pub writer : Writer Store
writer = record { put = put; delete = remove }

pub record KeyValue : Type 0 where
  pub key : Bytes
  pub value : Bytes
  pub is_delete : Bool

pub record Batch : Type 0 where
  pub writes : List KeyValue
  pub size : ℕ

pub new_batch : Batch
new_batch = record { writes = []; size = 0 }

pub batch_put : Batch → Bytes → Bytes → Batch
batch_put b k v = record {
  writes = b.writes ++ record { key = k; value = v; is_delete = false } ∷ [];
  size = b.size + (length k + length v);
}

pub batch_delete : Batch → Bytes → Batch
batch_delete b k = record {
  writes = b.writes ++ record { key = k; value = []; is_delete = true } ∷ [];
  size = b.size + length k;
}

abbrev pub batch_reset : Batch → Batch
batch_reset b = record { writes = []; size = 0 }

-- The loop of Write.
apply_writes : List KeyValue → Assoc Bytes → Assoc Bytes
apply_writes [] m = m
apply_writes (w ∷ ws) m =
    apply_writes ws (if w.is_delete then delete w.key m else insert w.key w.value m)

pub batch_write : Batch → Store → Store × Option DbError
unfolding apply_writes
batch_write b s = elim s.db [
  | none ↦ (s, some closed)
  | some m ↦ (record { db = some (apply_writes b.writes m) }, none)
]

-- Replay stops at the first error of the writer.
replay_writes : {W : Type 0} → Writer W → List KeyValue → W → W × Option DbError
replay_writes w [] s = (s, none)
replay_writes w (kv ∷ kvs) s =
    let step = if kv.is_delete then w.delete s kv.key else w.put s kv.key kv.value in
    let rest = replay_writes w kvs step.0 in elim step.1 [ none ↦ rest | some e ↦ (step.0, some e) ]

pub batch_replay : {W : Type 0} → Writer W → Batch → W → W × Option DbError
unfolding replay_writes
batch_replay w b s = replay_writes w b.writes s

-- `index` of the code is one less, so that 0 stands before the first entry.
pub record Iterator : Type 0 where
  pub position : ℕ
  pub keys : List Bytes
  pub values : List Bytes

-- The keys with a prefix that are not below `st`.
pub matching : Bytes → Bytes → List Bytes → List Bytes
matching pr st = keep_if (λ k. has_prefix k pr && bytes_le st k)

-- sort.Strings
insert_sorted : Bytes → List Bytes → List Bytes
insert_sorted k [] = k ∷ []
insert_sorted k (j ∷ js) = if bytes_le k j then k ∷ j ∷ js else j ∷ insert_sorted k js

pub sort_strings : List Bytes → List Bytes
unfolding insert_sorted
sort_strings [] = []
sort_strings (k ∷ ks) = insert_sorted k (sort_strings ks)

-- `db.db[key]`, nil for a missing key.
pub value_of : Assoc Bytes → Bytes → Bytes
value_of m k = elim (lookup k m) [ none ↦ [] | some v ↦ v ]

abbrev pub contents : Store → Assoc Bytes
contents s = elim s.db [ none ↦ [] | some m ↦ m ]

pub new_iterator : Store → Bytes → Bytes → Iterator
unfolding matching sort_strings value_of
new_iterator s pr start =
    let ks = sort_strings (matching pr (pr ++ start) (keys (contents s))) in
    record { position = 0; keys = ks; values = map (value_of (contents s)) ks }

pub next : Iterator → Iterator × Bool
next it =
    if ltb (length it.keys) it.position
    then (it, false)
    else (record it { position = suc it.position }, leb (suc it.position) (length it.keys))

at_position : List Bytes → ℕ → Option Bytes
at_position l zero = none
at_position l (suc i) = get_elem? l i

pub key : Iterator → Option Bytes
unfolding at_position
key it = if ltb (length it.keys) it.position then none else at_position it.keys it.position

pub value : Iterator → Option Bytes
unfolding at_position
value it = if ltb (length it.keys) it.position then none else at_position it.values it.position

abbrev pub release : Iterator → Iterator
release it = record { position = 0; keys = []; values = [] }

abbrev pub iterator_ops : IteratorOps Iterator
iterator_ops = record {
  next = next;
  error = λ it. none;
  key = key;
  value = value;
  release = release;
}

pub record Snapshot : Type 0 where
  pub db : Option (Assoc Bytes)

-- A snapshot of a closed store is empty, and not released.
pub new_snapshot : Store → Snapshot
new_snapshot s = record { db = some (contents s) }

pub snapshot_has : Snapshot → Bytes → Result DbError Bool
snapshot_has s key = elim s.db [
  | none ↦ err snapshot_released
  | some m ↦ elim (lookup key m) [ none ↦ ok false | some _ ↦ ok true ]
]

pub snapshot_get : Snapshot → Bytes → Result DbError Bytes
snapshot_get s key = elim s.db [
  | none ↦ err snapshot_released
  | some m ↦ elim (lookup key m) [ none ↦ err not_found | some entry ↦ ok entry ]
]

abbrev pub snapshot_release : Snapshot → Snapshot
snapshot_release s = record { db = none }
