-- ===== src/Rfqdb/Memorydb/Contract.antt =====
-- rfqdb/memorydb/memorydb.go: the in-memory store as a Database.
use rfqrelayer.Prelude.{
  ◌≡◌, refl, ◌≢◌, inl, inr, Option, none, some, [], arith, if◌then◌else◌, Option-cases, Bytes,
  bytes_eq,
}
use rfqrelayer.Prelude.Assoc.{lookup, lookup-insert, lookup-delete}
use rfqrelayer.Rfqdb.Interfaces.{DbError, Database, IsKeyValue, answer, present}
use rfqrelayer.Rfqdb.Memorydb.{
  Store, Iterator, has, get, put, remove, writer, new_iterator, contents,
}

-- Compact of the store does nothing.
abbrev pub compact : Store → Option Bytes → Option Bytes → Store × Option DbError
compact s start limit = (s, none)

abbrev pub memory_database : Database Store Iterator
memory_database = record {
  has = has;
  get = get;
  writer = writer;
  new_iterator = new_iterator;
  compact = compact;
}

abbrev pub IsOpen : Store → Type 0
IsOpen s = s.db ≢ none

abbrev pub view : Store → Bytes → Option Bytes
view s k = lookup k (contents s)

module _ (s : Store) (k v j : Bytes) (h : IsOpen s) where
  get_lem : get s k ≡ answer (view s k)
  unfolding get
  get_lem = elim (Option-cases s.db) [
    | inl c ↦ absurd (h c)
    | inr (m, o) ↦ rw (o, get) (ground arith)
  ]

  has_lem : has s k ≡ present (view s k)
  unfolding has
  has_lem = elim (Option-cases s.db) [
    | inl c ↦ absurd (h c)
    | inr (m, o) ↦ rw (o, has) (ground arith)
  ]

  put_lem :
      IsOpen (put s k v).0
      × ((put s k v).1 ≡ none)
      × (view (put s k v).0 j ≡ (if bytes_eq k j then some v else view s j))
  unfolding put
  put_lem = elim (Option-cases s.db) [
    | inl c ↦ absurd (h c)
    | inr (m, o) ↦ rw (o, put) ((λ e. cc), refl, lookup-insert k j v m)
  ]

  remove_lem :
      IsOpen (remove s k).0
      × ((remove s k).1 ≡ none)
      × (view (remove s k).0 j ≡ (if bytes_eq k j then none else view s j))
  unfolding remove
  remove_lem = elim (Option-cases s.db) [
    | inl c ↦ absurd (h c)
    | inr (m, o) ↦ rw (o, remove) ((λ e. cc), refl, lookup-delete k j m)
  ]

-- The in-memory store keeps the contract of the interface while it is open.
pub memory_database-IsKeyValue : IsKeyValue memory_database IsOpen view
memory_database-IsKeyValue = record {
  get_view = λ s k. get_lem s k [] [];
  has_view = λ s k. has_lem s k [] [];
  put_open = λ s k v o. (put_lem s k v [] o).0;
  put_none = λ s k v o. (put_lem s k v [] o).1;
  put_view = λ s k v j o. (put_lem s k v j o).2;
  delete_open = λ s k o. (remove_lem s k [] [] o).0;
  delete_none = λ s k o. (remove_lem s k [] [] o).1;
  delete_view = λ s k j o. (remove_lem s k [] j o).2;
}
