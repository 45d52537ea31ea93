-- ===== src/Rfqdb/Memorydb/Entries.antt =====
-- rfqdb/memorydb/memorydb.go: the store and its snapshots as partial maps from keys to values.
use rfqrelayer.Prelude.{
  ◌≡◌, refl, ◌≢◌, ◌⊎◌, inl, inr, true, false, Option, none, some, arith, if◌then◌else◌, ok, err,
  Option-cases, Bytes, bytes_eq,
}
use rfqrelayer.Prelude.Assoc.{
  Assoc, lookup, keys, lookup-insert, lookup-delete, AreDistinct, insert-AreDistinct,
  delete-AreDistinct,
}
use rfqrelayer.Rfqdb.Interfaces.{closed, not_found}
use rfqrelayer.Rfqdb.Memorydb.{
  Store, close, has, get, put, remove, new_snapshot, snapshot_get, snapshot_has, contents,
}

-- The store's keys are distinct.
abbrev pub IsValid : Store → Type 0
IsValid s = AreDistinct (keys (contents s))

put_open :
    (o : Option (Assoc Bytes)) (k v : Bytes)
    → IsValid (record { db = o })
    → IsValid (put (record { db = o }) k v).0
unfolding put
put_open none k v h = h
put_open (some m) k v h = insert-AreDistinct k v m h

pub put-IsValid : (s : Store) (k v : Bytes) → IsValid s → IsValid (put s k v).0
put-IsValid s = put_open s.db

remove_open :
    (o : Option (Assoc Bytes)) (k : Bytes)
    → IsValid (record { db = o })
    → IsValid (remove (record { db = o }) k).0
unfolding remove
remove_open none k h = h
remove_open (some m) k h = delete-AreDistinct k m h

pub remove-IsValid : (s : Store) (k : Bytes) → IsValid s → IsValid (remove s k).0
remove-IsValid s = remove_open s.db

-- After Put of an open store, which succeeds, Get finds the new value at its key, and at any other
-- key what it found before.
pub get-put :
    (s : Store) (k v j : Bytes)
    → s.db ≢ none
    → ((put s k v).1 ≡ none) × (get (put s k v).0 j ≡ (if bytes_eq k j then ok v else get s j))
unfolding put get
get-put s k v j h = elim (Option-cases s.db) [
  | inl c ↦ absurd (h c)
  | inr (m, o) ↦ rw (o, put, get) (refl, ground (arith, lookup-insert k j v m))
]

-- After Delete of an open store, which succeeds, Get reports the key as not found, and answers as
-- before at any other key.
pub get-remove :
    (s : Store) (k j : Bytes)
    → s.db ≢ none
    → ((remove s k).1 ≡ none)
      × (get (remove s k).0 j ≡ (if bytes_eq k j then err not_found else get s j))
unfolding remove get
get-remove s k j h = elim (Option-cases s.db) [
  | inl c ↦ absurd (h c)
  | inr (m, o) ↦ rw (o, remove, get) (refl, ground (arith, lookup-delete k j m))
]

-- A closed store refuses every access, and stays closed.
pub close_refuses :
    (s : Store) (k v : Bytes)
    → (get (close s) k ≡ err closed)
      × (has (close s) k ≡ err closed)
      × (put (close s) k v ≡ (close s, some closed))
      × (remove (close s) k ≡ (close s, some closed))
unfolding close get has put remove
close_refuses s k v = (refl, refl, refl, refl)

-- Has and Get agree: Has is true where Get finds a value, false where Get finds none, and fails
-- where Get fails because the store is closed.
pub has-get :
    (s : Store) (k : Bytes)
    → ((v : Bytes) × (get s k ≡ ok v) × (has s k ≡ ok true))
      ⊎ ((get s k ≡ err not_found) × (has s k ≡ ok false))
      ⊎ ((get s k ≡ err closed) × (has s k ≡ err closed))
unfolding has get
has-get s k = elim (Option-cases s.db) [
  | inl c ↦ inr (inr (rw (c, get), rw (c, has)))
  | inr (m, o) ↦ elim (Option-cases (lookup k m)) [
    | inl out ↦ inr (inl (rw (o, get) (rw out), rw (o, has) (rw out)))
    | inr (v, found) ↦ inl (v, rw (o, get) (rw found), rw (o, has) (rw found))
  ]
]

-- A snapshot answers Get and Has as the open store that it is taken of.
pub snapshot_get_lem :
    (s : Store) (k : Bytes)
    → s.db ≢ none
    → (snapshot_get (new_snapshot s) k ≡ get s k) × (snapshot_has (new_snapshot s) k ≡ has s k)
unfolding snapshot_get snapshot_has new_snapshot get has
snapshot_get_lem s k h = elim (Option-cases s.db) [
  | inl c ↦ absurd (h c)
  | inr (m, o) ↦ (rw (o, get, contents), rw (o, has, contents))
]
