-- ===== src/Rfqdb/Interfaces.antt =====
-- rfqdb/database.go, batch.go and iterator.go: the interfaces, as records of functions on the state of
-- an implementation. A call that may fail returns its new state and the error, `none` for nil.
-- Mutexes, statistics and sizes of pre-allocation are not modelled.
use rfqrelayer.Prelude.{
  ◌≡◌, Bool, true, false, Option, none, some, if◌then◌else◌, Result, ok, err, Bytes, bytes_eq,
}

pub data DbError : Type 0 where
  closed not_found snapshot_released unknown_property : DbError

-- KeyValueWriter
pub record Writer (W : Type 0) : Type 0 where
  pub put : W → Bytes → Bytes → W × Option DbError
  pub delete : W → Bytes → W × Option DbError

-- Iterator
pub record IteratorOps (I : Type 0) : Type 0 where
  pub next : I → I × Bool
  pub error : I → Option DbError
  pub key : I → Option Bytes
  pub value : I → Option Bytes
  pub release : I → I

-- Database over a store `S`, with iterators `I`. `compact` is given nil bounds as `none`.
pub record Database (S I : Type 0) : Type 0 where
  pub has : S → Bytes → Result DbError Bool
  pub get : S → Bytes → Result DbError Bytes
  pub writer : Writer S
  pub new_iterator : S → Bytes → Bytes → I
  pub compact : S → Option Bytes → Option Bytes → S × Option DbError

-- What a Get answers for the content that the store has at a key.
abbrev pub answer : Option Bytes → Result DbError Bytes
answer none = err not_found
answer (some v) = ok v

abbrev pub present : Option Bytes → Result DbError Bool
present none = ok false
present (some v) = ok true

-- What a client relies on: while the store is open its calls succeed, and it is a map `view` from
-- keys to values, which Put and Delete change at their key alone.
pub record IsKeyValue {S I : Type 0} (d : Database S I) (IsOpen : S → Type 0)
    (view : S → Bytes → Option Bytes) : Type 0 where
  pub get_view : (s : S) (k : Bytes) → IsOpen s → d.get s k ≡ answer (view s k)
  pub has_view : (s : S) (k : Bytes) → IsOpen s → d.has s k ≡ present (view s k)
  pub put_open : (s : S) (k v : Bytes) → IsOpen s → IsOpen (d.writer.put s k v).0
  pub put_none : (s : S) (k v : Bytes) → IsOpen s → (d.writer.put s k v).1 ≡ none
  pub put_view :
      (s : S) (k v j : Bytes)
      → IsOpen s
      → view (d.writer.put s k v).0 j ≡ (if bytes_eq k j then some v else view s j)
  pub delete_open : (s : S) (k : Bytes) → IsOpen s → IsOpen (d.writer.delete s k).0
  pub delete_none : (s : S) (k : Bytes) → IsOpen s → (d.writer.delete s k).1 ≡ none
  pub delete_view :
      (s : S) (k j : Bytes)
      → IsOpen s
      → view (d.writer.delete s k).0 j ≡ (if bytes_eq k j then none else view s j)
