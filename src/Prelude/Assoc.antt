-- ===== src/Prelude/Assoc.antt =====
-- A Go map with byte-string keys, as an association list. An insertion keeps the place of a key
-- that is there, so that the keys stay distinct.
use mathlib.Core.Path.{◌≡◌, refl}
use mathlib.Core.Logic.{◌↔◌, inl, inr}
use mathlib.Core.Bool.{Bool, false, ◌||◌}
use mathlib.Core.Option.{Option, none, some}
use mathlib.Core.List.{List, [], ◌∷◌}
use native.Mathlib.Omega.{arith}
use rfqrelayer.Prelude.Tests.{if◌then◌else◌, Bool-cases}
use rfqrelayer.Prelude.ByteSlices.{Bytes, bytes_eq, bytes_eq_iff}

abbrev pub Assoc {ℓ} : Type ℓ → Type ℓ
Assoc V = List (Bytes × V)

module _ {ℓ} {V : Type ℓ} where
  unfoldable pub lookup : Bytes → Assoc V → Option V
  lookup k [] = none
  lookup k ((j, v) ∷ m) = if bytes_eq j k then some v else lookup k m

  unfoldable pub insert : Bytes → V → Assoc V → Assoc V
  insert k v [] = (k, v) ∷ []
  insert k v ((j, w) ∷ m) = if bytes_eq j k then (k, v) ∷ m else (j, w) ∷ insert k v m

  unfoldable pub delete : Bytes → Assoc V → Assoc V
  delete k [] = []
  delete k ((j, w) ∷ m) = if bytes_eq j k then delete k m else (j, w) ∷ delete k m

  pub lookup-insert :
      (k j : Bytes) (v : V) (m : Assoc V)
      → lookup j (insert k v m) ≡ (if bytes_eq k j then some v else lookup j m)
  unfolding lookup insert
  lookup-insert k j v [] = refl
  lookup-insert k j v ((i, w) ∷ m) =
      ground (arith, bytes_eq_iff k j, bytes_eq_iff i k, bytes_eq_iff i j, lookup-insert k j v m)

  pub lookup-delete :
      (k j : Bytes) (m : Assoc V)
      → lookup j (delete k m) ≡ (if bytes_eq k j then none else lookup j m)
  unfolding lookup delete
  lookup-delete k j [] = ground arith
  lookup-delete k j ((i, w) ∷ m) =
      ground (arith, bytes_eq_iff k j, bytes_eq_iff i k, bytes_eq_iff i j, lookup-delete k j m)

-- Is `k` one of the keys?
abbrev pub member : Bytes → List Bytes → Bool
member k [] = false
member k (j ∷ js) = bytes_eq j k || member k js

abbrev pub AreDistinct : List Bytes → Type 0
AreDistinct [] = Unit
AreDistinct (k ∷ ks) = (member k ks ≡ false) × AreDistinct ks

module _ {ℓ} {V : Type ℓ} where
  abbrev pub keys : Assoc V → List Bytes
  keys [] = []
  keys ((k, v) ∷ m) = k ∷ keys m

  pub lookup-member : (k : Bytes) (m : Assoc V) → (member k (keys m) ≡ false) ↔ (lookup k m ≡ none)
  unfolding lookup
  lookup-member k [] = ((λ _. refl), (λ _. refl))
  lookup-member k ((j, v) ∷ m) =
      ((λ h. ground (arith, (lookup-member k m).0)), (λ h. ground (arith, (lookup-member k m).1)))

  member-insert :
      (k : Bytes) (v : V) (m : Assoc V) (j : Bytes)
      → member j (keys (insert k v m)) ≡ (bytes_eq k j || member j (keys m))
  unfolding insert
  member-insert k v [] j = refl
  member-insert k v ((i, w) ∷ m) j =
      ground (arith, member-insert k v m j, bytes_eq_iff i k, bytes_eq_iff i j, bytes_eq_iff k j)

  member-delete :
      (k : Bytes) (m : Assoc V) (j : Bytes)
      → member j (keys m) ≡ false
      → member j (keys (delete k m)) ≡ false
  unfolding delete
  member-delete k [] j h = refl
  member-delete k ((i, w) ∷ m) j h = ground (arith, member-delete k m j)

  pub insert-AreDistinct :
      (k : Bytes) (v : V) (m : Assoc V) → AreDistinct (keys m) → AreDistinct (keys (insert k v m))
  unfolding insert
  insert-AreDistinct k v [] d = (refl, tt)
  insert-AreDistinct k v ((i, w) ∷ m) (out, d) = elim (Bool-cases (bytes_eq i k)) [
    | inl same ↦ rw same (rw (← (bytes_eq_iff i k).0 same) out, d)
    | inr other ↦ rw other (
      ground (arith, member-insert k v m i, bytes_eq_iff k i, bytes_eq_iff i k),
      insert-AreDistinct k v m d,
    )
  ]

  pub delete-AreDistinct :
      (k : Bytes) (m : Assoc V) → AreDistinct (keys m) → AreDistinct (keys (delete k m))
  unfolding delete
  delete-AreDistinct k [] d = tt
  delete-AreDistinct k ((i, w) ∷ m) (out, d) = elim (Bool-cases (bytes_eq i k)) [
    | inl same ↦ rw same (delete-AreDistinct k m d)
    | inr other ↦ rw other (member-delete k m i out, delete-AreDistinct k m d)
  ]
