-- ===== src/Common/Lists.antt =====
-- common/list.go: the generic List, a slice with indices that panic out of range.
-- An index is an integer, and GetIndex answers `none` for its -1. reflect.DeepEqual is an instance.

pub mod First
use rfqrelayer.Prelude.{
  ℕ, zero, suc, ◌+◌, ◌-◌, ◌<◌, ◌≡◌, refl, ap, ◌⊎◌, inl, inr, Bool, true, false, Option, none, some,
  List, [], ◌∷◌, ◌++◌, arith, ltb, if◌then◌else◌, length, get_elem?, take, drop, Result, ok, panic,
  ◌>>=◌, Bool-cases,
}
use rfqrelayer.Prelude.Eq.{Eq}
use rfqrelayer.Prelude.Int.{ℤ, pos, negsuc}

-- The package has no errors: a bad index panics.
pub data Error : Type 0 where

module _ {ℓ} {T : Type ℓ} where
  unfoldable pub new_list : List T
  new_list = []

  unfoldable pub delete : List T → ℤ → Result Error (List T)
  delete l (pos i) = if ltb i (length l) then ok (take i l ++ drop (suc i) l) else panic
  delete l (negsuc n) = panic

  unfoldable pub get : List T → ℤ → Result Error T
  get l (pos i) = elim (get_elem? l i) [ some x ↦ ok x | none ↦ panic ]
  get l (negsuc n) = panic

  unfoldable pub insert : List T → T → List T
  insert l v = l ++ v ∷ []

  unfoldable pub clear : List T → List T
  clear l = []

  unfoldable pub pop : List T → ℤ → Result Error (List T)
  pop l (pos i) = if ltb i (length l) then ok (take i l ++ drop (suc i) l) else panic
  pop l (negsuc n) = panic

  unfoldable pub last : List T → Result Error T
  unfolding get
  last l = if ltb 0 (length l) then get l (pos (length l - 1)) else panic

module _ {ℓ} {T : Type ℓ} ⦃e : Eq T⦄ where
  -- The loop of GetIndex from index `i`.
  index_from : T → List T → ℕ → Option ℕ
  index_from item [] i = none
  index_from item (x ∷ l) i = if e.beq item x then some i else index_from item l (suc i)

  unfoldable pub get_index : List T → T → Option ℕ
  unfolding index_from
  get_index l item = index_from item l 0

  unfoldable pub remove : List T → T → Result Error (List T)
  unfolding get_index pop
  remove l item = elim (get_index l item) [ none ↦ ok l | some i ↦ pop l (pos i) ]

  unfoldable pub contains : List T → T → Bool
  contains [] item = false
  contains (x ∷ l) item = if e.beq x item then true else contains l item
