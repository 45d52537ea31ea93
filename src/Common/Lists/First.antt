-- ===== src/Common/Lists/First.antt =====
-- common/list.go: GetIndex, Remove and Contains, and the first occurrence of an item.
use rfqrelayer.Prelude.{
  ℕ, suc, ◌+◌, ◌≡◌, refl, sym, ap, ◌⊎◌, inl, inr, false, Option, none, some, List, [], ◌∷◌, ◌++◌,
  arith, length, take, drop, ok, Bool-cases, length-append,
}
use rfqrelayer.Prelude.Eq.{Eq}
use rfqrelayer.Common.Lists.{index_from, get_index, remove, contains}

module _ {ℓ} {T : Type ℓ} ⦃e : Eq T⦄ where
  -- Where GetIndex stops: at the first item equal to the one that is sought, or past the end.
  abbrev Found : T → List T → ℕ → Option ℕ → Type ℓ
  Found item l i r =
      ((contains l item ≡ false) × (r ≡ none))
      ⊎ ((a : List T) × (b : List T) × (l ≡ a ++ item ∷ b)
          × (contains a item ≡ false)
          × (r ≡ some (i + length a)))

  index_from-Found : (item : T) (l : List T) (i : ℕ) → Found item l i (index_from item l i)
  unfolding index_from contains
  index_from-Found item [] i = inl (refl, refl)
  index_from-Found item (x ∷ l) i = elim (Bool-cases (e.beq item x)) [
    | inl same ↦ inr ([], l, ap (λ y. y ∷ l) (sym ((e.beq_iff item x).0 same)), refl, ground arith)
    | inr other ↦ elim (index_from-Found item l (suc i)) [
      | inl (out, r) ↦ inl (ground (arith, e.beq_iff item x, e.beq_iff x item), ground arith)
      | inr (a, b, split, out, r) ↦ inr (
        x ∷ a,
        b,
        ap (◌∷◌ x) split,
        ground (arith, e.beq_iff item x, e.beq_iff x item),
        ground arith,
      )
    ]
  ]

  take-append_length : (a b : List T) → take (length a) (a ++ b) ≡ a
  take-append_length [] [] = refl
  take-append_length [] (_ ∷ _) = refl
  take-append_length (x ∷ a) b = ap (◌∷◌ x) (take-append_length a b)

  drop-append_suc : (a : List T) (x : T) (b : List T) → drop (suc (length a)) (a ++ x ∷ b) ≡ b
  drop-append_suc [] x b = refl
  drop-append_suc (y ∷ a) x b = drop-append_suc a x b

  -- Remove leaves a list without the item as it is, and otherwise takes out the first occurrence
  -- alone; it never panics.
  pub remove_first :
      (l : List T) (item : T)
      → ((contains l item ≡ false) × (remove l item ≡ ok l))
        ⊎ ((a : List T) × (b : List T) × (l ≡ a ++ item ∷ b)
            × (contains a item ≡ false)
            × (remove l item ≡ ok (a ++ b)))
  unfolding remove
  remove_first l item = elim (index_from-Found item l 0) [
    | inl (out, r) ↦ inl (out, rw (r, get_index, remove))
    | inr (a, b, split, out, r) ↦ inr (
      a,
      b,
      split,
      out,
      ground (
        arith,
        length-append a (item ∷ b),
        take-append_length a (item ∷ b),
        drop-append_suc a item b,
      ),
    )
  ]
