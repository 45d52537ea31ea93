-- ===== src/Core/Heap/Up.antt =====
-- container/heap: `up`, on a heap in which one entry is too low.
use rfqrelayer.Prelude.{
  ℕ, zero, suc, ◌<◌, ◌≡◌, ◌≢◌, inl, inr, true, List, arith, ◌==◌, length, Bool-cases,
}
use mathlib.Core.List.{Perm}
use mathlib.Core.List.Perm
use rfqrelayer.Prelude.Int.{ℤ, ltb_ℤ, ◌≤ℤ◌}
use rfqrelayer.Core.Heap.{key_at, less, swap, parent, up}
use rfqrelayer.Core.Heap.Order.{length-swap, key_at-swap, swap-perm, IsHeap}

module _ {A : Type 0} (key : A → ℤ) where
  -- Only the edge above `j` may be out of order, and the edges below `j` hold across it.
  pub record UpInv (l : List A) (j : ℕ) : Type 0 where
    pub inside : j < length l
    pub edges : (c : ℕ) → 0 < c → c < length l → c ≢ j → key_at key l (parent c) ≤ℤ key_at key l c
    pub across :
        (c : ℕ)
        → 0 < c
        → c < length l
        → parent c ≡ j
        → 0 < j
        → key_at key l (parent j) ≤ℤ key_at key l c

  module _ (l : List A) (j : ℕ) (v : UpInv l j) (low : 0 < j)
      (below : ltb_ℤ (key_at key l j) (key_at key l (parent j)) ≡ true) where
    swap-UpInv : UpInv (swap key l (parent j) j) (parent j)
    swap-UpInv =
        let hi : parent j < length l = omega (arith, v.inside) in
        let size = length-swap key l (parent j) j hi v.inside in
        let at = key_at-swap key l (parent j) j hi v.inside in
        record {
          inside = omega (arith, size);
          edges = λ c p q r. ground (arith, size, at c, at (parent c), v.edges c, v.across c);
          across = λ c p q r t. ground (
            arith,
            size,
            at c,
            at (parent (parent j)),
            v.edges c,
            v.edges (parent j),
            v.across c,
          );
        }

  pub up-IsHeap :
      (fuel : ℕ) (l : List A) (j : ℕ)
      → j < fuel
      → UpInv l j
      → IsHeap key (up key fuel l j) × Perm (up key fuel l j) l
  unfolding up
  up-IsHeap zero l j f v = absurd (omega arith)
  up-IsHeap (suc fuel) l j f v = elim (Bool-cases (parent j == j)) [
    | inl root ↦ rw root ((λ c p q. v.edges c p q (ground arith)), Perm.refl l)
    | inr deep ↦ elim (Bool-cases (less key l j (parent j))) [
      | inr settled ↦ rw deep (rw settled ((λ c p q. ground (arith, v.edges c)), Perm.refl l))
      | inl rises ↦
          let hi : parent j < length l = omega (arith, v.inside) in
          let (heap, same) =
            up-IsHeap fuel (swap key l (parent j) j) (parent j) (ground arith)
              (swap-UpInv l j v (ground arith) rises) in
          rw deep (rw rises (heap, Perm.trans same (swap-perm key l (parent j) j hi v.inside)))
    ]
  ]
