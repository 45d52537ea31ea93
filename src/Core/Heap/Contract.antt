-- ===== src/Core/Heap/Contract.antt =====
-- container/heap over the auction queue: the contract of Push and Pop.
use rfqrelayer.Prelude.{
  ℕ, zero, suc, ◌-◌, ◌<◌, ◌≡◌, refl, sym, ap, ◌∙◌, true, some, List, [], ◌∷◌, ◌++◌, arith, length,
  get_elem?, take, length-append, length-take, get_elem?-append,
}
use mathlib.Core.List.{Perm, perm_middle, append-nil}
use mathlib.Core.List.Perm
use mathlib.Core.Path.{subst}
use rfqrelayer.Prelude.Int.{ℤ, leb_ℤ}
use rfqrelayer.Core.Heap.{swap, parent, down, push, pop}
use rfqrelayer.Core.Heap.Order.{
  length-swap, key_at-swap, get_elem?-swap_right, swap-perm, length-perm, IsHeap, root_least,
}
use rfqrelayer.Core.Heap.Every.{every, every_key}
use rfqrelayer.Core.Heap.Up.{up-IsHeap}
use rfqrelayer.Core.Heap.Down.{DownInv, Sunk, down-Sunk}

module _ {A : Type 0} where
  snoc-perm : (l : List A) (x : A) → Perm (l ++ x ∷ []) (x ∷ l)
  snoc-perm l x = rw (append-nil l) at (perm_middle {a = x} l [])

  take-snoc :
      (n : ℕ) (l : List A) (x : A)
      → length l ≡ suc n
      → get_elem? l n ≡ some x
      → take n l ++ x ∷ [] ≡ l
  take-snoc n [] x h e = absurd (omega arith)
  take-snoc zero (y ∷ []) x h e = ground arith
  take-snoc zero (y ∷ z ∷ l) x h e = absurd (omega arith)
  take-snoc (suc n) (y ∷ l) x h e = ap (◌∷◌ y) (take-snoc n l x (omega arith) e)

  get_elem?-take : (n : ℕ) (l : List A) (i : ℕ) → i < n → get_elem? (take n l) i ≡ get_elem? l i
  get_elem?-take zero l i h = absurd (omega arith)
  get_elem?-take (suc n) [] i h = refl
  get_elem?-take (suc n) (x ∷ l) zero h = refl
  get_elem?-take (suc n) (x ∷ l) (suc i) h = get_elem?-take n l i (omega arith)

module _ {A : Type 0} (key : A → ℤ) where
  -- Push on a heap leaves a heap of the old entries and the new one.
  pub push_lem :
      (l : List A) (a : A) → IsHeap key l → IsHeap key (push key l a) × Perm (push key l a) (a ∷ l)
  unfolding push
  push_lem l a h =
      let size = length-append l (a ∷ []) in
      let (heap, same) =
        up-IsHeap key (length (l ++ a ∷ [])) (l ++ a ∷ []) (length l) (omega (arith, size))
          (record {
            inside = omega (arith, size);
            edges = λ c p q r. ground (
              arith,
              size,
              h c,
              get_elem?-append l (a ∷ []) c,
              get_elem?-append l (a ∷ []) (parent c),
            );
            across = λ c p q r t. absurd (omega (arith, size));
          }) in
      (heap, Perm.trans same (snoc-perm l a))

  module _ (L : List A) (n : ℕ) (x : A) (h : IsHeap key L) (size : length L ≡ suc n)
      (first : get_elem? L 0 ≡ some x) where
    swapped-DownInv : DownInv key n (swap key L 0 n) 0
    swapped-DownInv =
        let at = key_at-swap key L 0 n (omega (arith, size)) (omega (arith, size)) in
        record {
          sized =
              omega
                (arith, size, length-swap key L 0 n (omega (arith, size)) (omega (arith, size)));
          edges = λ c p q r. ground (arith, size, at c, at (parent c), h c);
          across = λ c p q r t. absurd (omega arith);
        }

    swapped-Sunk : Sunk key n (swap key L 0 n) (down key (length L) (swap key L 0 n) 0 n)
    swapped-Sunk =
        down-Sunk key (length L) n (swap key L 0 n) 0 (omega (arith, size)) swapped-DownInv

    sunk_last : get_elem? (down key (length L) (swap key L 0 n) 0 n) n ≡ some x
    sunk_last =
        swapped-Sunk.rest n (omega arith)
        ∙ get_elem?-swap_right key L 0 n (omega (arith, size)) (omega (arith, size))
        ∙ first

    sunk-perm : Perm (down key (length L) (swap key L 0 n) 0 n) L
    sunk-perm =
        Perm.trans swapped-Sunk.same
          (swap-perm key L 0 n (omega (arith, size)) (omega (arith, size)))

    rest-IsHeap : IsHeap key (take n (down key (length L) (swap key L 0 n) 0 n))
    rest-IsHeap c p q =
        let D = down key (length L) (swap key L 0 n) 0 n in
        let c_lt : c < n = omega (arith, length-take n D, q) in
        ground (
          arith,
          swapped-Sunk.ordered c p c_lt,
          get_elem?-take n D c,
          get_elem?-take n D (parent c),
        )

    rest-perm : Perm (x ∷ take n (down key (length L) (swap key L 0 n) 0 n)) L
    rest-perm =
        let D = down key (length L) (swap key L 0 n) 0 n in
        let whole = take-snoc n D x (length-perm sunk-perm ∙ size) sunk_last in
        Perm.trans (Perm.symm (snoc-perm (take n D) x))
          (subst (λ e. Perm e L) (sym whole) sunk-perm)

  -- Pop of a heap that is not empty takes out its first entry, which has the least key, and leaves
  -- a heap of the others.
  pub pop_lem :
      (x : A) (l : List A)
      → IsHeap key (x ∷ l)
      → (r : List A) × (pop key (x ∷ l) ≡ some (x, r))
        × IsHeap key r
        × Perm (x ∷ r) (x ∷ l)
        × (every (λ a. leb_ℤ (key x) (key a)) (x ∷ l) ≡ true)
  unfolding pop
  pop_lem x l h =
      let n = length (x ∷ l) - 1 in
      let size : length (x ∷ l) ≡ suc n = omega arith in
      (
        take n (down key (length (x ∷ l)) (swap key (x ∷ l) 0 n) 0 n),
        rw (sunk_last (x ∷ l) n x h size refl, pop),
        rest-IsHeap (x ∷ l) n x h size refl,
        rest-perm (x ∷ l) n x h size refl,
        every_key key (key x) (x ∷ l) (λ i p. root_least key (x ∷ l) i h p),
      )
