-- ===== src/Core/Heap/Order.antt =====
-- The heap order, and what a swap does to keys and entries.
use rfqrelayer.Prelude.{
  ℕ, zero, suc, ◌≤◌, ◌<◌, ◌≡◌, refl, ap, ◌∙◌, ◌≢◌, inl, inr, some, List, [], ◌∷◌, arith, ◌==◌,
  if◌then◌else◌, length, get_elem?, set, Bool-cases,
}
use mathlib.Core.Path.{sym}
use mathlib.Core.Logic.{∥∥₁_elim}
use native.Mathlib.Nat.{ℕ_set}
use mathlib.Core.List.{Perm, Permᴰ}
use mathlib.Core.List.Perm
use rfqrelayer.Prelude.Int.{ℤ, ◌≤ℤ◌}
use rfqrelayer.Core.Heap.{key_at, swap, parent}

module _ {A : Type 0} where
  pub length-set : (l : List A) (i : ℕ) (v : A) → length (set l i v) ≡ length l
  length-set [] i v = refl
  length-set (x ∷ l) zero v = refl
  length-set (x ∷ l) (suc i) v = ap suc (length-set l i v)

  pub get_elem?-set :
      (l : List A) (i j : ℕ) (v : A)
      → i < length l
      → get_elem? (set l i v) j ≡ (if i == j then some v else get_elem? l j)
  get_elem?-set [] i j v h = absurd (omega arith)
  get_elem?-set (x ∷ l) zero zero v h = refl
  get_elem?-set (x ∷ l) zero (suc j) v h = ground arith
  get_elem?-set (x ∷ l) (suc i) zero v h = ground arith
  get_elem?-set (x ∷ l) (suc i) (suc j) v h = ground (arith, get_elem?-set l i j v)

  pub get_elem?-lt : (l : List A) (i : ℕ) → i < length l → (a : A) × (get_elem? l i ≡ some a)
  get_elem?-lt [] i h = absurd (omega arith)
  get_elem?-lt (x ∷ l) zero h = (x, refl)
  get_elem?-lt (x ∷ l) (suc i) h = get_elem?-lt l i (omega arith)

  permᴰ_size : (l m : List A) → Permᴰ l m → length m ≡ length l
  permᴰ_size l m (Permᴰ.trans h k) = permᴰ_size _ m k ∙ permᴰ_size l _ h
  permᴰ_size l m (Permᴰ.swap e f) = refl
  permᴰ_size l m (Permᴰ.cons e h) = omega (arith, permᴰ_size _ _ h)
  permᴰ_size l m Permᴰ.nil = refl

  pub length-perm : {l m : List A} → Perm l m → length l ≡ length m
  length-perm {l} {m} same = sym (∥∥₁_elim same (ℕ_set _ _) (permᴰ_size l m))

  -- A write trades the old entry for the new one.
  set-perm : (l : List A) (i : ℕ) (a v : A) → get_elem? l i ≡ some a → Perm (a ∷ set l i v) (v ∷ l)
  set-perm [] i a v h = absurd (ground arith)
  set-perm (x ∷ l) zero a v h = let e : x ≡ a = ground arith in rw e (Perm.swap v a l)
  set-perm (x ∷ l) (suc i) a v h =
      Perm.trans (Perm.swap x a (set l i v))
        (Perm.trans (Perm.cons x (set-perm l i a v h)) (Perm.swap v x l))

module _ {A : Type 0} (key : A → ℤ) where
  module _ (l : List A) (i j : ℕ) (hi : i < length l) (hj : j < length l) where
    pub length-swap : length (swap key l i j) ≡ length l
    unfolding swap
    length-swap =
        let (a, at) = get_elem?-lt l i hi in
        let (b, bt) = get_elem?-lt l j hj in
        rw (at, swap) (rw (bt) (length-set (set l i b) j a ∙ length-set l i b))

    pub key_at-swap :
        (c : ℕ)
        → key_at key (swap key l i j) c
          ≡ (if j == c then key_at key l i else if i == c then key_at key l j else key_at key l c)
    unfolding swap
    key_at-swap c =
        let (a, at) = get_elem?-lt l i hi in
        let (b, bt) = get_elem?-lt l j hj in
        ground (arith, get_elem?-set (set l i b) j c a, get_elem?-set l i c b, length-set l i b)

    pub get_elem?-swap_right : get_elem? (swap key l i j) j ≡ get_elem? l i
    unfolding swap
    get_elem?-swap_right =
        let (a, at) = get_elem?-lt l i hi in
        let (b, bt) = get_elem?-lt l j hj in
        ground (arith, get_elem?-set (set l i b) j j a, length-set l i b)

    pub get_elem?-swap_other :
        (c : ℕ) → c ≢ i → c ≢ j → get_elem? (swap key l i j) c ≡ get_elem? l c
    unfolding swap
    get_elem?-swap_other c p q =
        let (a, at) = get_elem?-lt l i hi in
        let (b, bt) = get_elem?-lt l j hj in
        ground (arith, get_elem?-set (set l i b) j c a, get_elem?-set l i c b, length-set l i b)

    pub swap-perm : Perm (swap key l i j) l
    unfolding swap
    swap-perm =
        let (a, at) = get_elem?-lt l i hi in
        let (b, bt) = get_elem?-lt l j hj in
        let now : get_elem? (set l i b) j ≡ some b = ground (arith, get_elem?-set l i j b) in
        rw (at, swap)
          (rw bt
            (Perm.cons_inv (Perm.trans (set-perm (set l i b) j b a now) (set-perm l i a b at))))

  -- Every edge below `n` whose parent is at `lo` or later is in order.
  abbrev pub IsHeapFrom : ℕ → ℕ → List A → Type 0
  IsHeapFrom lo n l =
      (c : ℕ) → 0 < c → c < n → lo ≤ parent c → key_at key l (parent c) ≤ℤ key_at key l c

  abbrev pub IsHeap : List A → Type 0
  IsHeap l = (c : ℕ) → 0 < c → c < length l → key_at key l (parent c) ≤ℤ key_at key l c

  root_least_below :
      (fuel : ℕ) (l : List A) (n i : ℕ)
      → ((c : ℕ) → 0 < c → c < n → key_at key l (parent c) ≤ℤ key_at key l c)
      → i < fuel
      → i < n
      → key_at key l 0 ≤ℤ key_at key l i
  root_least_below zero l n i h f p = absurd (omega arith)
  root_least_below (suc fuel) l n i h f p = elim (Bool-cases (i == 0)) [
    | inl z ↦ let e : i ≡ 0 = ground arith in rw e (omega arith)
    | inr more ↦
        let above = root_least_below fuel l n (parent i) h (ground arith) (ground arith) in
        let edge = h i (ground arith) p in omega arith
  ]

  -- The first entry of a heap has the least key.
  pub root_least : (l : List A) (i : ℕ) → IsHeap l → i < length l → key_at key l 0 ≤ℤ key_at key l i
  root_least l i h p = root_least_below (suc i) l (length l) i h (omega arith) p
