-- ===== src/Core/Heap/Down.antt =====
-- container/heap: `down`, on a heap in which one entry is too high.
use rfqrelayer.Prelude.{
  ℕ, zero, suc, ◌+◌, ◌*◌, ◌≤◌, ◌<◌, ◌≡◌, refl, ◌∙◌, ◌≢◌, inl, inr, true, ◌&&◌, List, arith, ltb,
  leb, ◌==◌, length, get_elem?, Bool-cases,
}
use mathlib.Core.List.{Perm}
use mathlib.Core.List.Perm
use rfqrelayer.Prelude.Int.{ℤ, ltb_ℤ, ◌≤ℤ◌}
use rfqrelayer.Core.Heap.{key_at, less, swap, parent, child, down}
use rfqrelayer.Core.Heap.Order.{length-swap, key_at-swap, get_elem?-swap_other, swap-perm}

module _ {A : Type 0} (key : A → ℤ) where
  -- Among the first `n` entries only the edges below `i` may be out of order.
  pub record DownInv (n : ℕ) (l : List A) (i : ℕ) : Type 0 where
    pub sized : n ≤ length l
    pub edges : (c : ℕ) → 0 < c → c < n → parent c ≢ i → key_at key l (parent c) ≤ℤ key_at key l c
    pub across :
        (c : ℕ) → 0 < c → c < n → parent c ≡ i → 0 < i → key_at key l (parent i) ≤ℤ key_at key l c

  -- The child that is compared has the lesser key of the two.
  record IsLesserChild (n : ℕ) (l : List A) (i m : ℕ) : Type 0 where
    inside : m < n
    below : parent m ≡ i
    positive : 0 < m
    least : (c : ℕ) → 0 < c → c < n → parent c ≡ i → key_at key l m ≤ℤ key_at key l c

  child-IsLesserChild :
      (n : ℕ) (l : List A) (i : ℕ) → 2 * i + 1 < n → IsLesserChild n l i (child key l i n)
  unfolding child
  child-IsLesserChild n l i h =
      elim (Bool-cases (ltb (2 * i + 2) n && less key l (2 * i + 2) (2 * i + 1))) [
        | inl right ↦ rw right (record {
          inside = ground arith;
          below = omega arith;
          positive = omega arith;
          least = λ c p q r. elim (Bool-cases (c == 2 * i + 1)) [
            | inl e ↦ let e' : c ≡ 2 * i + 1 = ground arith in rw e' (ground arith)
            | inr e ↦ let e' : c ≡ 2 * i + 2 = ground arith in rw e' (omega arith)
          ];
        })
        | inr left ↦ rw left (record {
          inside = h;
          below = omega arith;
          positive = omega arith;
          least = λ c p q r. elim (Bool-cases (c == 2 * i + 1)) [
            | inl e ↦ let e' : c ≡ 2 * i + 1 = ground arith in rw e' (omega arith)
            | inr e ↦ let e' : c ≡ 2 * i + 2 = ground arith in rw e' (ground arith)
          ];
        })
      ]

  swap-DownInv :
      (n : ℕ) (l : List A) (i m : ℕ)
      → DownInv n l i
      → IsLesserChild n l i m
      → ltb_ℤ (key_at key l m) (key_at key l i) ≡ true
      → DownInv n (swap key l i m) m
  swap-DownInv n l i m v s b =
      let hm : m < length l = omega (arith, s.inside, v.sized) in
      let hi : i < length l = omega (arith, s.below, s.positive, hm) in
      let size = length-swap key l i m hi hm in
      let at = key_at-swap key l i m hi hm in
      record {
        sized = omega (arith, size, v.sized);
        edges = λ c p q r. ground (
          arith,
          at c,
          at (parent c),
          v.edges c,
          v.across m,
          v.across c,
          s.least c,
          s.below,
          s.positive,
          s.inside,
        );
        across = λ c p q r t.
            ground (arith, at c, at (parent m), v.edges c, s.below, s.positive, s.inside);
      }

  -- What `down` leaves of `l`: its entries, with the first `n` in order and the others in place.
  pub record Sunk (n : ℕ) (l r : List A) : Type 0 where
    pub ordered : (c : ℕ) → 0 < c → c < n → key_at key r (parent c) ≤ℤ key_at key r c
    pub same : Perm r l
    pub rest : (c : ℕ) → n ≤ c → get_elem? r c ≡ get_elem? l c

  pub down-Sunk :
      (fuel n : ℕ) (l : List A) (i : ℕ)
      → n < fuel + i
      → DownInv n l i
      → Sunk n l (down key fuel l i n)
  unfolding down
  down-Sunk zero n l i f v = record {
    ordered = λ c p q. v.edges c p q (omega arith);
    same = Perm.refl l;
    rest = λ c h. refl;
  }
  down-Sunk (suc fuel) n l i f v = elim (Bool-cases (leb n (2 * i + 1))) [
    | inl leaf ↦ rw leaf (record {
      ordered = λ c p q. v.edges c p q (ground arith);
      same = Perm.refl l;
      rest = λ c h. refl;
    })
    | inr inner ↦
        let m = child key l i n in
        let s = child-IsLesserChild n l i (ground arith) in
        let hm : m < length l = omega (arith, s.inside, v.sized) in
        let hi : i < length l = omega (arith, s.below, s.positive, hm) in
        elim (Bool-cases (less key l m i)) [
          | inr settled ↦ rw inner (
              rw settled (record {
                ordered = λ c p q. ground (arith, v.edges c, s.least c);
                same = Perm.refl l;
                rest = λ c h. refl;
              }))
          | inl sinks ↦
              let r =
                down-Sunk fuel n (swap key l i m) m (omega (arith, s.below, s.positive))
                  (swap-DownInv n l i m v s sinks) in
              rw inner (
                rw sinks (record {
                  ordered = r.ordered;
                  same = Perm.trans r.same (swap-perm key l i m hi hm);
                  rest = λ c h.
                      r.rest c h
                      ∙ get_elem?-swap_other key l i m hi hm c
                          (omega (arith, s.inside, s.below, s.positive)) (omega (arith, s.inside));
                }))
        ]
  ]
