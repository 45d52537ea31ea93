-- ===== src/Core/Heap.antt =====
-- Go's container/heap over core/types/auction_queue.go: a slice ordered by a key, an auction's end
-- time. An index out of range, a panic in the code, changes nothing here.
pub mod Order
pub mod Every
pub mod Up
pub mod Down
pub mod Contract
use rfqrelayer.Prelude.{
  ℕ, zero, suc, ◌+◌, ◌-◌, ◌*◌, ◌/◌, ◌%◌, ◌^◌, ◌≤◌, ◌<◌, ◌≡◌, refl, sym, ap, ◌∙◌, ◌≢◌, ◌↔◌, ◌⊎◌, inl,
  inr, Bool, true, false, ◌&&◌, ◌||◌, not, Option, none, some, List, [], ◌∷◌, ◌++◌, map, arith, ltb,
  leb, ◌==◌, if◌then◌else◌, length, get_elem?, set, take, drop, replicate, keep_if, All, Result, ok,
  err, panic, ◌>>=◌, ◌>>◌, Bool-cases, Option-cases, List-cases, length-append, length-take,
  length-drop, length-replicate, length-map, drop-append_length, get_elem?-append,
  get_elem?-append_length, drop-append, drop_one-drop, drop-get_elem?, drop_past, get_elem?-map,
  Bytes, bytes_eq, bytes_eq_iff, bytes_eq_refl, bytes_eq-append, bytes_le, has_prefix,
  has_prefix-append, bytes_le-append,
}
use rfqrelayer.Prelude.Int.{ℤ, pos, ltb_ℤ}

abbrev pub parent : ℕ → ℕ
parent j = (j - 1) / 2

module _ {A : Type 0} (key : A → ℤ) where
  abbrev pub key_at : List A → ℕ → ℤ
  key_at l i = elim (get_elem? l i) [ none ↦ pos 0 | some a ↦ key a ]

  -- AuctionQueue.Less
  abbrev pub less : List A → ℕ → ℕ → Bool
  less l i j = ltb_ℤ (key_at l i) (key_at l j)

  -- AuctionQueue.Swap
  unfoldable pub swap : List A → ℕ → ℕ → List A
  swap l i j = elim (get_elem? l i) [
    | none ↦ l
    | some a ↦ elim (get_elem? l j) [ none ↦ l | some b ↦ set (set l i b) j a ]
  ]

  unfoldable pub up : ℕ → List A → ℕ → List A
  up zero l j = l
  up (suc fuel) l j =
      let rest = up fuel (swap l (parent j) j) (parent j) in
      if parent j == j then l else if not (less l j (parent j)) then l else rest

  -- The child of `i` that `down` compares with.
  unfoldable pub child : List A → ℕ → ℕ → ℕ
  child l i n = if ltb (2 * i + 2) n && less l (2 * i + 2) (2 * i + 1) then 2 * i + 2 else 2 * i + 1

  unfoldable pub down : ℕ → List A → ℕ → ℕ → List A
  unfolding child
  down zero l i n = l
  down (suc fuel) l i n =
      let j = child l i n in
      let rest = down fuel (swap l i j) j n in
      if leb n (2 * i + 1) then l else if not (less l j i) then l else rest

  -- heap.Push, with AuctionQueue.Push: with as many rounds as entries.
  unfoldable pub push : List A → A → List A
  push l a = let grown = l ++ a ∷ [] in up (length grown) grown (length l)

  -- heap.Pop, with AuctionQueue.Pop.
  unfoldable pub pop : List A → Option (A × List A)
  pop l =
      let n = length l - 1 in
      let sunk = down (length l) (swap l 0 n) 0 n in
      elim (get_elem? sunk n) [ none ↦ none | some x ↦ some (x, take n sunk) ]
