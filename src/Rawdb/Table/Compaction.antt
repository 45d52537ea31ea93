-- ===== src/Rawdb/Table/Compaction.antt =====
-- core/rawdb/table.go: the range that Compact hands down.
use rfqrelayer.Prelude.{
  ℕ, zero, suc, ◌+◌, ◌%◌, ◌≤◌, ◌<◌, ◌≡◌, refl, sym, ap, ◌∙◌, ◌≢◌, ◌⊎◌, inl, inr, Bool, true, false,
  not, Option, none, some, [], ◌∷◌, arith, ltb, ◌==◌, length, get_elem?, set, take, All, Bool-cases,
  Option-cases, Bytes, bytes_le, has_prefix,
}
use rfqrelayer.Rawdb.Table.{byte_at, bump, compact_start, compact_limit}

abbrev pub IsByte : ℕ → Type 0
IsByte b = b < 256

-- What the loop leaves: the rightmost byte that has room is one more, and those before it stay; or
-- no byte has room.
abbrev Bumped : ℕ → Bytes → Option Bytes → Type 0
Bumped n l none = (i : ℕ) → i < n → get_elem? l i ≡ some 255
Bumped n l (some r) =
    (i : ℕ) × (x : ℕ) × (i < n)
    × (get_elem? l i ≡ some x)
    × (get_elem? r i ≡ some (suc x))
    × (take i r ≡ take i l)

get_elem?-below :
    (l : Bytes) (i : ℕ)
    → i < length l
    → All IsByte l
    → (x : ℕ) × (get_elem? l i ≡ some x) × (x < 256)
get_elem?-below [] i h a = absurd (omega arith)
get_elem?-below (x ∷ l) zero h a = (x, refl, a.0)
get_elem?-below (x ∷ l) (suc i) h a = get_elem?-below l i (omega arith) a.1

get_elem?-set : (l : Bytes) (i : ℕ) (v : ℕ) → i < length l → get_elem? (set l i v) i ≡ some v
get_elem?-set [] i v h = absurd (omega arith)
get_elem?-set (x ∷ l) zero v h = refl
get_elem?-set (x ∷ l) (suc i) v h = get_elem?-set l i v (omega arith)

get_elem?-set_below :
    (l : Bytes) (i j : ℕ) (v : ℕ) → j < i → get_elem? (set l i v) j ≡ get_elem? l j
get_elem?-set_below [] i j v h = refl
get_elem?-set_below (x ∷ l) zero j v h = absurd (omega arith)
get_elem?-set_below (x ∷ l) (suc i) zero v h = refl
get_elem?-set_below (x ∷ l) (suc i) (suc j) v h = get_elem?-set_below l i j v (omega arith)

take-set : (l : Bytes) (i j : ℕ) (v : ℕ) → j ≤ i → take j (set l i v) ≡ take j l
take-set l i zero v h = refl
take-set [] i (suc j) v h = refl
take-set (x ∷ l) zero (suc j) v h = absurd (omega arith)
take-set (x ∷ l) (suc i) (suc j) v h = ap (◌∷◌ x) (take-set l i j v (omega arith))

length-set : (l : Bytes) (i : ℕ) (v : ℕ) → length (set l i v) ≡ length l
length-set [] i v = refl
length-set (x ∷ l) zero v = refl
length-set (x ∷ l) (suc i) v = ap suc (length-set l i v)

All-set : (l : Bytes) (i v : ℕ) → All IsByte l → v < 256 → All IsByte (set l i v)
All-set [] i v a h = tt
All-set (x ∷ l) zero v a h = (h, a.1)
All-set (x ∷ l) (suc i) v a h = (a.0, All-set l i v a.1 h)

Bumped-set :
    (n : ℕ) (l : Bytes) (v : ℕ) (r : Option Bytes)
    → get_elem? l n ≡ some 255
    → Bumped n (set l n v) r
    → Bumped (suc n) l r
Bumped-set n l v none full b = λ i h. elim (Bool-cases (ltb i n)) [
  | inl lt ↦ sym (get_elem?-set_below l n i v (ground arith)) ∙ b i (ground arith)
  | inr ge ↦ let e : i ≡ n = ground arith in rw e full
]
Bumped-set n l v (some r) full (i, x, h, at, up, same) = (
  i,
  x,
  omega arith,
  sym (get_elem?-set_below l n i v h) ∙ at,
  up,
  same ∙ take-set l n i v (omega arith),
)

bump-Bumped : (n : ℕ) (l : Bytes) → 0 < n → n ≤ length l → All IsByte l → Bumped n l (bump n l)
unfolding bump byte_at
bump-Bumped zero l pos h a = absurd (omega arith)
bump-Bumped (suc n) l pos h a =
    let (x, at, small) = get_elem?-below l n h a in
    elim (Bool-cases (ltb 0 ((x + 1) % 256))) [
      | inl room ↦
          let e : (x + 1) % 256 ≡ suc x = ground arith in
          rw (at, bump, byte_at)
            (rw room (
              n,
              x,
              omega arith,
              at,
              get_elem?-set l n _ h ∙ ap some e,
              take-set l n n _ (omega arith),
            ))
      | inr over ↦
          let e : x ≡ 255 = ground arith in
          let full : get_elem? l n ≡ some 255 = at ∙ ap some e in
          rw (at, bump, byte_at)
            (rw over (elim (Bool-cases (n == 0)) [
              | inl last ↦ rw last (λ i lt. let z : i ≡ n = ground arith in rw z full)
              | inr more ↦ rw more (
                  Bumped-set n l _ _ full (
                    bump-Bumped n (set l n _) (ground arith)
                      (omega (arith, length-set l n ((x + 1) % 256)))
                      (All-set l n _ a (omega arith))))
            ]))
    ]

differ :
    (i : ℕ) (l k : Bytes) (x : ℕ)
    → take i l ≡ take i k
    → get_elem? l i ≡ some (suc x)
    → get_elem? k i ≡ some x
    → bytes_le l k ≡ false
unfolding bytes_le
differ i [] k x same up at = cc
differ i (y ∷ l) [] x same up at = cc
differ zero (y ∷ l) (z ∷ k) x same up at = ground arith
differ (suc i) (y ∷ l) (z ∷ k) x same up at = ground (arith, differ i l k x)

has_prefix-take :
    (k p : Bytes) (i : ℕ) (x : ℕ)
    → has_prefix k p ≡ true
    → get_elem? p i ≡ some x
    → (get_elem? k i ≡ some x) × (take i k ≡ take i p)
unfolding has_prefix
has_prefix-take k [] i x h at = cc
has_prefix-take [] (y ∷ p) i x h at = cc
has_prefix-take (z ∷ k) (y ∷ p) zero x h at = (ground arith, refl)
has_prefix-take (z ∷ k) (y ∷ p) (suc i) x h at =
    let ih = has_prefix-take k p i x in (ground (arith, ih), ground (arith, ih))

-- Is `k` before the limit? A nil limit is past every key.
abbrev pub is_below : Bytes → Option Bytes → Bool
is_below k none = true
is_below k (some limit) = not (bytes_le limit k)

bytes_le-has_prefix : (p k : Bytes) → has_prefix k p ≡ true → bytes_le p k ≡ true
unfolding bytes_le has_prefix
bytes_le-has_prefix [] k h = refl
bytes_le-has_prefix (x ∷ p) [] h = cc
bytes_le-has_prefix (x ∷ p) (y ∷ k) h = ground (arith, bytes_le-has_prefix p k)

limit_above :
    (p k : Bytes) (r : Option Bytes)
    → Bumped (length p) p r
    → has_prefix k p ≡ true
    → is_below k r ≡ true
limit_above p k none b h = refl
limit_above p k (some r) (i, x, lt, at, up, same) h =
    let (at', same') = has_prefix-take k p i x h at in
    ground (arith, differ i r k x (same ∙ sym same') up at')

full_bytes-All :
    (l : Bytes) → ((i : ℕ) → i < length l → get_elem? l i ≡ some 255) → All (λ b. b ≡ 255) l
full_bytes-All [] h = tt
full_bytes-All (x ∷ l) h = (ground (arith, h 0), full_bytes-All l (λ i p. h (suc i) (omega arith)))

-- With no bounds given, a table with a non-empty prefix asks the wrapped database to compact a
-- range, from the prefix up to the limit that the loop computes, in which every key of the table
-- lies. The limit is nil, past every key, only if all bytes of the prefix are 255.
pub compact_covers :
    (prefix k : Bytes)
    → 0 < length prefix
    → All IsByte prefix
    → has_prefix k prefix ≡ true
    → (bytes_le (compact_start prefix none) k ≡ true)
      × (is_below k (compact_limit prefix none) ≡ true)
      × ((compact_limit prefix none ≢ none) ⊎ All (λ b. b ≡ 255) prefix)
unfolding compact_start compact_limit
compact_covers prefix k some_byte bytes h =
    let b = bump-Bumped (length prefix) prefix some_byte (omega arith) bytes in
    (
      bytes_le-has_prefix prefix k h,
      limit_above prefix k (bump (length prefix) prefix) b h,
      elim (Option-cases (bump (length prefix) prefix)) [
        | inl e ↦ inr (full_bytes-All prefix (rw e at b))
        | inr (r, e) ↦ inl (λ no. cc)
      ],
    )
