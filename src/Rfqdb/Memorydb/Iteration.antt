-- ===== src/Rfqdb/Memorydb/Iteration.antt =====
-- rfqdb/memorydb/memorydb.go: what a loop over an iterator meets.
use rfqrelayer.Prelude.{
  ℕ, zero, suc, ◌+◌, ◌≤◌, ◌<◌, ◌≡◌, refl, sym, ap, ◌∙◌, inl, inr, true, false, ◌&&◌, Option, none,
  some, List, [], ◌∷◌, ◌++◌, map, arith, ltb, if◌then◌else◌, length, get_elem?, drop, Bool-cases,
  drop-get_elem?, drop_past, get_elem?-map, Bytes, bytes_eq_iff, bytes_le, has_prefix,
}
use rfqrelayer.Prelude.Assoc.{Assoc, lookup, keys, member, AreDistinct, lookup-member}
use rfqrelayer.Rfqdb.Interfaces.{IteratorOps}
use rfqrelayer.Rfqdb.Memorydb.{
  Store, new_iterator, next, key, value, iterator_ops, value_of, matching, sort_strings,
  at_position, contents,
}
use rfqrelayer.Rfqdb.Memorydb.Entries.{IsValid}
use rfqrelayer.Rfqdb.Memorydb.Sorting.{
  IsSorted, member-sort_strings, sort_strings-IsSorted, sort_strings-AreDistinct, member-matching,
  matching-AreDistinct, length-sort_strings, matching-length,
}

abbrev pub or_nil : Option Bytes → Bytes
or_nil none = []
or_nil (some b) = b

-- `for it.Next() { out = append(out, pair of it.Key() and it.Value()) }`, on fuel.
unfoldable pub collect : {I : Type 0} → IteratorOps I → ℕ → I → List (Bytes × Bytes)
collect o zero it = []
collect o (suc fuel) it =
    let moved = (o.next it).0 in
    elim (o.next it).1 [
      | true ↦ (or_nil (o.key moved), or_nil (o.value moved)) ∷ collect o fuel moved
      | false ↦ []
    ]

pair_up : List Bytes → (Bytes → Bytes) → Assoc Bytes
pair_up ks f = map (λ k. (k, f k)) ks

module _ (i : ℕ) (ks vs : List Bytes) (h : i < length ks) where
  next-true :
      next (record { position = i; keys = ks; values = vs })
      ≡ (record { position = suc i; keys = ks; values = vs }, true)
  unfolding next
  next-true = ground arith

  key-get_elem? : key (record { position = suc i; keys = ks; values = vs }) ≡ get_elem? ks i
  unfolding key at_position
  key-get_elem? = ground arith

  value-get_elem? : value (record { position = suc i; keys = ks; values = vs }) ≡ get_elem? vs i
  unfolding value at_position
  value-get_elem? = ground arith

next-false :
    (ks vs : List Bytes)
    → (next (record { position = length ks; keys = ks; values = vs })).1 ≡ false
unfolding next
next-false ks vs = ground arith

collect-true :
    {I : Type 0} (o : IteratorOps I) (fuel : ℕ) (it moved : I)
    → o.next it ≡ (moved, true)
    → collect o (suc fuel) it
      ≡ (or_nil (o.key moved), or_nil (o.value moved)) ∷ collect o fuel moved
unfolding collect
collect-true o fuel it moved e = ground arith

collect-false :
    {I : Type 0} (o : IteratorOps I) (fuel : ℕ) (it : I)
    → (o.next it).1 ≡ false
    → collect o (suc fuel) it ≡ []
unfolding collect
collect-false o fuel it e = ground arith

-- From position `i` the loop meets the entries from `i` on.
collect-from :
    (fuel i : ℕ) (ks : List Bytes) (f : Bytes → Bytes)
    → i ≤ length ks
    → length ks < fuel + i
    → collect iterator_ops fuel (record { position = i; keys = ks; values = map f ks })
      ≡ pair_up (drop i ks) f
unfolding pair_up
collect-from zero i ks f h l = absurd (omega arith)
collect-from (suc fuel) i ks f h l = elim (Bool-cases (ltb i (length ks))) [
  | inl more ↦
      let lt : i < length ks = ground arith in
      let (k, at, split) = drop-get_elem? i ks lt in
      let at' = get_elem?-map f ks i k at in
      rw
        (
          collect-true iterator_ops fuel _ _ (next-true i ks (map f ks) lt),
          key-get_elem? i ks (map f ks) lt,
          value-get_elem? i ks (map f ks) lt,
          at,
          at',
          split,
        )
        (ap (◌∷◌ (k, f k)) (collect-from fuel (suc i) ks f lt (omega arith)))
  | inr done ↦
      let e : i ≡ length ks = ground arith in
      rw e (
        collect-false iterator_ops fuel _ (next-false ks (map f ks))
        ∙ sym (ap (λ l. pair_up l f) (drop_past (length ks) ks (omega arith))))
]

-- The pairs that a loop over a new iterator meets.
unfoldable pub entries_of : Store → Bytes → Bytes → Assoc Bytes
unfolding collect
entries_of s pr start =
    let it = new_iterator s pr start in collect iterator_ops (suc (length it.keys)) it

abbrev selected : Store → Bytes → Bytes → List Bytes
selected s pr start = sort_strings (matching pr (pr ++ start) (keys (contents s)))

length-keys : (m : Assoc Bytes) → length (keys m) ≡ length m
length-keys [] = refl
length-keys (e ∷ m) = ap suc (length-keys m)

-- An iterator has no more keys than the store has entries.
pub new_iterator-length :
    (s : Store) (pr start : Bytes) → length (new_iterator s pr start).keys ≤ length (contents s)
unfolding new_iterator
new_iterator-length s pr start =
    let ks = keys (contents s) in
    omega (
      arith,
      length-sort_strings (matching pr (pr ++ start) ks),
      matching-length pr (pr ++ start) ks,
      length-keys (contents s),
    )

-- Fuel for one round more than there are keys is enough: more changes nothing.
pub collect-enough :
    (s : Store) (pr start : Bytes) (fuel : ℕ)
    → length (new_iterator s pr start).keys < fuel
    → collect iterator_ops fuel (new_iterator s pr start) ≡ entries_of s pr start
unfolding entries_of new_iterator
collect-enough s pr start fuel h =
    collect-from fuel 0 (selected s pr start) (value_of (contents s)) (omega arith) (omega arith)
    ∙ sym (
        collect-from (suc (length (selected s pr start))) 0 (selected s pr start)
          (value_of (contents s)) (omega arith) (omega arith))

entries_of-pair_up :
    (s : Store) (pr start : Bytes)
    → entries_of s pr start ≡ pair_up (selected s pr start) (value_of (contents s))
unfolding entries_of new_iterator
entries_of-pair_up s pr start =
    collect-from (suc (length (selected s pr start))) 0 (selected s pr start)
      (value_of (contents s)) (omega arith) (omega arith)

keys-pair_up : (ks : List Bytes) (f : Bytes → Bytes) → keys (pair_up ks f) ≡ ks
unfolding pair_up
keys-pair_up [] f = refl
keys-pair_up (k ∷ ks) f = ap (◌∷◌ k) (keys-pair_up ks f)

lookup-pair_up :
    (ks : List Bytes) (f : Bytes → Bytes) (k : Bytes)
    → lookup k (pair_up ks f) ≡ (if member k ks then some (f k) else none)
unfolding pair_up lookup
lookup-pair_up [] f k = refl
lookup-pair_up (j ∷ ks) f k = ground (arith, lookup-pair_up ks f k, bytes_eq_iff j k)

-- A loop over a new iterator meets every key of the store that has the prefix and is not below
-- prefix and start together, with its value, and no other key, in ascending order, each key once.
pub entries_of_lem :
    (s : Store) (pr start : Bytes)
    → IsValid s
    → ((k : Bytes)
        → lookup k (entries_of s pr start)
          ≡ (if has_prefix k pr && bytes_le (pr ++ start) k then lookup k (contents s) else none))
      × IsSorted (keys (entries_of s pr start))
      × AreDistinct (keys (entries_of s pr start))
unfolding value_of
entries_of_lem s pr start v =
    rw (entries_of-pair_up s pr start, keys-pair_up (selected s pr start) (value_of (contents s)))
      (
        (λ k. ground (
          arith,
          lookup-pair_up (selected s pr start) (value_of (contents s)) k,
          member-sort_strings k (matching pr (pr ++ start) (keys (contents s))),
          member-matching pr (pr ++ start) k (keys (contents s)),
          (lookup-member k (contents s)).0,
          (lookup-member k (contents s)).1,
        )),
        sort_strings-IsSorted _,
        sort_strings-AreDistinct _ (matching-AreDistinct pr (pr ++ start) (keys (contents s)) v),
      )
