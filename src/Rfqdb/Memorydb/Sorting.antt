-- ===== src/Rfqdb/Memorydb/Sorting.antt =====
-- sort.Strings as memorydb uses it, and the filter on keys before it.
use rfqrelayer.Prelude.{
  length, suc, ◌≤◌, ◌≡◌, refl, inl, inr, true, false, ◌&&◌, ◌||◌, List, [], ◌∷◌, arith, All,
  Bool-cases, Bytes, bytes_eq, bytes_eq_iff, bytes_le, has_prefix,
}
use rfqrelayer.Prelude.{bytes_le_trans, bytes_le_total}
use rfqrelayer.Prelude.Assoc.{member, AreDistinct}
use rfqrelayer.Rfqdb.Memorydb.{insert_sorted, sort_strings, matching}

abbrev pub IsSorted : List Bytes → Type 0
IsSorted [] = Unit
IsSorted (k ∷ ks) = All (λ j. bytes_le k j ≡ true) ks × IsSorted ks

member-insert_sorted :
    (k j : Bytes) (ks : List Bytes) → member j (insert_sorted k ks) ≡ (bytes_eq k j || member j ks)
unfolding insert_sorted
member-insert_sorted k j [] = refl
member-insert_sorted k j (i ∷ ks) = ground (arith, member-insert_sorted k j ks)

pub member-sort_strings : (j : Bytes) (ks : List Bytes) → member j (sort_strings ks) ≡ member j ks
unfolding sort_strings
member-sort_strings j [] = refl
member-sort_strings j (k ∷ ks) =
    ground (arith, member-insert_sorted k j (sort_strings ks), member-sort_strings j ks)

All-above :
    (k i : Bytes) (ks : List Bytes)
    → bytes_le k i ≡ true
    → All (λ j. bytes_le i j ≡ true) ks
    → All (λ j. bytes_le k j ≡ true) ks
All-above k i [] h a = tt
All-above k i (j ∷ ks) h a = (bytes_le_trans k i j h a.0, All-above k i ks h a.1)

All-insert_sorted :
    (i k : Bytes) (ks : List Bytes)
    → bytes_le i k ≡ true
    → All (λ j. bytes_le i j ≡ true) ks
    → All (λ j. bytes_le i j ≡ true) (insert_sorted k ks)
unfolding insert_sorted
All-insert_sorted i k [] h a = (h, tt)
All-insert_sorted i k (j ∷ ks) h a = elim (Bool-cases (bytes_le k j)) [
  | inl e ↦ rw e (h, a)
  | inr e ↦ rw e (a.0, All-insert_sorted i k ks h a.1)
]

insert_sorted-IsSorted : (k : Bytes) (ks : List Bytes) → IsSorted ks → IsSorted (insert_sorted k ks)
unfolding insert_sorted
insert_sorted-IsSorted k [] s = (tt, tt)
insert_sorted-IsSorted k (j ∷ ks) s = elim (Bool-cases (bytes_le k j)) [
  | inl e ↦ rw e ((e, All-above k j ks e s.0), s)
  | inr e ↦
      rw e (All-insert_sorted j k ks (bytes_le_total k j e) s.0, insert_sorted-IsSorted k ks s.1)
]

pub sort_strings-IsSorted : (ks : List Bytes) → IsSorted (sort_strings ks)
unfolding sort_strings
sort_strings-IsSorted [] = tt
sort_strings-IsSorted (k ∷ ks) =
    insert_sorted-IsSorted k (sort_strings ks) (sort_strings-IsSorted ks)

insert_sorted-AreDistinct :
    (k : Bytes) (ks : List Bytes)
    → AreDistinct ks
    → member k ks ≡ false
    → AreDistinct (insert_sorted k ks)
unfolding insert_sorted
insert_sorted-AreDistinct k [] d out = (refl, tt)
insert_sorted-AreDistinct k (j ∷ ks) d out = elim (Bool-cases (bytes_le k j)) [
  | inl e ↦ rw e (out, d)
  | inr e ↦ rw e (
    ground (arith, member-insert_sorted k j ks, bytes_eq_iff k j, bytes_eq_iff j k),
    insert_sorted-AreDistinct k ks d.1 (ground arith),
  )
]

pub sort_strings-AreDistinct : (ks : List Bytes) → AreDistinct ks → AreDistinct (sort_strings ks)
unfolding sort_strings
sort_strings-AreDistinct [] d = tt
sort_strings-AreDistinct (k ∷ ks) d =
    insert_sorted-AreDistinct k (sort_strings ks) (sort_strings-AreDistinct ks d.1)
      (rw (member-sort_strings k ks) d.0)

pub member-matching :
    (pr st j : Bytes) (ks : List Bytes)
    → member j (matching pr st ks) ≡ (member j ks && (has_prefix j pr && bytes_le st j))
unfolding matching
member-matching pr st j [] = refl
member-matching pr st j (k ∷ ks) = ground (arith, member-matching pr st j ks, bytes_eq_iff k j)

pub matching-AreDistinct :
    (pr st : Bytes) (ks : List Bytes) → AreDistinct ks → AreDistinct (matching pr st ks)
unfolding matching
matching-AreDistinct pr st [] d = tt
matching-AreDistinct pr st (k ∷ ks) d = elim (Bool-cases (has_prefix k pr && bytes_le st k)) [
  | inl e ↦ rw e (ground (arith, member-matching pr st k ks), matching-AreDistinct pr st ks d.1)
  | inr e ↦ rw e (matching-AreDistinct pr st ks d.1)
]

length-insert_sorted : (k : Bytes) (js : List Bytes) → length (insert_sorted k js) ≡ suc (length js)
unfolding insert_sorted
length-insert_sorted k [] = refl
length-insert_sorted k (j ∷ js) = ground (arith, length-insert_sorted k js)

pub length-sort_strings : (ks : List Bytes) → length (sort_strings ks) ≡ length ks
unfolding sort_strings
length-sort_strings [] = refl
length-sort_strings (k ∷ ks) =
    omega (arith, length-insert_sorted k (sort_strings ks), length-sort_strings ks)

pub matching-length : (pr st : Bytes) (ks : List Bytes) → length (matching pr st ks) ≤ length ks
unfolding matching
matching-length pr st [] = omega arith
matching-length pr st (k ∷ ks) = ground (arith, matching-length pr st ks)
