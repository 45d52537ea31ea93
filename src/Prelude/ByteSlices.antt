-- ===== src/Prelude/ByteSlices.antt =====
-- Byte slices: their equality and their lexicographic order, as Go compares strings.
use Prim.Native.Nat.{ℕ}
use mathlib.Core.Path.{◌≡◌, refl}
use mathlib.Core.Logic.{◌↔◌}
use mathlib.Core.Bool.{Bool, true, false, ◌&&◌, ◌||◌}
use mathlib.Core.List.{List, [], ◌∷◌, ◌++◌}
use native.Mathlib.Omega.{arith}
use rfqrelayer.Prelude.Tests.{ltb, ◌==◌}

abbrev pub Bytes : Type 0
Bytes = List ℕ

unfoldable pub bytes_eq : Bytes → Bytes → Bool
bytes_eq [] [] = true
bytes_eq [] (y ∷ ys) = false
bytes_eq (x ∷ xs) [] = false
bytes_eq (x ∷ xs) (y ∷ ys) = x == y && bytes_eq xs ys

pub bytes_eq_iff : (xs ys : Bytes) → (bytes_eq xs ys ≡ true) ↔ (xs ≡ ys)
unfolding bytes_eq
bytes_eq_iff [] [] = ground arith
bytes_eq_iff [] (y ∷ ys) = ground arith
bytes_eq_iff (x ∷ xs) [] = ground arith
bytes_eq_iff (x ∷ xs) (y ∷ ys) = ground (arith, bytes_eq_iff xs ys)

pub bytes_eq_refl : (xs : Bytes) → bytes_eq xs xs ≡ true
bytes_eq_refl xs = (bytes_eq_iff xs xs).1 refl

pub bytes_eq-append : (p xs ys : Bytes) → bytes_eq (p ++ xs) (p ++ ys) ≡ bytes_eq xs ys
unfolding bytes_eq
bytes_eq-append [] xs ys = refl
bytes_eq-append (x ∷ p) xs ys = ground (arith, bytes_eq-append p xs ys)

-- `xs <= ys` of Go strings.
unfoldable pub bytes_le : Bytes → Bytes → Bool
bytes_le [] ys = true
bytes_le (x ∷ xs) [] = false
bytes_le (x ∷ xs) (y ∷ ys) = ltb x y || (x == y && bytes_le xs ys)

unfoldable pub has_prefix : Bytes → Bytes → Bool
has_prefix xs [] = true
has_prefix [] (p ∷ ps) = false
has_prefix (x ∷ xs) (p ∷ ps) = x == p && has_prefix xs ps

pub bytes_le_refl : (xs : Bytes) → bytes_le xs xs ≡ true
unfolding bytes_le
bytes_le_refl [] = refl
bytes_le_refl (x ∷ xs) = ground (arith, bytes_le_refl xs)

pub bytes_le_trans :
    (xs ys zs : Bytes) → bytes_le xs ys ≡ true → bytes_le ys zs ≡ true → bytes_le xs zs ≡ true
unfolding bytes_le
bytes_le_trans [] ys zs p q = refl
bytes_le_trans (x ∷ xs) [] zs p q = cc
bytes_le_trans (x ∷ xs) (y ∷ ys) [] p q = cc
bytes_le_trans (x ∷ xs) (y ∷ ys) (z ∷ zs) p q = ground (arith, bytes_le_trans xs ys zs)

pub bytes_le_total : (xs ys : Bytes) → bytes_le xs ys ≡ false → bytes_le ys xs ≡ true
unfolding bytes_le
bytes_le_total [] ys p = cc
bytes_le_total (x ∷ xs) [] p = refl
bytes_le_total (x ∷ xs) (y ∷ ys) p = ground (arith, bytes_le_total xs ys)

pub has_prefix-append : (p xs : Bytes) → has_prefix (p ++ xs) p ≡ true
unfolding has_prefix
has_prefix-append [] xs = refl
has_prefix-append (x ∷ p) xs = ground (arith, has_prefix-append p xs)

pub bytes_le-append : (p xs ys : Bytes) → bytes_le (p ++ xs) (p ++ ys) ≡ bytes_le xs ys
unfolding bytes_le
bytes_le-append [] xs ys = refl
bytes_le-append (x ∷ p) xs ys = ground (arith, bytes_le-append p xs ys)

pub has_prefix-split : (k p : Bytes) → has_prefix k p ≡ true → (r : Bytes) × (k ≡ p ++ r)
unfolding has_prefix
has_prefix-split k [] h = (k, refl)
has_prefix-split [] (y ∷ p) h = absurd (ground arith)
has_prefix-split (x ∷ k) (y ∷ p) h =
    let (r, e) = has_prefix-split k p (ground arith) in (r, ground (arith))

pub has_prefix-append_left : (p q k : Bytes) → has_prefix k (p ++ q) ≡ true → has_prefix k p ≡ true
unfolding has_prefix
has_prefix-append_left [] q k h = refl
has_prefix-append_left (x ∷ p) q [] h = cc
has_prefix-append_left (x ∷ p) q (y ∷ k) h = ground (arith, has_prefix-append_left p q k)

pub has_prefix-append_both : (p k q : Bytes) → has_prefix (p ++ k) (p ++ q) ≡ has_prefix k q
unfolding has_prefix
has_prefix-append_both [] k q = refl
has_prefix-append_both (x ∷ p) k q = ground (arith, has_prefix-append_both p k q)
