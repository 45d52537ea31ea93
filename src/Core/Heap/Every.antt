-- ===== src/Core/Heap/Every.antt =====
-- A test that every entry of a list passes, whatever their order.
use rfqrelayer.Prelude.{
  ℕ, zero, suc, ◌<◌, ◌≡◌, refl, ap, ◌∙◌, Bool, true, ◌&&◌, List, [], ◌∷◌, ◌++◌, map, arith, length,
}
use mathlib.Core.Logic.{∥∥₁_elim}
use mathlib.Core.Bool.{Bool-set}
use mathlib.Core.List.{Perm, Permᴰ, Mem, Memᴰ}
use rfqrelayer.Prelude.Int.{ℤ, leb_ℤ, ◌≤ℤ◌}
use rfqrelayer.Core.Heap.{key_at}

module _ {A : Type 0} where
  abbrev pub every : (A → Bool) → List A → Bool
  every p [] = true
  every p (x ∷ l) = p x && every p l

  pub every-append : (p : A → Bool) (l m : List A) → every p (l ++ m) ≡ (every p l && every p m)
  every-append p [] m = refl
  every-append p (x ∷ l) m = ground (arith, every-append p l m)

  every-permᴰ : (p : A → Bool) {l m : List A} → Permᴰ l m → every p l ≡ every p m
  every-permᴰ p Permᴰ.nil = refl
  every-permᴰ p (Permᴰ.cons e h) = ground (arith, ap p e, every-permᴰ p h)
  every-permᴰ p (Permᴰ.swap e f) = ground (arith, ap p e, ap p f)
  every-permᴰ p (Permᴰ.trans h k) = every-permᴰ p h ∙ every-permᴰ p k

  pub every-perm : (p : A → Bool) {l m : List A} → Perm l m → every p l ≡ every p m
  every-perm p h = ∥∥₁_elim h (Bool-set _ _) (every-permᴰ p)

  every-memᴰ : (p : A → Bool) {a : A} {l : List A} → Memᴰ a l → every p l ≡ true → p a ≡ true
  every-memᴰ p (Memᴰ.head e) h = ground (arith, ap p e)
  every-memᴰ p (Memᴰ.tail m) h = every-memᴰ p m (ground arith)

  pub every-mem : (p : A → Bool) {a : A} {l : List A} → Mem a l → every p l ≡ true → p a ≡ true
  every-mem p m h = ∥∥₁_elim m (Bool-set _ _) (λ d. every-memᴰ p d h)

  pub every-imp :
      (p q : A → Bool) (l : List A)
      → ((a : A) → p a ≡ true → q a ≡ true)
      → every p l ≡ true
      → every q l ≡ true
  every-imp p q [] h e = refl
  every-imp p q (x ∷ l) h e = ground (arith, h x, every-imp p q l h)

  -- A bound of the keys at every place is a bound of every entry's key.
  pub every_key :
      (key : A → ℤ) (b : ℤ) (l : List A)
      → ((i : ℕ) → i < length l → b ≤ℤ key_at key l i)
      → every (λ a. leb_ℤ b (key a)) l ≡ true
  every_key key b [] h = refl
  every_key key b (x ∷ l) h =
      let first = h 0 (omega arith) in
      ground (arith, every_key key b l (λ i p. h (suc i) (omega arith)))

  -- Keys that agree on the entries agree at every place.
  pub key_at-agree :
      (p : A → Bool) (f g : A → ℤ) (l : List A)
      → ((a : A) → p a ≡ true → f a ≡ g a)
      → every p l ≡ true
      → (i : ℕ) → key_at f l i ≡ key_at g l i
  key_at-agree p f g [] h e i = refl
  key_at-agree p f g (x ∷ l) h e zero = h x (ground arith)
  key_at-agree p f g (x ∷ l) h e (suc i) = key_at-agree p f g l h (ground arith) i

  pub map-agree :
      {B : Type 0} (p : A → Bool) (f g : A → B) (l : List A)
      → ((a : A) → p a ≡ true → f a ≡ g a)
      → every p l ≡ true
      → map f l ≡ map g l
  map-agree p f g [] h e = refl
  map-agree p f g (x ∷ l) h e = ground (arith, h x, map-agree p f g l h)

  pub every-agree :
      (p f g : A → Bool) (l : List A)
      → ((a : A) → p a ≡ true → f a ≡ g a)
      → every p l ≡ true
      → every f l ≡ every g l
  every-agree p f g [] h e = refl
  every-agree p f g (x ∷ l) h e = ground (arith, h x, every-agree p f g l h)

module _ {A B : Type 0} where
  pub every-map :
      (p : B → Bool) (f : A → B) (l : List A) → every p (map f l) ≡ every (λ a. p (f a)) l
  every-map p f [] = refl
  every-map p f (x ∷ l) = ground (arith, every-map p f l)
