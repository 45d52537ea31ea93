-- ===== src/Network/TxPool/Window.antt =====
-- network/txpool.go: what a pool holds after a run of new transactions.
use rfqrelayer.Prelude.{
  ℕ, zero, suc, ◌-◌, ◌<◌, ◌≡◌, refl, sym, ap, ◌∙◌, inl, inr, true, false, List, [], ◌∷◌, ◌++◌,
  arith, ltb, ◌==◌, length, drop, Result, ok, ◌>>=◌, Bool-cases, length-append, length-drop,
  drop-append, drop_one-drop, Bytes, bytes_eq_iff,
}
use mathlib.Core.List.{append_assoc, append-nil}
use rfqrelayer.Prelude.Eq.{Eq}
use rfqrelayer.Common.Lists
use rfqrelayer.Common.Lists.{Error}
use rfqrelayer.Network.TxPool.{TxPool, new_tx_pool, new_tx_sorted_map, add}
use rfqrelayer.Network.TxPool.SortedMap.{has, AreDistinct, has-append}
use rfqrelayer.Network.TxPool.Fifo.{IsValid, room, add-Added, new_tx_pool-IsValid}

module _ {A : Type 0} where
  room-drop :
      (n : ℕ) (xs : List A) (t : A)
      → 0 < n
      → room n (drop (length xs - n) xs) ++ t ∷ [] ≡ drop (length (xs ++ t ∷ []) - n) (xs ++ t ∷ [])
  room-drop n xs t h = elim (Bool-cases (ltb (length xs) n)) [
    | inl short ↦
        let none_left : length xs - n ≡ 0 = ground arith in
        let none_now : length (xs ++ t ∷ []) - n ≡ 0 = ground (arith, length-append xs (t ∷ [])) in
        let below : length xs == n ≡ false = ground arith in rw (none_left, none_now, below)
    | inr long ↦
        let size : length (drop (length xs - n) xs) ≡ n =
          ground (arith, length-drop (length xs - n) xs) in
        let full : length (drop (length xs - n) xs) == n ≡ true = ground (arith, size) in
        let more : length (xs ++ t ∷ []) - n ≡ suc (length xs - n) =
          ground (arith, length-append xs (t ∷ [])) in
        rw (full, more)
          (ap (λ r. r ++ t ∷ []) (drop_one-drop (length xs - n) xs)
            ∙ sym (drop-append (suc (length xs - n)) xs (t ∷ []) (ground arith)))
  ]

module _ {Tx : Type 0} (hash : Tx → Bytes) where
  has-drop :
      (n : ℕ) (xs : List Tx) (h : Bytes) → has hash xs h ≡ false → has hash (drop n xs) h ≡ false
  has-drop zero xs h p = p
  has-drop (suc n) [] h p = refl
  has-drop (suc n) (x ∷ xs) h p = has-drop n xs h (ground arith)

  has-room :
      (n : ℕ) (xs : List Tx) (h : Bytes) → has hash xs h ≡ false → has hash (room n xs) h ≡ false
  has-room n xs h p = ground (arith, has-drop 1 xs h)

  AreDistinct-mid :
      (xs : List Tx) (t : Tx) (ts : List Tx)
      → AreDistinct hash (xs ++ t ∷ ts)
      → has hash xs (hash t) ≡ false
  AreDistinct-mid [] t ts d = refl
  AreDistinct-mid (x ∷ xs) t ts (out, d) = ground (
    arith,
    AreDistinct-mid xs t ts d,
    has-append hash xs (t ∷ ts) (hash x),
    bytes_eq_iff (hash t) (hash x),
    bytes_eq_iff (hash x) (hash t),
  )

  module _ ⦃e : Eq Tx⦄ where
    -- The transactions come in one after the other.
    pub add_all : TxPool Tx → List Tx → Result Error (TxPool Tx)
    add_all p [] = ok p
    add_all p (t ∷ ts) = add hash p t >>= λ q. add_all q ts

    -- A pool of size `n` that has taken `xs`, none of which a block has.
    pub record Holds (n : ℕ) (xs : List Tx) (p : TxPool Tx) : Type 0 where
      pub valid : IsValid hash p
      pub sized : p.max_length ≡ n
      pub latest : p.all.txx ≡ drop (length xs - n) xs
      pub waiting : p.pending.txx ≡ xs

    add-Holds :
        (n : ℕ) (xs : List Tx) (t : Tx) (p : TxPool Tx)
        → Holds n xs p
        → has hash xs (hash t) ≡ false
        → (q : TxPool Tx) × (add hash p t ≡ ok q) × Holds n (xs ++ t ∷ []) q
    add-Holds n xs t p v new =
        let (q, run, a) = add-Added hash p t v.valid in
        let dropped = has-drop (length xs - n) xs (hash t) new in
        let fresh : has hash (room p.max_length p.all.txx) (hash t) ≡ false =
          has-room p.max_length p.all.txx (hash t) (rw v.latest dropped) in
        (
          q,
          run,
          record {
            valid = a.valid;
            sized = a.same_max ∙ v.sized;
            latest =
                a.all_txs
                ∙ rw fresh
                    (rw (v.latest, v.sized) (room-drop n xs t (rw (← v.sized) v.valid.roomy)));
            waiting = a.pending_txs ∙ rw fresh (rw v.waiting (rw new));
          },
        )

    add_all-Holds :
        (n : ℕ) (xs ts : List Tx) (p : TxPool Tx)
        → Holds n xs p
        → AreDistinct hash (xs ++ ts)
        → (q : TxPool Tx) × (add_all p ts ≡ ok q) × Holds n (xs ++ ts) q
    unfolding add_all
    add_all-Holds n xs [] p v d = (p, refl, rw append-nil v)
    add_all-Holds n xs (t ∷ ts) p v d =
        let (q, run, held) = add-Holds n xs t p v (AreDistinct-mid xs t ts d) in
        let (r, rest, done) = add_all-Holds n (xs ++ t ∷ []) ts q held (rw append_assoc d) in
        (r, rw run rest, rw append_assoc at done)

    -- A new pool of a size `n` above 0 that takes a run of distinct transactions, without a panic,
    -- holds the last `n` of them, and all of them are pending.
    pub new_tx_pool_window :
        (n : ℕ) (ts : List Tx)
        → 0 < n
        → AreDistinct hash ts
        → (q : TxPool Tx) × (add_all (new_tx_pool n) ts ≡ ok q)
          × (q.all.txx ≡ drop (length ts - n) ts)
          × (q.pending.txx ≡ ts)
    unfolding new_tx_pool new_tx_sorted_map Lists.new_list
    new_tx_pool_window n ts h d =
        let start : Holds n [] (new_tx_pool n) = record {
          valid = new_tx_pool-IsValid hash n h;
          sized = refl;
          latest = ground arith;
          waiting = refl;
        } in
        let (q, run, held) = add_all-Holds n [] ts (new_tx_pool n) start d in
        (q, run, held.latest, held.waiting)
