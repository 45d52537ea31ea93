-- ===== src/Network/TxPool/Fifo.antt =====
-- network/txpool.go: the pool, and a bounded window of the transactions that came in.
use rfqrelayer.Prelude.{
  ℕ, ◌≤◌, ◌<◌, ◌≡◌, refl, sym, ◌∙◌, inl, inr, true, false, List, [], ◌∷◌, ◌++◌, arith, ◌==◌,
  if◌then◌else◌, length, drop, ok, Bool-cases, List-cases, length-append, length-drop, Bytes,
}
use rfqrelayer.Prelude.Eq.{Eq}
use rfqrelayer.Common.Lists
use rfqrelayer.Common.Lists.{Error}
use rfqrelayer.Network.TxPool.{
  TxSortedMap, TxPool, new_tx_pool, clear_map, count, contains_key, add_to_map, prune, add,
  pending_txs, clear_pending,
}
use rfqrelayer.Network.TxPool.SortedMap.{
  has, AreDistinct, IsSynced, new_tx_sorted_map-IsSynced, without-split, contains_key-has,
  count-length, add_to_map-txx, add_to_map-IsSynced, remove_lem, first-cons, clear_map-IsSynced,
}

-- A list of at most `n` items, full, makes room for one more by dropping its head.
abbrev pub room {ℓ} : {A : Type ℓ} → ℕ → List A → List A
room n ts = if length ts == n then drop 1 ts else ts

module _ {Tx : Type 0} (hash : Tx → Bytes) where
  pub record IsValid (p : TxPool Tx) : Type 0 where
    pub all_synced : IsSynced hash p.all
    pub pending_synced : IsSynced hash p.pending
    pub bounded : length p.all.txx ≤ p.max_length
    pub roomy : 0 < p.max_length

  -- A transaction of a new hash goes to the end.
  abbrev pub append_new : List Tx → Tx → List Tx
  append_new ts t = if has hash ts (hash t) then ts else ts ++ t ∷ []

  -- What Add does to both lists of a valid pool.
  pub record Added (p : TxPool Tx) (t : Tx) (q : TxPool Tx) : Type 0 where
    pub valid : IsValid q
    pub all_txs : q.all.txx ≡ append_new (room p.max_length p.all.txx) t
    pub pending_txs : q.pending.txx ≡ (
        if has hash (room p.max_length p.all.txx) (hash t)
        then p.pending.txx
        else append_new p.pending.txx t)
    pub same_max : q.max_length ≡ p.max_length

  room-lt : (n : ℕ) (ts : List Tx) → 0 < n → length ts ≤ n → length (room n ts) < n
  room-lt n ts some_room bound = ground (arith, length-drop 1 ts)

  module _ ⦃e : Eq Tx⦄ where
    -- A full pool drops its head.
    prune_lem :
        (p : TxPool Tx)
        → IsValid p
        → (q : TxSortedMap Tx) × (prune hash p ≡ ok (record p { all = q }))
          × IsSynced hash q
          × (q.txx ≡ room p.max_length p.all.txx)
    unfolding prune
    prune_lem p v = elim (Bool-cases (count p.all == p.max_length)) [
      | inl full ↦ elim (List-cases p.all.txx) [
        | inl none_left ↦ absurd (ground (arith, count-length hash v.all_synced))
        | inr (t, ts, split) ↦
            let (m, removed, synced, left) = remove_lem hash v.all_synced (hash t) in
            let d : AreDistinct hash (t ∷ ts) = rw split at v.all_synced.distinct in
            (
              m,
              rw (full, first-cons hash v.all_synced t ts split, removed, prune),
              synced,
              ground (arith, count-length hash v.all_synced, without-split hash [] ts t d),
            )
      ]
      | inr space ↦
          (p.all, rw (space, prune), v.all_synced, ground (arith, count-length hash v.all_synced))
    ]

    -- Add never panics on a valid pool and leaves a valid pool. Its list is that of the bounded
    -- window, and the pending list takes the transaction exactly if the window takes it.
    pub add-Added :
        (p : TxPool Tx) (t : Tx) → IsValid p → (q : TxPool Tx) × (add hash p t ≡ ok q) × Added p t q
    unfolding add contains_key
    add-Added p t v =
        let (m, pruned, synced, left) = prune_lem p v in
        let small = room-lt p.max_length p.all.txx v.roomy v.bounded in
        let seen = contains_key-has hash synced (hash t) in
        elim (Bool-cases (contains_key m (hash t))) [
          | inl known ↦
              let listed : has hash (room p.max_length p.all.txx) (hash t) ≡ true =
                rw (← left) (sym seen ∙ known) in
              (
                record p { all = m },
                rw (pruned, add) (rw known),
                record {
                  valid = record {
                    all_synced = synced;
                    pending_synced = v.pending_synced;
                    roomy = v.roomy;
                    bounded = ground (arith, left);
                  };
                  all_txs = rw (listed) left;
                  pending_txs = rw listed;
                  same_max = refl;
                },
              )
          | inr fresh ↦
              let new : has hash (room p.max_length p.all.txx) (hash t) ≡ false =
                rw (← left) (sym seen ∙ fresh) in
              let same : (add_to_map hash m t).txx ≡ room p.max_length p.all.txx ++ t ∷ [] =
                rw (add_to_map-txx hash synced t, left, new) refl in
              (
                record p { all = add_to_map hash m t; pending = add_to_map hash p.pending t },
                rw (pruned, add) (rw fresh),
                record {
                  valid = record {
                    all_synced = add_to_map-IsSynced hash synced t;
                    pending_synced = add_to_map-IsSynced hash v.pending_synced t;
                    roomy = v.roomy;
                    bounded =
                        ground (arith, same, length-append (room p.max_length p.all.txx) (t ∷ []));
                  };
                  all_txs = rw new same;
                  pending_txs = rw new (add_to_map-txx hash v.pending_synced t);
                  same_max = refl;
                },
              )
        ]

    -- Emptying the pending list touches nothing else.
    pub clear_pending_lem :
        (p : TxPool Tx)
        → IsValid p
        → IsValid (clear_pending p)
          × (pending_txs (clear_pending p) ≡ [])
          × ((clear_pending p).all ≡ p.all)
    unfolding clear_pending pending_txs clear_map Lists.clear
    clear_pending_lem p v = (
      record {
        all_synced = v.all_synced;
        pending_synced = clear_map-IsSynced hash v.pending_synced;
        bounded = v.bounded;
        roomy = v.roomy;
      },
      refl,
      refl,
    )

    pub new_tx_pool-IsValid : (n : ℕ) → 0 < n → IsValid (new_tx_pool n)
    unfolding new_tx_pool
    new_tx_pool-IsValid n h =
        let empty = new_tx_sorted_map-IsSynced hash in
        record { all_synced = empty; pending_synced = empty; bounded = omega arith; roomy = h }
