-- ===== src/Network/TxPool/SortedMap.antt =====
-- network/txpool.go: the map and the list of a TxSortedMap, and their agreement.
use rfqrelayer.Prelude.{
  ◌≡◌, refl, sym, ap, ◌∙◌, ◌↔◌, inl, inr, Bool, true, false, ◌||◌, not, none, some, List, [], ◌∷◌,
  ◌++◌, map, arith, if◌then◌else◌, length, keep_if, ok, Bool-cases, Option-cases, length-map, Bytes,
  bytes_eq, bytes_eq_iff, bytes_eq_refl,
}
use rfqrelayer.Prelude.Eq.{Eq}
use rfqrelayer.Prelude.Assoc.{lookup, insert, delete}
use rfqrelayer.Common.Lists
use rfqrelayer.Common.Lists.First.{remove_first}
use rfqrelayer.Common.Lists.{Error}
use rfqrelayer.Network.TxPool.{
  TxSortedMap, new_tx_sorted_map, clear_map, count, contains_key, first, add_to_map, remove,
}

module _ {Tx : Type 0} (hash : Tx → Bytes) where
  -- Is there a transaction of hash `h`?
  abbrev pub has : List Tx → Bytes → Bool
  has [] h = false
  has (t ∷ ts) h = bytes_eq (hash t) h || has ts h

  -- No two transactions share a hash.
  abbrev pub AreDistinct : List Tx → Type 0
  AreDistinct [] = Unit
  AreDistinct (t ∷ ts) = (has ts (hash t) ≡ false) × AreDistinct ts

  abbrev pub entry : Tx → Bytes × Tx
  entry t = (hash t, t)

  -- The map's entries are those of the list, in the order in which they came.
  pub record IsSynced (m : TxSortedMap Tx) : Type 0 where
    pub entries : m.lookup ≡ map entry m.txx
    pub distinct : AreDistinct m.txx

  pub new_tx_sorted_map-IsSynced : IsSynced new_tx_sorted_map
  unfolding new_tx_sorted_map Lists.new_list
  new_tx_sorted_map-IsSynced = record { entries = refl; distinct = tt }

  lookup-entries :
      (ts : List Tx) (h : Bytes) → (lookup h (map entry ts) ≡ none) ↔ (has ts h ≡ false)
  unfolding lookup
  lookup-entries [] h = ((λ _. refl), (λ _. refl))
  lookup-entries (t ∷ ts) h = (
    (λ p. ground (arith, (lookup-entries ts h).0)),
    (λ p. ground (arith, (lookup-entries ts h).1)),
  )

  insert-entries :
      (ts : List Tx) (t : Tx)
      → has ts (hash t) ≡ false
      → insert (hash t) t (map entry ts) ≡ map entry (ts ++ t ∷ [])
  unfolding insert
  insert-entries [] t p = refl
  insert-entries (s ∷ ts) t p = ground (arith, insert-entries ts t)

  pub has-append : (ts us : List Tx) (h : Bytes) → has (ts ++ us) h ≡ (has ts h || has us h)
  has-append [] us h = refl
  has-append (t ∷ ts) us h = ground (arith, has-append ts us h)

  AreDistinct-append :
      (ts : List Tx) (t : Tx)
      → AreDistinct ts
      → has ts (hash t) ≡ false
      → AreDistinct (ts ++ t ∷ [])
  AreDistinct-append [] t d p = (refl, tt)
  AreDistinct-append (s ∷ ts) t (out, d) p = (
    ground (
      arith,
      has-append ts (t ∷ []) (hash s),
      bytes_eq_iff (hash t) (hash s),
      bytes_eq_iff (hash s) (hash t),
    ),
    AreDistinct-append ts t d (ground arith),
  )

  -- The listed transactions of another hash, in their order.
  pub without : Bytes → List Tx → List Tx
  without h = keep_if (λ t. not (bytes_eq (hash t) h))

  without-absent : (ts : List Tx) (h : Bytes) → has ts h ≡ false → without h ts ≡ ts
  unfolding without
  without-absent [] h p = refl
  without-absent (t ∷ ts) h p = ground (arith, without-absent ts h)

  pub without-split :
      (a b : List Tx) (t : Tx) → AreDistinct (a ++ t ∷ b) → without (hash t) (a ++ t ∷ b) ≡ a ++ b
  unfolding without
  without-split [] b t (out, d) = ground (arith, bytes_eq_refl (hash t), without-absent b (hash t))
  without-split (s ∷ a) b t (out, d) = ground (
    arith,
    without-split a b t,
    has-append a (t ∷ b) (hash s),
    bytes_eq_iff (hash t) (hash s),
    bytes_eq_iff (hash s) (hash t),
  )

  has-without : (ts : List Tx) (h j : Bytes) → has ts j ≡ false → has (without h ts) j ≡ false
  unfolding without
  has-without [] h j p = refl
  has-without (t ∷ ts) h j p = ground (arith, has-without ts h j)

  AreDistinct-without : (ts : List Tx) (h : Bytes) → AreDistinct ts → AreDistinct (without h ts)
  unfolding without
  AreDistinct-without [] h d = tt
  AreDistinct-without (t ∷ ts) h (out, d) = elim (Bool-cases (bytes_eq (hash t) h)) [
    | inl e ↦ rw e (AreDistinct-without ts h d)
    | inr e ↦ rw e (has-without ts h (hash t) out, AreDistinct-without ts h d)
  ]

  delete-entries : (ts : List Tx) (h : Bytes) → delete h (map entry ts) ≡ map entry (without h ts)
  unfolding without delete
  delete-entries [] h = refl
  delete-entries (t ∷ ts) h = ground (arith, delete-entries ts h)

  lookup-hash : (ts : List Tx) (h : Bytes) (t : Tx) → lookup h (map entry ts) ≡ some t → hash t ≡ h
  unfolding lookup
  lookup-hash [] h t p = cc
  lookup-hash (s ∷ ts) h t p = ground (arith, lookup-hash ts h t, bytes_eq_iff (hash s) h)

  AreDistinct-split : (a b : List Tx) (t : Tx) → AreDistinct (a ++ t ∷ b) → AreDistinct (a ++ b)
  AreDistinct-split a b t d =
      rw (without-split a b t d) at (AreDistinct-without (a ++ t ∷ b) (hash t) d)

  lookup-contains :
      ⦃e : Eq Tx⦄ (ts : List Tx) (h : Bytes) (t : Tx)
      → lookup h (map entry ts) ≡ some t
      → Lists.contains ts t ≡ true
  unfolding lookup Lists.contains
  lookup-contains [] h t p = cc
  lookup-contains ⦃e⦄ (s ∷ ts) h t p = ground (arith, lookup-contains ts h t, e.beq_iff s t)

  module _ {m : TxSortedMap Tx} (v : IsSynced m) where
    lookup-has : (h : Bytes) → (lookup h m.lookup ≡ none) ↔ (has m.txx h ≡ false)
    lookup-has h = rw v.entries (lookup-entries m.txx h)

    -- Contains of the map tells whether a listed transaction has the hash.
    pub contains_key-has : (h : Bytes) → contains_key m h ≡ has m.txx h
    unfolding contains_key
    contains_key-has h = ground (arith, (lookup-has h).0, (lookup-has h).1)

    pub count-length : count m ≡ length m.txx
    unfolding count
    count-length = rw v.entries (length-map m.txx entry)

    -- Add appends a transaction of a new hash, and changes nothing otherwise.
    pub add_to_map-txx :
        ⦃e : Eq Tx⦄ (t : Tx)
        → (add_to_map hash m t).txx ≡ (if has m.txx (hash t) then m.txx else m.txx ++ t ∷ [])
    unfolding add_to_map Lists.insert
    add_to_map-txx t = ground (arith, (lookup-has (hash t)).0, (lookup-has (hash t)).1)

    pub add_to_map-IsSynced : ⦃e : Eq Tx⦄ (t : Tx) → IsSynced (add_to_map hash m t)
    unfolding add_to_map Lists.insert
    add_to_map-IsSynced ⦃e⦄ t = elim (Option-cases (lookup (hash t) m.lookup)) [
      | inl out ↦
          rw (out, add_to_map)
            (record {
              entries = rw v.entries (insert-entries m.txx t ((lookup-has (hash t)).0 out));
              distinct = AreDistinct-append m.txx t v.distinct ((lookup-has (hash t)).0 out);
            })
      | inr (s, known) ↦ rw (known, add_to_map) v
    ]

    -- First gives the oldest transaction.
    pub first-cons :
        ⦃e : Eq Tx⦄ (t : Tx) (ts : List Tx) → m.txx ≡ t ∷ ts → first hash m ≡ ok (some t)
    unfolding first lookup Lists.get
    first-cons t ts split = rw (v.entries, split) (rw (bytes_eq_refl (hash t)))

    -- Remove takes out the transaction of the hash, if there is one, and never panics.
    pub remove_lem :
        ⦃e : Eq Tx⦄ (h : Bytes)
        → (n : TxSortedMap Tx) × (remove hash m h ≡ ok n) × IsSynced n × (n.txx ≡ without h m.txx)
    unfolding remove
    remove_lem ⦃e⦄ h = elim (Option-cases (lookup h m.lookup)) [
      | inl out ↦
          let same = without-absent m.txx h ((lookup-has h).0 out) in
          let n : TxSortedMap Tx = record { lookup = delete h m.lookup; txx = m.txx } in
          let kept : IsSynced n = record {
            entries = rw v.entries (delete-entries m.txx h ∙ ap (map entry) same);
            distinct = v.distinct;
          } in
          (n, rw (out, remove), kept, sym same)
      | inr (t, known) ↦
          let listed = rw v.entries at known in
          elim (remove_first m.txx t) [
            | inl (out, r) ↦ absurd (ground (arith, lookup-contains m.txx h t listed))
            | inr (a, b, split, out, r) ↦
                let key = lookup-hash m.txx h t listed in
                let d : AreDistinct (a ++ t ∷ b) = rw split at v.distinct in
                let rest : without h m.txx ≡ a ++ b = rw (split, ← key) (without-split a b t d) in
                let n : TxSortedMap Tx = record { lookup = delete h m.lookup; txx = a ++ b } in
                let kept : IsSynced n = record {
                  entries = rw v.entries (delete-entries m.txx h ∙ ap (map entry) rest);
                  distinct = AreDistinct-split a b t d;
                } in
                (n, rw (known, r, remove), kept, sym rest)
          ]
    ]

    pub clear_map-IsSynced : IsSynced (clear_map m)
    unfolding clear_map Lists.clear
    clear_map-IsSynced = record { entries = refl; distinct = tt }
