-- ===== src/Network/TxPool.antt =====
-- network/txpool.go: the transaction pool and its two insertion-ordered maps.
-- A transaction is any type with a structural equality and a hash; the mutexes are not modelled,
-- every method being one step.
pub mod SortedMap
pub mod Fifo
pub mod Window
use rfqrelayer.Prelude.{
  ℕ, zero, suc, ◌+◌, ◌-◌, ◌*◌, ◌/◌, ◌%◌, ◌^◌, ◌≤◌, ◌<◌, ◌≡◌, refl, sym, ap, ◌∙◌, ◌≢◌, ◌↔◌, ◌⊎◌, inl,
  inr, Bool, true, false, ◌&&◌, ◌||◌, not, Option, none, some, List, [], ◌∷◌, ◌++◌, map, arith, ltb,
  leb, ◌==◌, if◌then◌else◌, length, get_elem?, set, take, drop, replicate, keep_if, All, Result, ok,
  err, panic, ◌>>=◌, ◌>>◌, Bool-cases, Option-cases, length-append, length-take, length-drop,
  length-replicate, length-map, drop-append_length, get_elem?-append, get_elem?-append_length,
  Bytes, bytes_eq, bytes_eq_iff, bytes_eq_refl, bytes_eq-append, bytes_le, has_prefix,
}
use rfqrelayer.Prelude.Eq.{Eq}
use rfqrelayer.Prelude.Int.{ℤ, pos, negsuc}
use rfqrelayer.Prelude.Assoc.{Assoc, lookup, insert, delete}
use rfqrelayer.Common.Lists
use rfqrelayer.Common.Lists.{Error}

pub record TxSortedMap (Tx : Type 0) : Type 0 where
  pub lookup : Assoc Tx
  pub txx : List Tx

pub record TxPool (Tx : Type 0) : Type 0 where
  pub all : TxSortedMap Tx
  pub pending : TxSortedMap Tx
  pub max_length : ℕ

module _ {Tx : Type 0} where
  pub new_tx_sorted_map : TxSortedMap Tx
  unfolding Lists.new_list
  new_tx_sorted_map = record { lookup = []; txx = Lists.new_list }

  pub new_tx_pool : ℕ → TxPool Tx
  unfolding new_tx_sorted_map
  new_tx_pool n = record { all = new_tx_sorted_map; pending = new_tx_sorted_map; max_length = n }

  -- TxSortedMap.Clear
  pub clear_map : TxSortedMap Tx → TxSortedMap Tx
  unfolding Lists.clear
  clear_map t = record { lookup = []; txx = Lists.clear t.txx }

  pub count : TxSortedMap Tx → ℕ
  count t = length t.lookup

  pub get : TxSortedMap Tx → Bytes → Option Tx
  get t h = lookup h t.lookup

  -- TxSortedMap.Contains
  pub contains_key : TxSortedMap Tx → Bytes → Bool
  contains_key t h = elim (lookup h t.lookup) [ none ↦ false | some _ ↦ true ]

  pub contains : TxPool Tx → Bytes → Bool
  unfolding contains_key
  contains p h = contains_key p.all h

  unfoldable pub pending_txs : TxPool Tx → List Tx
  pending_txs p = p.pending.txx

  pub clear_pending : TxPool Tx → TxPool Tx
  unfolding clear_map
  clear_pending p = record p { pending = clear_map p.pending }

  abbrev pub pending_count : TxPool Tx → ℕ
  unfolding count
  pending_count p = count p.pending

module _ {Tx : Type 0} ⦃e : Eq Tx⦄ (hash : Tx → Bytes) where
  -- `t.lookup[first.Hash()]`, which is nil where the hash is missing.
  pub first : TxSortedMap Tx → Result Error (Option Tx)
  unfolding Lists.get
  first t = do head ← Lists.get t.txx (pos 0); ok (lookup (hash head) t.lookup)

  -- TxSortedMap.Add
  pub add_to_map : TxSortedMap Tx → Tx → TxSortedMap Tx
  unfolding Lists.insert
  add_to_map t tx = elim (lookup (hash tx) t.lookup) [
    | none ↦ record { lookup = insert (hash tx) tx t.lookup; txx = Lists.insert t.txx tx }
    | some _ ↦ t
  ]

  -- A missing key gives the nil pointer to the list's Remove, which is equal to no item.
  pub remove : TxSortedMap Tx → Bytes → Result Error (TxSortedMap Tx)
  remove t h = do
    txx ← elim (lookup h t.lookup) [ none ↦ ok t.txx | some tx ↦ Lists.remove t.txx tx ]
    ok (record { lookup = delete h t.lookup; txx = txx })

  -- The first `if` of Add: a full pool drops its oldest transaction. A nil one panics.
  pub prune : TxPool Tx → Result Error (TxPool Tx)
  unfolding first remove count
  prune p =
      if count p.all == p.max_length
      then (do
        oldest ← first p.all
        all ← elim oldest [ none ↦ panic | some tx ↦ remove p.all (hash tx) ]
        ok (record p { all = all }))
      else ok p

  pub add : TxPool Tx → Tx → Result Error (TxPool Tx)
  add p tx = do
    q ← prune p
    if contains_key q.all (hash tx)
        then ok q
        else ok (record q { all = add_to_map q.all tx; pending = add_to_map q.pending tx })
