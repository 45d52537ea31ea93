-- ===== src/Examples/Pool.antt =====
-- The transaction pool and its lists at concrete inputs.
use rfqrelayer.Prelude.{
  ◌≡◌, refl, ◌⊎◌, false, List, [], ◌∷◌, ◌++◌, map, arith, ok, Bytes, bytes_eq, bytes_eq_iff,
}
use rfqrelayer.Prelude.Eq.{Eq}
use rfqrelayer.Common.Lists.{remove, contains}
use rfqrelayer.Common.Lists.First.{remove_first}
use rfqrelayer.Network.TxPool.{TxPool, new_tx_pool, add}
use rfqrelayer.Network.TxPool.SortedMap.{entry}
use rfqrelayer.Network.TxPool.Fifo.{IsValid, Added, add-Added}
use rfqrelayer.Network.TxPool.Window.{add_all, new_tx_pool_window}

abbrev bytes_Eq : Eq Bytes
bytes_Eq = record { beq = bytes_eq; beq_iff = bytes_eq_iff }

-- Transactions that are their own hashes.
abbrev tx_hash : Bytes → Bytes
tx_hash t = t

abbrev first_tx : Bytes
first_tx = 1 ∷ []

abbrev second_tx : Bytes
second_tx = 2 ∷ []

abbrev third_tx : Bytes
third_tx = 3 ∷ []

-- A full pool of two.
abbrev full_pool : TxPool Bytes
full_pool = record {
  all = record {
    lookup = map (entry tx_hash) (first_tx ∷ second_tx ∷ []);
    txx = first_tx ∷ second_tx ∷ [];
  };
  pending = record { lookup = map (entry tx_hash) (second_tx ∷ []); txx = second_tx ∷ [] };
  max_length = 2;
}

full_pool-IsValid : IsValid tx_hash full_pool
unfolding bytes_eq
full_pool-IsValid = record {
  all_synced = record { entries = refl; distinct = (refl, (refl, tt)) };
  pending_synced = record { entries = refl; distinct = (refl, tt) };
  bounded = omega arith;
  roomy = omega arith;
}

add-Added_example :
    (q : TxPool Bytes) × (add ⦃e = bytes_Eq⦄ tx_hash full_pool third_tx ≡ ok q)
    × Added tx_hash full_pool third_tx q
add-Added_example = add-Added tx_hash ⦃e = bytes_Eq⦄ full_pool third_tx full_pool-IsValid

abbrev run_of_three : List Bytes
run_of_three = first_tx ∷ second_tx ∷ third_tx ∷ []

new_tx_pool_window_example :
    (q : TxPool Bytes) × (add_all tx_hash ⦃e = bytes_Eq⦄ (new_tx_pool 2) run_of_three ≡ ok q)
    × (q.all.txx ≡ second_tx ∷ third_tx ∷ [])
    × (q.pending.txx ≡ run_of_three)
unfolding bytes_eq
new_tx_pool_window_example =
    new_tx_pool_window tx_hash ⦃e = bytes_Eq⦄ 2 run_of_three (omega arith)
      (refl, (refl, (refl, tt)))

remove_first_example :
    ((contains ⦃e = bytes_Eq⦄ run_of_three second_tx ≡ false)
      × (remove ⦃e = bytes_Eq⦄ run_of_three second_tx ≡ ok run_of_three))
    ⊎ ((a : List Bytes) × (b : List Bytes) × (run_of_three ≡ a ++ second_tx ∷ b)
        × (contains ⦃e = bytes_Eq⦄ a second_tx ≡ false)
        × (remove ⦃e = bytes_Eq⦄ run_of_three second_tx ≡ ok (a ++ b)))
remove_first_example = remove_first ⦃e = bytes_Eq⦄ run_of_three second_tx
