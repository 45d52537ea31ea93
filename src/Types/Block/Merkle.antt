-- ===== src/Types/Block/Merkle.antt =====
-- core/types/block.go, MerkleRoot: its loop and its padding.
use rfqrelayer.Prelude.{
  ℕ, zero, suc, ◌+◌, ◌-◌, ◌/◌, ◌%◌, ◌≤◌, ◌<◌, ◌≡◌, refl, sym, ap, ◌∙◌, Bool, true, some, List, [],
  ◌∷◌, ◌++◌, map, arith, ltb, length, get_elem?, length-append, length-map, get_elem?-append_length,
  Bytes,
}
use mathlib.Core.List.{append_assoc, map-append}
use rfqrelayer.Types.Data.{Transaction}
use rfqrelayer.Types.Block.{pad, pair_hashes, levels, root_of, merkle_root}

module _ (keccak : Bytes → Bytes) where
  abbrev step : List Bytes → List Bytes
  step hs = pair_hashes keccak (pad hs)

  length-pair_hashes : (hs : List Bytes) → length (pair_hashes keccak hs) ≡ length hs / 2
  unfolding pair_hashes
  length-pair_hashes [] = omega arith
  length-pair_hashes (x ∷ []) = omega arith
  length-pair_hashes (x ∷ y ∷ hs) = omega (arith, length-pair_hashes hs)

  -- There is a last entry.
  last_entry :
      (hs : List Bytes) → 0 < length hs → (h : Bytes) × (get_elem? hs (length hs - 1) ≡ some h)
  last_entry [] p = absurd (omega arith)
  last_entry (x ∷ []) p = (x, refl)
  last_entry (x ∷ y ∷ hs) p =
      let at : length (x ∷ y ∷ hs) - 1 ≡ suc (length (y ∷ hs) - 1) = omega arith in
      rw at (last_entry (y ∷ hs) (omega arith))

  length-pad : (hs : List Bytes) → 0 < length hs → length (pad hs) ≡ length hs + length hs % 2
  unfolding pad
  length-pad hs p = let (h, e) = last_entry hs p in ground (arith, e, length-append hs (h ∷ []))

  length-step :
      (hs : List Bytes) → 1 < length hs → (0 < length (step hs)) × (length (step hs) < length hs)
  length-step hs p =
      let size = length-pair_hashes (pad hs) in
      let padded = length-pad hs (omega arith) in
      (omega (arith, size, padded), omega (arith, size, padded))

  longer : (hs : List Bytes) → ltb 1 (suc (suc (length hs))) ≡ true
  longer hs = ground arith

  levels-one :
      (fuel : ℕ) (hs : List Bytes)
      → 0 < length hs
      → length hs ≤ fuel
      → (h : Bytes) × (levels keccak fuel hs ≡ h ∷ [])
  unfolding levels
  levels-one zero hs p q = absurd (omega arith)
  levels-one (suc fuel) [] p q = absurd (omega arith)
  levels-one (suc fuel) (x ∷ []) p q = (x, refl)
  levels-one (suc fuel) (x ∷ y ∷ hs) p q =
      let (some_left, fewer) = length-step (x ∷ y ∷ hs) (omega arith) in
      rw (longer hs) (levels-one fuel (step (x ∷ y ∷ hs)) some_left (omega arith))

  levels-enough :
      (f g : ℕ) (hs : List Bytes)
      → length hs ≤ f
      → length hs ≤ g
      → levels keccak f hs ≡ levels keccak g hs
  unfolding levels
  levels-enough zero zero hs p q = refl
  levels-enough zero (suc g) [] p q = refl
  levels-enough zero (suc g) (x ∷ hs) p q = absurd (omega arith)
  levels-enough (suc f) zero [] p q = refl
  levels-enough (suc f) zero (x ∷ hs) p q = absurd (omega arith)
  levels-enough (suc f) (suc g) [] p q = refl
  levels-enough (suc f) (suc g) (x ∷ []) p q = refl
  levels-enough (suc f) (suc g) (x ∷ y ∷ hs) p q =
      let (some_left, fewer) = length-step (x ∷ y ∷ hs) (omega arith) in
      rw (longer hs) (levels-enough f g (step (x ∷ y ∷ hs)) (omega arith) (omega arith))

  -- A level that ends in the same hash twice pads as the level without the second.
  pad-twice :
      (hs : List Bytes) (h : Bytes)
      → length hs % 2 ≡ 0
      → pad (hs ++ h ∷ h ∷ []) ≡ pad (hs ++ h ∷ [])
  unfolding pad
  pad-twice hs h even =
      let one = length-append hs (h ∷ []) in
      let two = length-append hs (h ∷ h ∷ []) in
      let at : get_elem? (hs ++ h ∷ []) (length (hs ++ h ∷ []) - 1) ≡ some h =
        let last_at : length (hs ++ h ∷ []) - 1 ≡ length hs = omega (arith, one) in
        rw last_at (get_elem?-append_length hs h) in
      ground (arith, one, two, at, append_assoc hs (h ∷ []) (h ∷ []))

  levels-pad :
      (fuel : ℕ) (l m : List Bytes)
      → 1 < length l
      → 1 < length m
      → pad l ≡ pad m
      → levels keccak (suc fuel) l ≡ levels keccak (suc fuel) m
  unfolding levels
  levels-pad fuel l m p q e =
      let long : ltb 1 (length l) ≡ true = ground arith in
      let long' : ltb 1 (length m) ≡ true = ground arith in
      rw (long, long') (ap (λ hs. levels keccak fuel (pair_hashes keccak hs)) e)

  root_of_one :
      (hs : List Bytes) (h : Bytes)
      → 0 < length hs
      → levels keccak (length hs) hs ≡ h ∷ []
      → root_of keccak hs ≡ h
  unfolding root_of
  root_of_one [] h p e = absurd (omega arith)
  root_of_one (x ∷ hs) h p e = ap (λ (r : List Bytes). elim r [ [] ↦ [] | r' ∷ _ ↦ r' ]) e

  root_of_twice :
      (hs : List Bytes) (h : Bytes)
      → 0 < length hs
      → length hs % 2 ≡ 0
      → root_of keccak (hs ++ h ∷ h ∷ []) ≡ root_of keccak (hs ++ h ∷ [])
  unfolding root_of
  root_of_twice [] h p even = absurd (omega arith)
  root_of_twice (x ∷ hs) h p even =
      let l = x ∷ (hs ++ h ∷ h ∷ []) in
      let m = x ∷ (hs ++ h ∷ []) in
      let l_size = length-append hs (h ∷ h ∷ []) in
      let m_size = length-append hs (h ∷ []) in
      let fuel = length (hs ++ h ∷ h ∷ []) in
      let same : levels keccak (length l) l ≡ levels keccak (length m) m =
        levels-pad fuel l m (omega (arith, l_size)) (omega (arith, m_size))
          (pad-twice (x ∷ hs) h even)
        ∙ levels-enough (suc fuel) (length m) m (omega (arith, l_size, m_size)) (omega arith) in
      ap (λ (r : List Bytes). elim r [ [] ↦ [] | r' ∷ _ ↦ r' ]) same

module _ (keccak : Bytes → Bytes) (tx_hash : Transaction → Bytes)
    (verify_signature : Bytes → Bytes → Bytes → Bool) where
  -- The loop of MerkleRoot ends: as many rounds as there are transactions leave one hash, which is the
  -- root, and more rounds change nothing.
  pub merkle_root_ends :
      (fuel : ℕ) (txs : List Transaction)
      → 0 < length txs
      → length txs ≤ fuel
      → levels keccak fuel (map tx_hash txs) ≡ merkle_root keccak tx_hash verify_signature txs ∷ []
  unfolding merkle_root
  merkle_root_ends fuel [] p q = absurd (omega arith)
  merkle_root_ends fuel (t ∷ txs) p q =
      let hs = map tx_hash (t ∷ txs) in
      let size : length hs ≡ length (t ∷ txs) = length-map (t ∷ txs) tx_hash in
      let (h, e) = levels-one keccak (length hs) hs (omega arith) (omega arith) in
      let same = levels-enough keccak fuel (length hs) hs (omega (arith, size)) (omega arith) in
      same ∙ e ∙ ap (λ r. r ∷ []) (sym (root_of_one keccak hs h (omega arith) e))

  -- An odd number of transactions, more than one, and the same with the last one twice have one
  -- Merkle root.
  pub merkle_root_collides :
      (txs : List Transaction) (t : Transaction)
      → 0 < length txs
      → length txs % 2 ≡ 0
      → merkle_root keccak tx_hash verify_signature (txs ++ t ∷ t ∷ [])
        ≡ merkle_root keccak tx_hash verify_signature (txs ++ t ∷ [])
  unfolding merkle_root
  merkle_root_collides txs t p even =
      let size = length-map txs tx_hash in
      rw (map-append tx_hash txs (t ∷ t ∷ []), map-append tx_hash txs (t ∷ []))
        (root_of_twice keccak (map tx_hash txs) (tx_hash t) (omega (arith, size)) (rw size even))
