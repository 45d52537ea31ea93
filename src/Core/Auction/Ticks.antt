-- ===== src/Core/Auction/Ticks.antt =====
-- core/blockchain.go, processAuctionQueue: the loop of a tick of the clock.
use rfqrelayer.Prelude.{
  ℕ, zero, suc, ◌≤◌, ◌≡◌, refl, ap, ◌∙◌, inl, inr, true, Option, some, List, ◌∷◌, arith, length,
  Bool-cases, List-cases, Bytes,
}
use mathlib.Core.List.{Perm}
use rfqrelayer.Prelude.Int.{ℤ, leb_ℤ}
use rfqrelayer.Rfqdb.Interfaces.{Database, IsKeyValue}
use rfqrelayer.Types.Data.{Quote, TxData}
use rfqrelayer.Types.Items.{Item}
use rfqrelayer.Core.Heap
use rfqrelayer.Core.Heap.{key_at, parent}
use rfqrelayer.Core.Heap.Order.{length-perm}
use rfqrelayer.Core.Heap.Every.{every, every-perm}
use rfqrelayer.Core.Heap.Contract.{pop_lem}
use rfqrelayer.Core.Auction.{
  Auction, Chain, end_time, close_auction, first_ended, round, close_ended, process_auction_queue,
}
use rfqrelayer.Core.Auction.Closing.{close_auction-Closed}
use rfqrelayer.Core.Auction.Rounds.{
  allocated, ended, IsValid, Ticked, stopped, closed-IsValid, more,
}

module _ {S I : Type 0} {d : Database S I} {IsOpen : S → Type 0} {view : S → Bytes → Option Bytes}
    (laws : IsKeyValue d IsOpen view) {encode : Item → Option Bytes}
    (encodes : (x : Item) → (b : Bytes) × (encode x ≡ some b))
    (decode_quotes : Bytes → Option (List Quote)) (hash : TxData → Bytes) where
  round-popped :
      (c : Chain S) (a : Auction) (q : List Auction)
      → Heap.pop (end_time c.objects) c.auction_queue ≡ some (a, q)
      → round d encode decode_quotes hash c
        ≡ close_auction d encode decode_quotes hash a (record c { auction_queue = q })
  unfolding round
  round-popped c a q e = rw (e, round) refl

  -- One round for a first auction that has ended.
  round_ticks :
      (now : ℤ) (c : Chain S) (a : Auction) (l : List Auction)
      → IsValid laws encodes decode_quotes hash c
      → c.auction_queue ≡ a ∷ l
      → ended now c.objects a ≡ true
      → let c1 = round d encode decode_quotes hash c in
        IsValid laws encodes decode_quotes hash c1
        × (length c1.auction_queue ≡ length l)
        × ((c' : Chain S)
            → Ticked laws encodes decode_quotes hash now c1 c'
            → Ticked laws encodes decode_quotes hash now c c')
  round_ticks now c a l valid e over =
      let (q, popped, heap, same, least) = pop_lem (end_time c.objects) a l (rw e at valid.heap) in
      let all : Perm (a ∷ q) c.auction_queue = rw e same in
      let fits : every (allocated c.next) (a ∷ q) ≡ true =
        every-perm (allocated c.next) all ∙ valid.fits in
      let step =
        close_auction-Closed laws encodes decode_quotes hash a (record c { auction_queue = q })
          valid.open_db (ground arith) in
      rw (round-popped c a q (ap (Heap.pop (end_time c.objects)) e ∙ popped)) (
        closed-IsValid laws encodes decode_quotes hash now a q c _ fits step heap,
        ap length step.queue ∙ omega (arith, length-perm same),
        λ c' later.
            more laws encodes decode_quotes hash now a q c _ fits step c' later all
              (every-perm (λ b. leb_ℤ (end_time c.objects a) (end_time c.objects b)) same ∙ least)
              over,
      )

  ticks :
      (fuel : ℕ) (now : ℤ) (c : Chain S)
      → IsValid laws encodes decode_quotes hash c
      → length c.auction_queue ≤ fuel
      → Ticked laws encodes decode_quotes hash now c
          (close_ended d encode decode_quotes hash fuel now c)
  unfolding close_ended
  ticks zero now c valid enough = elim (List-cases c.auction_queue) [
    | inl e ↦ stopped laws encodes decode_quotes hash now c valid (rw e refl)
    | inr (a, l, e) ↦ absurd (ground arith)
  ]
  ticks (suc fuel) now c valid enough = elim (Bool-cases (first_ended now c)) [
    | inl e ↦ elim (List-cases c.auction_queue) [
      | inl none_left ↦ absurd (ground arith)
      | inr (a, l, cons) ↦
          let (valid', size, more) = round_ticks now c a l valid cons (rw cons at e) in
          rw (e, close_ended) (more _ (ticks fuel now _ valid' (ground arith)))
    ]
    | inr e ↦ rw (e, close_ended) (stopped laws encodes decode_quotes hash now c valid e)
  ]

  -- For a queue that is a heap and whose pointers lead to objects, an open key-value database and an
  -- encoder that does not fail, a tick of processAuctionQueue at `now` takes out of the queue just
  -- the auctions whose end time is not after `now`. It closes them in the order of their end times,
  -- with one event for each on EventChan, in this order. A lookup in the map of open auctions under
  -- the hash of one of them finds none, and any other lookup answers as before. The table of closed
  -- auctions gets a row under each of these hashes and no other, and no key outside it changes, so
  -- that the rows in the table of open auctions stay. The queue is left a heap again.
  pub process_auction_queue_lem :
      (now : ℤ) (c : Chain S)
      → IsValid laws encodes decode_quotes hash c
      → Ticked laws encodes decode_quotes hash now c
          (process_auction_queue d encode decode_quotes hash now c)
  unfolding process_auction_queue
  process_auction_queue_lem now c valid = ticks (length c.auction_queue) now c valid (omega arith)
