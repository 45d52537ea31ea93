-- ===== src/Core/Auction/Quoting.antt =====
-- core/blockchain.go: the way of a quote that UpdateActiveRFQ appends, through the map of open
-- auctions, to the event that closes its auction, which the queue leads to.
use rfqrelayer.Prelude.{
  ℕ, ◌≡◌, ◌≢◌, refl, sym, ◌∙◌, true, not, Option, none, some, List, [], ◌∷◌, ◌++◌, map, arith,
  Bytes,
}
use mathlib.Core.List.{Mem, Mem-prop, mem-append, mem-map_of_mem}
use mathlib.Core.List.Perm
use mathlib.Core.Logic.Or
use rfqrelayer.Prelude.Int.{ℤ}
use rfqrelayer.Prelude.Assoc.{lookup}
use rfqrelayer.Rfqdb.Interfaces.{Database, IsKeyValue}
use rfqrelayer.Types.Data.{RfqData, OpenRfq, Quote, TxData, close}
use rfqrelayer.Types.Items.{Item}
use rfqrelayer.Core.Heap.Every.{every-mem}
use rfqrelayer.Core.Auction.{Auction, TxEvent, Chain, process_auction_queue, update_active_rfq}
use rfqrelayer.Core.Auction.Closing.{closing, event_of}
use rfqrelayer.Core.Auction.Rounds.{IsValid, Ticked, ended}
use rfqrelayer.Core.Auction.Ticks.{process_auction_queue_lem}
use rfqrelayer.Core.Auction.Opening.{quoted, quoted-IsValid, update_active_rfq-found}

-- Data with one more quote.
abbrev pub with_quote : Quote → RfqData → RfqData
with_quote q o = record o { quotes = o.quotes ++ q ∷ [] }

-- The auction as it closes after a quote.
abbrev pub closing_with : (ℕ → RfqData) → Auction → Quote → OpenRfq
closing_with objects a q = record (closing objects a) { body = close (with_quote q (objects a.at)) }

module _ {S I : Type 0} {d : Database S I} {IsOpen : S → Type 0} {view : S → Bytes → Option Bytes}
    (laws : IsKeyValue d IsOpen view) {encode : Item → Option Bytes}
    (encodes : (x : Item) → (b : Bytes) × (encode x ≡ some b))
    (decode_quotes : Bytes → Option (List Quote)) (hash : TxData → Bytes) where
  -- A tick closes every auction of the queue that has ended.
  ticked-mem :
      (now : ℤ) (c c' : Chain S) (a : Auction) (t : Ticked laws encodes decode_quotes hash now c c')
      → Mem a c.auction_queue
      → ended now c.objects a ≡ true
      → Mem a t.closed
  ticked-mem now c c' a t m over =
      Or.elim Mem-prop (mem-append.0 ((Perm.mem_iff t.split).1 m)) (λ here. here)
        (λ left. absurd (
          let early = every-mem (λ b. not (ended now c.objects b)) left t.future in ground (arith)))

  closing-quoted :
      (c : Chain S) (a : Auction) (q : Quote)
      → closing (quoted a q c).objects a ≡ closing_with c.objects a q
  closing-quoted c a q = ground arith

  ended-quoted :
      (now : ℤ) (c : Chain S) (a : Auction) (q : Quote)
      → ended now (quoted a q c).objects a ≡ ended now c.objects a
  ended-quoted now c a q = ground arith

  quoted_object :
      (c : Chain S) (a : Auction) (q : Quote)
      → (quoted a q c).objects a.at ≡ with_quote q (c.objects a.at)
  quoted_object c a q = ground arith

  quoted_others :
      (c : Chain S) (a : Auction) (q : Quote) (i : ℕ)
      → i ≢ a.at
      → (quoted a q c).objects i ≡ c.objects i
  quoted_others c a q i n = ground arith

  -- On a valid chain, UpdateActiveRFQ of a hash under which the map of open auctions has an auction that
  -- is in the queue too returns no error. The data that this auction points to get the quote as their
  -- last one and keep all else. No other object and nothing else of the chain changes, and it stays
  -- valid. If the auction has ended at `now`, the next tick then sends an event with this data,
  -- closed.
  pub update_active_rfq-process_auction_queue :
      (now : ℤ) (h : Bytes) (q : Quote) (c : Chain S) (a : Auction)
      → IsValid laws encodes decode_quotes hash c
      → lookup h c.open_rfqs_map ≡ some a
      → Mem a c.auction_queue
      → ended now c.objects a ≡ true
      → let r = update_active_rfq h q c in
        let after = process_auction_queue d encode decode_quotes hash now r.0 in
        (r.1 ≡ none)
        × (r.0.objects a.at ≡ with_quote q (c.objects a.at))
        × ((i : ℕ) → i ≢ a.at → r.0.objects i ≡ c.objects i)
        × (r.0 ≡ record c { objects = r.0.objects })
        × IsValid laws encodes decode_quotes hash r.0
        × ((sent : List TxEvent) × (after.events ≡ c.events ++ sent)
            × Mem (event_of hash (closing_with c.objects a q)) sent)
  update_active_rfq-process_auction_queue now h q c a valid e m over =
      let c1 = quoted a q c in
      let valid' = quoted-IsValid laws encodes decode_quotes hash a q c valid in
      let t = process_auction_queue_lem laws encodes decode_quotes hash now c1 valid' in
      let closes = ticked-mem now c1 _ a t m (ended-quoted now c a q ∙ over) in
      rw (update_active_rfq-found h q c a e) (
        refl,
        quoted_object c a q,
        quoted_others c a q,
        refl,
        valid',
        (
          map (event_of hash) (map (closing c1.objects) t.closed),
          t.events,
          rw (sym (closing-quoted c a q))
              (mem-map_of_mem (event_of hash) (mem-map_of_mem (closing c1.objects) closes)),
        ),
      )
