-- ===== src/Core/Auction/Rounds.antt =====
-- core/blockchain.go, processAuctionQueue: what a tick closes, and how one round adds to it.
use rfqrelayer.Prelude.{
  ℕ, suc, ◌<◌, ◌≡◌, refl, sym, ap, ◌∙◌, ◌⊎◌, inl, inr, Bool, true, false, ◌&&◌, not, Option, none,
  some, List, [], ◌∷◌, ◌++◌, map, arith, ltb, ◌==◌, if◌then◌else◌, Bool-cases, Bytes, has_prefix,
}
use mathlib.Core.List.{Perm, append-nil}
use mathlib.Core.List.Perm
use mathlib.Core.Path.{subst}
use mathlib.Core.List.{append_assoc}
use rfqrelayer.Prelude.Int.{ℤ, leb_ℤ}
use rfqrelayer.Prelude.Assoc.{lookup, member}
use rfqrelayer.Rfqdb.Interfaces.{Database, IsKeyValue}
use rfqrelayer.Types.Data.{RfqData, OpenRfq, Quote, TxData, close, or_zero}
use rfqrelayer.Types.Items.{Item}
use rfqrelayer.Core.Heap.{parent}
use rfqrelayer.Core.Heap.Order.{IsHeap, root_least}
use rfqrelayer.Core.Heap.Every.{
  every, every-agree, every-map, every-append, every-perm, every-imp, every_key, key_at-agree,
  map-agree,
}
use rfqrelayer.Core.Auction.{Auction, Chain, end_time, closed_table, first_ended}
use rfqrelayer.Core.Auction.Closing.{closing, event_of, closed_data, Closed}

-- The tests on an auction that the lemmas pass to `every`.
abbrev pub allocated : ℕ → Auction → Bool
allocated next a = ltb a.at next

abbrev pub ended : ℤ → (ℕ → RfqData) → Auction → Bool
ended now objects a = leb_ℤ (end_time objects a) now

abbrev pub end_of : OpenRfq → ℤ
end_of t = t.body.rfq_end_time

abbrev pub hash_of : OpenRfq → Bytes
hash_of t = t.body.rfq_tx_hash

-- Closed in the order of their end times?
abbrev pub is_ascending : List OpenRfq → Bool
is_ascending [] = true
is_ascending (t ∷ l) = every (λ u. leb_ℤ (end_of t) (end_of u)) l && is_ascending l

-- A heap whose first entry comes after `now` has no entry that does not.
none_before :
    {A : Type 0} (key : A → ℤ) (now : ℤ) (l : List A)
    → IsHeap key l
    → elim l [ [] ↦ false | a ∷ _ ↦ leb_ℤ (key a) now ] ≡ false
    → every (λ a. not (leb_ℤ (key a) now)) l ≡ true
none_before key now [] h e = refl
none_before key now (x ∷ l) h e =
    every-imp (λ a. leb_ℤ (key x) (key a)) (λ a. not (leb_ℤ (key a) now)) (x ∷ l)
      (λ a p. ground arith) (every_key key (key x) (x ∷ l) (λ i p. root_least key (x ∷ l) i h p))

module _ {S I : Type 0} {d : Database S I} {IsOpen : S → Type 0} {view : S → Bytes → Option Bytes}
    (laws : IsKeyValue d IsOpen view) {encode : Item → Option Bytes}
    (encodes : (x : Item) → (b : Bytes) × (encode x ≡ some b))
    (decode_quotes : Bytes → Option (List Quote)) (hash : TxData → Bytes) where
  -- The database is open, the queue is a heap, and its pointers lead to objects.
  pub record IsValid (c : Chain S) : Type 0 where
    pub open_db : IsOpen c.db
    pub heap : IsHeap (end_time c.objects) c.auction_queue
    pub fits : every (allocated c.next) c.auction_queue ≡ true

  -- What a tick at `now` does: it closes `closed`.
  pub record Ticked (now : ℤ) (c c' : Chain S) : Type 0 where
    pub closed : List Auction
    pub valid : IsValid c'
    pub split : Perm (closed ++ c'.auction_queue) c.auction_queue
    pub past : every (ended now c.objects) closed ≡ true
    pub future : every (λ a. not (ended now c.objects a)) c'.auction_queue ≡ true
    pub ascending : is_ascending (map (closing c.objects) closed) ≡ true
    pub events : c'.events ≡ c.events ++ map (event_of hash) (map (closing c.objects) closed)
    pub lookups :
        (j : Bytes)
        → lookup j c'.open_rfqs_map ≡ (
            if member j (map hash_of (map (closing c.objects) closed))
            then none
            else lookup j c.open_rfqs_map)
    pub row : Bytes → Bytes
    pub rows :
        (j : Bytes)
        → view c'.db (closed_table ++ j) ≡ (
            if member j (map hash_of (map (closing c.objects) closed))
            then some (row j)
            else view c.db (closed_table ++ j))
    pub others : (j : Bytes) → (has_prefix j closed_table ≡ true) ⊎ (view c'.db j ≡ view c.db j)

  pub stopped : (now : ℤ) (c : Chain S) → IsValid c → first_ended now c ≡ false → Ticked now c c
  stopped now c valid e = record {
    closed = [];
    valid = valid;
    split = Perm.refl _;
    past = refl;
    future = none_before (end_time c.objects) now c.auction_queue valid.heap e;
    ascending = refl;
    events = sym (append-nil c.events);
    lookups = λ j. refl;
    row = λ j. j;
    rows = λ j. refl;
    others = λ j. inr refl;
  }

  module _ (now : ℤ) (a : Auction) (q : List Auction) (c c1 : Chain S)
      (fits : every (allocated c.next) (a ∷ q) ≡ true)
      (step : Closed laws encodes decode_quotes hash a (record c { auction_queue = q }) c1) where
    -- Closing an auction changes no other object, and of its own only the status.
    same_data : (i : ℕ) → i < c.next → close (c1.objects i) ≡ close (c.objects i)
    same_data i p = elim (Bool-cases (i == a.at)) [
      | inl e ↦
          let at : i ≡ a.at = ground arith in
          let (_, _, _, twice) = closed_data (c.objects a.at) in
          rw (step.objects i p, e) (twice ∙ ap (λ j. close (c.objects j)) (sym at))
      | inr e ↦ rw (step.objects i p, e) refl
    ]

    same_closing :
        (b : Auction) → allocated c.next b ≡ true → closing c1.objects b ≡ closing c.objects b
    same_closing b p =
        ap
          (λ o. record {
            from = b.from;
            body = o;
            v = or_zero b.v;
            r = or_zero b.r;
            s = or_zero b.s;
          })
          (same_data b.at (ground arith))

    same_end :
        (b : Auction) → allocated c.next b ≡ true → end_time c1.objects b ≡ end_time c.objects b
    unfolding close
    same_end b p = ap RfqData.rfq_end_time (same_data b.at (ground arith))

    rest_fits : every (allocated c.next) q ≡ true
    rest_fits = ground arith

    pub closed-IsValid : IsHeap (end_time c.objects) q → IsValid c1
    closed-IsValid h = record {
      open_db = step.open_db;
      heap = rw step.queue (λ i p r.
          rw
            (
              key_at-agree (allocated c.next) _ _ q same_end rest_fits i,
              key_at-agree (allocated c.next) _ _ q same_end rest_fits (parent i),
            )
            (h i p r));
      fits =
          rw (step.queue, step.fresh)
            (every-imp (allocated c.next) (allocated (suc c.next)) q (λ b p. ground arith)
              rest_fits);
    }

    module _ (c' : Chain S) (later : Ticked now c1 c') (all : Perm (a ∷ q) c.auction_queue)
        (least : every (λ b. leb_ℤ (end_time c.objects a) (end_time c.objects b)) (a ∷ q) ≡ true)
        (over : ended now c.objects a ≡ true) where
      split_queue : Perm (later.closed ++ c'.auction_queue) q
      split_queue = subst (λ l. Perm (later.closed ++ c'.auction_queue) l) step.queue later.split

      parts :
          (p : Auction → Bool)
          → every p q ≡ true
          → (every p later.closed ≡ true) × (every p c'.auction_queue ≡ true)
      parts p e =
          let both : (every p later.closed && every p c'.auction_queue) ≡ true =
            sym (every-append p later.closed c'.auction_queue) ∙ every-perm p split_queue ∙ e in
          (ground arith, ground arith)

      same_all : map (closing c1.objects) later.closed ≡ map (closing c.objects) later.closed
      same_all =
          map-agree (allocated c.next) _ _ later.closed same_closing
            (parts (allocated c.next) rest_fits).0

      same_test :
          (l : List Auction) (now' : ℤ)
          → every (allocated c.next) l ≡ true
          → every (ended now' c1.objects) l ≡ every (ended now' c.objects) l
      same_test l now' e =
          every-agree (allocated c.next) _ _ l (λ b p. ap (λ z. leb_ℤ z now') (same_end b p)) e

      first_least :
          every
            (λ u. leb_ℤ (end_of (closing c.objects a)) (end_of u))
            (map (closing c.objects) later.closed)
          ≡ true
      unfolding close
      first_least =
          every-map _ (closing c.objects) later.closed
          ∙ (parts (λ b. leb_ℤ (end_time c.objects a) (end_time c.objects b)) (ground arith)).0

      hash_same : hash_of (closing c.objects a) ≡ (c.objects a.at).rfq_tx_hash
      unfolding close
      hash_same = refl

      pub more : Ticked now c c'
      more =
          let (fits_closed, fits_left) = parts (allocated c.next) rest_fits in
          record {
            closed = a ∷ later.closed;
            valid = later.valid;
            split = Perm.trans (Perm.cons a split_queue) all;
            past = ground (arith, same_test later.closed now fits_closed, later.past);
            future =
                sym (
                  every-agree (allocated c.next) _ _ c'.auction_queue
                    (λ b p. ap (λ z. not (leb_ℤ z now)) (same_end b p)) fits_left)
                ∙ later.future;
            ascending = ground (arith, first_least, later.ascending, same_all);
            events = later.events ∙ rw (same_all, step.events) (append_assoc c.events _ _);
            lookups =
                λ j. ground (arith, rw same_all at (later.lookups j), step.lookups j, hash_same);
            row = λ j.
                if member j (map hash_of (map (closing c1.objects) later.closed))
                then later.row j
                else step.bytes;
            rows = λ j. ground (
              arith,
              later.rows j,
              ap (member j) (ap (map hash_of) same_all),
              step.rows j,
              hash_same,
            );
            others = λ j. elim (Bool-cases (has_prefix j closed_table)) [
              | inl e ↦ inl e
              | inr e ↦ ground (arith, later.others j, step.others j e)
            ];
          }
