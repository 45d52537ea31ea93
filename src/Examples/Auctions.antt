-- ===== src/Examples/Auctions.antt =====
-- The auctions of a chain over the in-memory store at concrete inputs.
use rfqrelayer.Prelude.{
  ℕ, zero, suc, ◌*◌, ◌≡◌, refl, true, Option, none, some, List, [], ◌∷◌, ◌++◌, map, arith,
  replicate, Bytes, bytes_eq, ◌≢◌,
}
use mathlib.Core.List.{Perm}
use rfqrelayer.Prelude.Int.{pos, leb_ℤ}
use rfqrelayer.Prelude.Assoc.{lookup}
use rfqrelayer.Rfqdb.Memorydb.{Store}
use rfqrelayer.Rfqdb.Memorydb.Contract.{memory_database, memory_database-IsKeyValue}
use rfqrelayer.Types.Data.{SignableData, RfqData, Quote, TxData, status_open}
use rfqrelayer.Types.Items.{Item}
use rfqrelayer.Core.Heap
use rfqrelayer.Core.Heap.{key_at}
use rfqrelayer.Core.Heap.Order.{IsHeap}
use rfqrelayer.Core.Heap.Every.{every}
use rfqrelayer.Core.Heap.Contract.{pop_lem}
use rfqrelayer.Core.Auction.{
  Auction, open_rfq_tx, Chain, end_time, write_rfq_txs, process_auction_queue, update_active_rfq,
}
use rfqrelayer.Core.Auction.Rounds.{IsValid, Ticked}
use rfqrelayer.Core.Auction.Ticks.{process_auction_queue_lem}
use rfqrelayer.Core.Auction.Opening.{Opened, write_rfq_txs-Opened}
use rfqrelayer.Core.Auction.Quoting.{
  with_quote, closing_with, update_active_rfq-process_auction_queue,
}
use rfqrelayer.Core.Auction.Closing.{event_of}
use rfqrelayer.Core.Auction.{TxEvent}
use mathlib.Core.List.{Mem, Memᴰ}

-- An encoder that writes nothing, with no error.
abbrev pub encode : Item → Option Bytes
encode x = some []

pub encodes : (x : Item) → (b : Bytes) × (encode x ≡ some b)
encodes x = ([], refl)

abbrev pub decode_quotes : Bytes → Option (List Quote)
decode_quotes b = some []

abbrev pub hash : TxData → Bytes
hash t = replicate 32 0

abbrev pub bare_request : SignableData
bare_request = record {
  requestor_id = b'1' ∷ [];
  base_token_amount = none;
  base_token = none;
  quote_token = none;
  rfq_duration_ms = 5;
}

-- The data at address `i` is that of an auction that ends at `10 * i`.
abbrev data_at : ℕ → RfqData
data_at i = record {
  rfq_tx_hash = replicate 32 i;
  rfq_request = bare_request;
  rfq_start_time = pos 0;
  rfq_end_time = pos (10 * i);
  quotes = [];
  settlement_contract = [];
  matching_contract = [];
  status = status_open;
}

abbrev pub auction_at : ℕ → Auction
auction_at i = record { from = []; at = i; v = none; r = none; s = none }

-- Auctions that end at 10, 30 and 20.
abbrev queue : List Auction
queue = auction_at 1 ∷ auction_at 3 ∷ auction_at 2 ∷ []

abbrev pub chain : Chain Store
chain = record {
  objects = data_at;
  next = 5;
  open_rfqs = queue;
  open_rfqs_map = map (λ a. (replicate 32 a.at, a)) queue;
  closed_rfqs = [];
  auction_queue = queue;
  db = record { db = some [] };
  events = [];
}

queue-IsHeap : IsHeap (end_time data_at) queue
queue-IsHeap zero p q = absurd (omega arith)
queue-IsHeap (suc zero) p q = omega arith
queue-IsHeap (suc (suc zero)) p q = omega arith
queue-IsHeap (suc (suc (suc i))) p q = absurd (omega arith)

pub chain-IsValid :
    IsValid memory_database-IsKeyValue {encode = encode} encodes decode_quotes hash chain
chain-IsValid = record { open_db = λ e. cc; heap = queue-IsHeap; fits = refl }

process_auction_queue_lem_example :
    Ticked memory_database-IsKeyValue {encode = encode} encodes decode_quotes hash
      (pos 20)
      chain
      (process_auction_queue memory_database encode decode_quotes hash (pos 20) chain)
process_auction_queue_lem_example =
    process_auction_queue_lem memory_database-IsKeyValue {encode = encode} encodes decode_quotes
      hash (pos 20) chain chain-IsValid

write_rfq_txs-Opened_example :
    ((write_rfq_txs memory_database encode decode_quotes hash (open_rfq_tx (auction_at 4)) chain).1
      ≡ none)
    × Opened memory_database-IsKeyValue {encode = encode} encodes decode_quotes hash
        (auction_at 4)
        chain
        (write_rfq_txs memory_database encode decode_quotes hash
          (open_rfq_tx (auction_at 4))
          chain).0
write_rfq_txs-Opened_example =
    write_rfq_txs-Opened memory_database-IsKeyValue {encode = encode} encodes decode_quotes hash
      (auction_at 4) chain chain-IsValid (omega arith) refl

abbrev pub small_quote : Quote
small_quote = record {
  from = [];
  body = record {
    quoter_id = [];
    rfq_tx_hash = replicate 32 2;
    quote_expiry_time = 7;
    base_token = none;
    quote_token = none;
    base_token_amount = none;
    bid_price = none;
    ask_price = none;
    encryption_public_keys = [];
  };
  v = none;
  r = none;
  s = none;
}

update_active_rfq-process_auction_queue_example :
    let r = update_active_rfq (replicate 32 2) small_quote chain in
    let after = process_auction_queue memory_database encode decode_quotes hash (pos 20) r.0 in
    (r.1 ≡ none)
    × (r.0.objects 2 ≡ with_quote small_quote (chain.objects 2))
    × ((i : ℕ) → i ≢ 2 → r.0.objects i ≡ chain.objects i)
    × (r.0 ≡ record chain { objects = r.0.objects })
    × IsValid memory_database-IsKeyValue {encode = encode} encodes decode_quotes hash r.0
    × ((sent : List TxEvent) × (after.events ≡ chain.events ++ sent)
        × Mem (event_of hash (closing_with chain.objects (auction_at 2) small_quote)) sent)
unfolding lookup bytes_eq
update_active_rfq-process_auction_queue_example =
    update_active_rfq-process_auction_queue memory_database-IsKeyValue {encode = encode} encodes
      decode_quotes hash (pos 20) (replicate 32 2) small_quote chain (auction_at 2) chain-IsValid
      refl ∣ Memᴰ.tail (Memᴰ.tail (Memᴰ.head refl)) ∣₁ refl

pop_lem_example :
    (r : List Auction) × (Heap.pop (end_time data_at) queue ≡ some (auction_at 1, r))
    × IsHeap (end_time data_at) r
    × Perm (auction_at 1 ∷ r) queue
    × (every (λ a. leb_ℤ (end_time data_at (auction_at 1)) (end_time data_at a)) queue ≡ true)
pop_lem_example =
    pop_lem (end_time data_at) (auction_at 1) (auction_at 3 ∷ auction_at 2 ∷ []) queue-IsHeap
