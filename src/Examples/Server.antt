-- ===== src/Examples/Server.antt =====
-- The handlers of a node at concrete inputs.
use rfqrelayer.Prelude.{
  ◌⊎◌, panic, ℕ, ◌≡◌, refl, ap, true, false, none, some, [], ◌∷◌, ◌++◌, map, arith, length, take,
  drop, replicate, ok, err, drop-append_length, Bytes,
}
use native.Mathlib.Decide.{ℕ_discrete}
use rfqrelayer.Prelude.Eq.{discrete_Eq}
use rfqrelayer.Prelude.Assoc.{lookup}
use rfqrelayer.Rfqdb.Memorydb.{Store, Iterator}
use rfqrelayer.Rfqdb.Memorydb.Contract.{memory_database}
use rfqrelayer.Types.Data.{Transaction}
use rfqrelayer.Types.Block.{Block, raw}
use rfqrelayer.Core.Chain.{Ledger, ChainError}
use rfqrelayer.Network.TxPool.{TxPool}
use rfqrelayer.Network.TxPool.SortedMap.{entry}
use rfqrelayer.Network.TxPool.Fifo.{IsValid}
use rfqrelayer.Core.Chain.{add_block_without_validation}
use rfqrelayer.Rfqdb.Memorydb.{writer}
use rfqrelayer.Network.Node.{broadcast, send_all, send}
use rfqrelayer.Network.Rpc.{
  Codec, Message, tx_payload, decode_rpc, new_message, tx_message, block_message, bad_block,
}
use rfqrelayer.Network.Node.{
  Node, Externals, delivered, done, panics, waits, broadcast_tx, broadcast_block, request_blocks,
}
use rfqrelayer.Network.Server.{
  process_message, process_status, wanted_blocks, run_task, process_get_status,
}
use rfqrelayer.Network.Server.Sound.{IsSound, After}
use rfqrelayer.Network.Server.Sound.Answers.{Unreadable}
use rfqrelayer.Network.Server.Sound.Reach.{start, later, run, Leaves, Reach-After}
use rfqrelayer.Network.Server.Sync.{answer_of}
use rfqrelayer.Network.Server.Waiting.{
  wanted_blocks-process_status, broadcast_block_waits, decode_rpc-broadcast,
}
use rfqrelayer.Examples.Blocks.{
  keccak, tx_hash, verify_signature, valid_values, header_hash, encode_header, encode_body,
  decode_body, ledger, ledger-IsLinked, genesis_header, next_block, tx_of,
}

Transaction-discrete : Discrete Transaction
Transaction-discrete = hlevel ℕ_discrete

abbrev genesis_block : Block
genesis_block = record { header = genesis_header; transactions = []; validator = [] }

-- Messages are framed by their type, and of an answer the validator of a first block is sent.
abbrev codec : Codec
codec = record {
  encode_message = λ m. m.header ∷ length m.payload ∷ (m.payload ++ m.id);
  decode_message = λ b. elim b [
    | [] ↦ none
    | h ∷ r ↦ elim r [
      | [] ↦ none
      | l ∷ rest ↦ some (record { header = h; payload = take l rest; id = drop l rest })
    ]
  ];
  encode_status = λ m. m.current_length ∷ m.id;
  decode_status = λ b. none;
  encode_get_blocks = λ m. m.from_block ∷ m.to_block ∷ [];
  decode_get_blocks = λ b. none;
  encode_blocks = λ fs. elim fs [
    | [] ↦ none
    | f ∷ _ ↦ elim f.block [ none ↦ none | some b ↦ some b.validator ]
  ];
  decode_blocks = λ b. some (answer_of (record genesis_block { validator = b } ∷ []));
  decode_block = λ b. elim b [ [] ↦ none | _ ∷ _ ↦ some (raw next_block) ];
}

abbrev externals : Externals Store Iterator
externals = record {
  database = memory_database;
  codec = codec;
  keccak = keccak;
  tx_hash = tx_hash;
  header_hash = header_hash;
  verify_signature = verify_signature;
  valid_values = valid_values;
  recover = λ digest v r s. some (replicate 20 1);
  encode_header = encode_header;
  encode_body = encode_body;
  decode_header = λ b. some genesis_header;
  decode_body = decode_body;
  sign = λ digest. some (replicate 65 1);
  public_key = 7 ∷ [];
  delivers = λ peer m. delivered;
  same_tx = discrete_Eq Transaction-discrete;
}

-- One transaction, pending.
abbrev pool : TxPool Transaction
pool = record {
  all = record { lookup = map (entry tx_hash) (tx_of 1 ∷ []); txx = tx_of 1 ∷ [] };
  pending = record { lookup = map (entry tx_hash) (tx_of 1 ∷ []); txx = tx_of 1 ∷ [] };
  max_length = 10;
}

pool-IsValid : IsValid tx_hash pool
pool-IsValid = record {
  all_synced = record { entries = refl; distinct = (refl, tt) };
  pending_synced = record { entries = refl; distinct = (refl, tt) };
  bounded = omega arith;
  roomy = omega arith;
}

abbrev node : Node Store
node = record {
  id = b'a' ∷ [];
  mem_pool = pool;
  chain = ledger;
  chain_readers = 0;
  peers = (1 ∷ []) ∷ (2 ∷ []) ∷ [];
  mu = record { locked = false; readers = 0 };
  is_validator = true;
  events = [];
  tasks = broadcast_tx (tx_of 1) ∷ [];
  sent = [];
}

node-IsSound : IsSound externals node
node-IsSound = record {
  pool = pool-IsValid;
  linked = ledger-IsLinked;
  nonempty = omega arith;
  validating = refl;
}

-- The broadcast of a transaction has run.
abbrev broadcasted : Node Store
broadcasted = record node {
  tasks = [];
  sent =
      (1 ∷ [], new_message tx_message [] (b'a' ∷ []))
      ∷ (2 ∷ [], new_message tx_message [] (b'a' ∷ []))
      ∷ [];
}

broadcast_step :
    Leaves (run_task externals (broadcast_tx (tx_of 1)) (record node { tasks = [] })) broadcasted
unfolding run_task broadcast send_all send
broadcast_step = refl

Reach-After_example : After externals node broadcasted
Reach-After_example =
    Reach-After externals (later start (run [] (broadcast_tx (tx_of 1)) [] refl broadcast_step))
      node-IsSound

broadcast_block_waits_example :
    (n' : Node Store) × (run_task externals (broadcast_block (raw next_block)) node ≡ waits n')
    × (n'.chain ≡ node.chain)
    × (process_get_status externals (1 ∷ []) n' ≡ waits n')
    × (run_task externals (broadcast_tx (tx_of 1)) n' ≡ waits n')
    × (run_task externals (broadcast_block (raw next_block)) n' ≡ waits n')
broadcast_block_waits_example =
    broadcast_block_waits externals (raw next_block) (raw next_block) (tx_of 1) (1 ∷ []) node refl
      refl

take_back : (xs ys : Bytes) → take (length xs) (xs ++ ys) ≡ xs
take_back [] ys = refl
take_back (y ∷ xs) ys = ap (λ l. y ∷ l) (take_back xs ys)

codec_back : (m : Message) → codec.decode_message (codec.encode_message m) ≡ some m
codec_back m = rw (take_back m.payload m.id, drop-append_length m.payload m.id) refl

decode_rpc-broadcast_example :
    (decode_rpc codec (codec.encode_message (new_message tx_message [] (b'b' ∷ [])))
      ≡ ok (tx_payload none))
    × (process_message externals (1 ∷ []) (tx_payload none) node ≡ panics)
    × (decode_rpc codec (codec.encode_message (new_message block_message [] (b'b' ∷ [])))
        ≡ err bad_block)
decode_rpc-broadcast_example =
    decode_rpc-broadcast externals (1 ∷ []) (b'b' ∷ []) node codec_back refl

abbrev light_node : Node Store
light_node = record node {
  chain = record ledger { headers = []; validating = false };
  is_validator = false;
  tasks = [];
}

wanted_blocks-process_status_example :
    (process_status externals (1 ∷ []) (record { id = b'a' ∷ []; current_length = 1 }) light_node
      ≡ done (record light_node { tasks = request_blocks (1 ∷ []) 1 0 ∷ [] }) none)
    × (((e : ChainError) × (r : ℕ) × (wanted_blocks externals
              (record { from_block = 1; to_block = 0 })
              ledger
              0
            ≡ (err e, r)))
        ⊎ ((r : ℕ) × Unreadable externals ledger
            × (wanted_blocks externals (record { from_block = 1; to_block = 0 }) ledger 0
                ≡ (panic, r))))
wanted_blocks-process_status_example =
    wanted_blocks-process_status externals (1 ∷ []) light_node node refl (omega arith)

-- A chain with its first block in the database.
abbrev served : Ledger Store
served =
    add_block_without_validation tx_hash valid_values externals.recover writer keccak
      verify_signature header_hash encode_header encode_body genesis_block light_node.chain
