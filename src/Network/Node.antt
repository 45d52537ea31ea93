-- ===== src/Network/Node.antt =====
-- network/server.go: the state of a node, its lock, and how it sends to its peers. A peer is known by
-- its address; `sent` lists the messages that went out, and `tasks` the goroutines that were started
-- and still run.
use rfqrelayer.Prelude.{
  ℕ, suc, ◌-◌, Bool, true, false, ◌||◌, not, Option, none, some, List, [], ◌∷◌, ◌++◌, ◌==◌,
  if◌then◌else◌, Bytes, bytes_eq,
}
use rfqrelayer.Prelude.Eq.{Eq}
use rfqrelayer.Rfqdb.Interfaces.{Database}
use rfqrelayer.Types.Data.{Transaction}
use rfqrelayer.Types.Block.{Header, Body, RawBlock}
use rfqrelayer.Core.Auction.{TxEvent}
use rfqrelayer.Core.Chain.{Ledger, ChainError, TxError}
use rfqrelayer.Network.TxPool.{TxPool}
use rfqrelayer.Network.Rpc.{Message, Codec}

-- sync.RWMutex
pub record RwMutex : Type 0 where
  pub locked : Bool
  pub readers : ℕ

-- Lock and RLock; `none` where the call waits.
abbrev pub lock : RwMutex → Option RwMutex
lock m = if m.locked || not (m.readers == 0) then none else some (record m { locked = true })

abbrev pub r_lock : RwMutex → Option RwMutex
r_lock m = if m.locked then none else some (record m { readers = suc m.readers })

abbrev pub unlock : RwMutex → RwMutex
unlock m = record m { locked = false }

-- `n` calls of RUnlock.
abbrev pub r_unlock : ℕ → RwMutex → RwMutex
r_unlock n m = record m { readers = m.readers - n }

-- The goroutines. The last one holds the lock for reading once for each of its rounds.
pub data Task : Type 0 where
  broadcast_tx : Transaction → Task
  broadcast_block : RawBlock → Task
  request_blocks : Bytes → ℕ → ℕ → Task

-- Server
pub record Node (S : Type 0) : Type 0 where
  pub id : Bytes
  pub mem_pool : TxPool Transaction
  pub chain : Ledger S
  pub chain_readers : ℕ
  pub peers : List Bytes
  pub mu : RwMutex
  pub is_validator : Bool
  pub events : List TxEvent
  pub tasks : List Task
  pub sent : List (Bytes × Message)

pub data NodeError : Type 0 where
  pool_failed peer_not_found not_encoded not_signed : NodeError
  tx_refused : TxError → NodeError
  chain_refused : ChainError → NodeError

-- How a call ends: it returns with its error, `none` for nil, or the process panics, or it waits for
-- a lock that it left in this state.
pub data Outcome (S : Type 0) : Type 0 where
  done : Node S → Option NodeError → Outcome S
  panics : Outcome S
  waits : Node S → Outcome S

-- The rest of a call after one that must succeed, and after one whose error is only logged.
abbrev pub and_then : {S : Type 0} → Outcome S → (Node S → Outcome S) → Outcome S
and_then (done n none) f = f n
and_then (done n (some e)) f = done n (some e)
and_then panics f = panics
and_then (waits n) f = waits n

abbrev pub whatever : {S : Type 0} → Outcome S → (Node S → Outcome S) → Outcome S
whatever (done n e) f = f n
whatever panics f = panics
whatever (waits n) f = waits n

-- Has the peer map this address?
unfoldable pub is_peer : Bytes → List Bytes → Bool
is_peer a [] = false
is_peer a (p ∷ ps) = bytes_eq p a || is_peer a ps

-- A message is written to the connection of its peer, or the write fails. Then the connection is dialled
-- once more: the message is lost, without an error, or the dial fails too. This leaves a nil connection,
-- whose address is asked for next.
pub data Delivery : Type 0 where
  delivered redialed unreachable : Delivery

-- What a node takes from elsewhere: the hash functions, the checks and makers of signatures with its
-- key, the encodings, the database, and what becomes of a message to a peer.
pub record Externals (S I : Type 0) : Type 0 where
  pub database : Database S I
  pub codec : Codec
  pub keccak : Bytes → Bytes
  pub tx_hash : Transaction → Bytes
  pub header_hash : Header → Bytes
  pub verify_signature : Bytes → Bytes → Bytes → Bool
  pub valid_values : ℕ → ℕ → ℕ → Bool
  pub recover : Bytes → ℕ → ℕ → ℕ → Option Bytes
  pub encode_header : Header → Bytes
  pub encode_body : Body → Bytes
  pub decode_header : Bytes → Option Header
  pub decode_body : Bytes → Option Body
  pub sign : Bytes → Option Bytes
  pub public_key : Bytes
  pub delivers : Bytes → Message → Delivery
  pub same_tx : Eq Transaction

module _ {S I : Type 0} (x : Externals S I) where
  -- `peer.Send(msg)`, and SendBytesPayload of its bytes, with reconnect.
  unfoldable pub send : Bytes → Message → Node S → Outcome S
  send peer msg n = elim (x.delivers peer msg) [
    | delivered ↦ done (record n { sent = n.sent ++ (peer, msg) ∷ [] }) none
    | redialed ↦ done n none
    | unreachable ↦ panics
  ]

  -- `s.peerMap[from]`, then Send.
  unfoldable pub send_to : Bytes → Message → Node S → Outcome S
  send_to from msg n =
      if is_peer from n.peers then send from msg n else done n (some peer_not_found)

  -- The loop of broadcast, whose errors are only logged.
  unfoldable pub send_all : List Bytes → Message → Node S → Outcome S
  send_all [] msg n = done n none
  send_all (p ∷ ps) msg n = whatever (send p msg n) (send_all ps msg)

  unfoldable pub broadcast : Message → Node S → Outcome S
  broadcast msg n = elim (r_lock n.mu) [
    | none ↦ waits n
    | some m ↦
        whatever (send_all n.peers msg (record n { mu = m }))
          (λ n'. done (record n' { mu = r_unlock 1 n'.mu }) none)
  ]
