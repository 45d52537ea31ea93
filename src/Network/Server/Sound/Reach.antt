-- ===== src/Network/Server/Sound/Reach.antt =====
-- network/server.go: the steps of a node, in any order: a message comes in, the block time has passed,
-- or a goroutine runs. A call that waits leaves its state to the others.
use rfqrelayer.Prelude.{
  ℕ, ◌≡◌, refl, inl, inr, List, [], ◌∷◌, ◌++◌, ltb, length, Bool-cases, Option-cases, Bytes,
}
use mathlib.Core.Path.{subst}
use rfqrelayer.Types.Block.{RawBlock}
use rfqrelayer.Network.Rpc.{Message, Payload}
use rfqrelayer.Network.Node.{
  Node, Outcome, done, panics, waits, Externals, send, is_peer, r_lock, broadcast, Task,
  broadcast_tx, broadcast_block, request_blocks, lock, send_all,
}
use rfqrelayer.Network.Server.{process_message, run_task, request_round, create_new_block}
use rfqrelayer.Network.Server.Sound.{
  Safe, Safe-map, IsSound, After, unchanged, same, After-trans, whatever-Safe,
}
use rfqrelayer.Network.Server.Sound.Messages.{process_any-Safe}
use rfqrelayer.Network.Rpc.{new_message, block_message}
use rfqrelayer.Network.Server.Sound.Answers.{send-Safe}
use rfqrelayer.Network.Server.Sound.Making.{create_new_block-Safe}

-- The state that a call leaves; a panic leaves none.
abbrev pub Leaves : {S : Type 0} → Outcome S → Node S → Type 0
Leaves (done m e) n = m ≡ n
Leaves panics n = ⊥
Leaves (waits m) n = m ≡ n

-- A call that leaves a state with `P` if it leaves any.
abbrev Calm : {S : Type 0} → (Node S → Type 0) → Outcome S → Type 0
Calm P o = Safe Unit P o

Safe-Calm : {S : Type 0} (P : Node S → Type 0) (o : Outcome S) → Safe ⊥ P o → Calm P o
Safe-Calm P (done m e) h = h
Safe-Calm P panics h = tt
Safe-Calm P (waits m) h = h

Leaves-Calm :
    {S : Type 0} (P : Node S → Type 0) (o : Outcome S) (n : Node S) → Calm P o → Leaves o n → P n
Leaves-Calm P (done m e) n h l = subst P l h
Leaves-Calm P panics n h l = absurd l
Leaves-Calm P (waits m) n h l = subst P l h

module _ {S I : Type 0} (x : Externals S I) where
  pub data Step (n : Node S) : Node S → Type 0 where
    receive :
        (from : Bytes) (m : Payload) {n' : Node S}
        → Leaves (process_message x from m n) n'
        → Step n n'
    tick : (now : ℕ) {n' : Node S} → Leaves (create_new_block x now n) n' → Step n n'
    run :
        (before : List Task) (t : Task) (after : List Task) {n' : Node S}
        → n.tasks ≡ before ++ t ∷ after
        → Leaves (run_task x t (record n { tasks = before ++ after })) n'
        → Step n n'

  pub data Reach (n : Node S) : Node S → Type 0 where
    start : Reach n n
    later : {m k : Node S} → Reach n m → Step m k → Reach n k

  receive-Calm :
      (from : Bytes) (m : Payload) (n : Node S)
      → IsSound x n
      → Calm (After x n) (process_message x from m n)
  receive-Calm from m n s =
      process_any-Safe x Unit (λ peer msg e. tt) from m n (inr tt) (λ bad. tt) s

  send-Calm :
      (p : Bytes) (msg : Message) (n : Node S) → IsSound x n → Calm (After x n) (send x p msg n)
  send-Calm p msg n s = send-Safe x Unit (λ peer m e. tt) p msg n s

  send_all-Calm :
      (ps : List Bytes) (msg : Message) (n : Node S)
      → IsSound x n
      → Calm (After x n) (send_all x ps msg n)
  unfolding send_all
  send_all-Calm [] msg n s = unchanged x n s
  send_all-Calm (p ∷ ps) msg n s =
      whatever-Safe x Unit n (send x p msg n) (send_all x ps msg) (send-Calm p msg n s)
        (λ m v. send_all-Calm ps msg m v)

  broadcast-Calm : (msg : Message) (n : Node S) → IsSound x n → Calm (After x n) (broadcast x msg n)
  unfolding broadcast
  broadcast-Calm msg n s = elim (Option-cases (r_lock n.mu)) [
    | inl busy ↦ rw (busy, broadcast) (unchanged x n s)
    | inr (m, free) ↦
        let n' : Node S = record n { mu = m } in
        let before = same x n n' refl refl s in
        rw (free, broadcast)
          (whatever-Safe x Unit n (send_all x n.peers msg n') _
            (Safe-map Unit (send_all x n.peers msg n') (λ _ later. After-trans x before later)
              (send_all-Calm n.peers msg n' before.sound))
            (λ k v. same x k _ refl refl v))
  ]

  broadcast_block-Calm :
      (b : RawBlock) (n : Node S)
      → IsSound x n
      → Calm (After x n) (run_task x (broadcast_block b) n)
  unfolding run_task
  broadcast_block-Calm b n s = elim (Option-cases (lock n.mu)) [
    | inl busy ↦ rw (busy, run_task) (unchanged x n s)
    | inr (m, free) ↦
        let n' : Node S = record n { mu = m } in
        let before = same x n n' refl refl s in
        let msg : Message = new_message block_message [] n.id in
        rw (free, run_task)
          (whatever-Safe x Unit n (broadcast x msg n') _
            (Safe-map Unit (broadcast x msg n') (λ _ later. After-trans x before later)
              (broadcast-Calm msg n' before.sound))
            (λ k v. same x k _ refl refl v))
  ]

  request_round-Calm :
      (from : Bytes) (index held : ℕ) (n : Node S)
      → IsSound x n
      → Calm (After x n) (request_round x from index held n)
  unfolding request_round
  request_round-Calm from index held n s = elim (Bool-cases (ltb index (length n.chain.headers))) [
    | inl synced ↦ rw synced (same x n _ refl refl s)
    | inr behind ↦ elim (Option-cases (r_lock n.mu)) [
      | inl busy ↦ rw behind (rw (busy, request_round) (unchanged x n s))
      | inr (m, free) ↦ elim (Bool-cases (is_peer from n.peers)) [
        | inr gone ↦ rw behind (rw (free, request_round) (rw gone tt))
        | inl known ↦
            let n' : Node S = record n { mu = m } in
            let before = same x n n' refl refl s in
            rw behind (
              rw (free, request_round)
                (rw known (
                  whatever-Safe x Unit n (send x from _ n') _
                    (Safe-map Unit (send x from _ n') (λ _ later. After-trans x before later)
                      (send-Calm from _ n' before.sound))
                    (λ k v. same x k _ refl refl v))))
      ]
    ]
  ]

  run_task-Calm : (t : Task) (n : Node S) → IsSound x n → Calm (After x n) (run_task x t n)
  unfolding run_task
  run_task-Calm (broadcast_tx t) n s = broadcast-Calm _ n s
  run_task-Calm (broadcast_block b) n s = broadcast_block-Calm b n s
  run_task-Calm (request_blocks from index held) n s = request_round-Calm from index held n s

  Step-After : {n n' : Node S} → Step n n' → IsSound x n → After x n n'
  Step-After {n} {n'} (receive from m l) s =
      Leaves-Calm (After x n) _ n' (receive-Calm from m n s) l
  Step-After {n} {n'} (tick now l) s =
      Leaves-Calm (After x n) _ n' (Safe-Calm (After x n) _ (create_new_block-Safe x now n s)) l
  Step-After {n} {n'} (run before t after e l) s =
      let n1 : Node S = record n { tasks = before ++ after } in
      let first = same x n n1 refl refl s in
      After-trans x first (Leaves-Calm (After x n1) _ n' (run_task-Calm t n1 first.sound) l)

  -- However messages, block times and goroutines follow on one another, a sound node stays sound: its
  -- pool is valid and its headers are linked. And its chain only grows: no header that has a child is
  -- ever changed or taken away.
  pub Reach-After : {n n' : Node S} → Reach n n' → IsSound x n → After x n n'
  Reach-After {n} start s = unchanged x n s
  Reach-After (later r st) s =
      let before = Reach-After r s in After-trans x before (Step-After st before.sound)
