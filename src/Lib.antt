-- ===== src/Lib.antt =====
-- rfqrelayer: a node that runs request-for-quote auctions and keeps their record on a chain.
--
-- A client's request opens an auction. Until its end time quotes reach it, and then it closes. The
-- chain (core) keeps the open auctions in memory, in a list, a map and a queue ordered by end time,
-- and writes every transaction to tables, which are prefixes of one key-value database. The
-- transaction pool (network) holds transactions until a block takes them.
--
-- Files and the code they are about:
--   Prelude            shared helpers: Boolean tests, lists over native numbers, byte strings with
--                      their order, results with panics, association lists for Go maps, integers and
--                      their big-endian bytes
--   Common/Lists       common/list.go, the generic list
--   Common/Bytes       common/bytes.go: padding, trimming and hexadecimal forms
--   Common/Types       common/types.go: hashes and addresses, with the checksum of the latter
--   Crypto/Signatures  crypto/ocax/keys.go: signatures and their bytes
--   Types/Data         the records of core/types/tx_*.go and core/types/transaction.go
--   Types/Items        what their EncodeRLP methods give to rlp
--   Types/Decode       their FromInterfaces methods, and OpenRFQ.DecodeRLP after rlp
--   Types/Signing      core/types/transaction_signing.go (SignTx is `sign_tx`, Sender `sender_of`) with
--                      Sign and WithSignature of core/types/transaction.go
--   Types/Validation   core/types/transaction.go: Validate
--   Types/Block        core/types/block.go: headers, blocks, the Merkle root and the check of a block;
--                      Types/Block/Making holds the functions that make and sign one
--   Rfqdb/Interfaces   rfqdb/database.go and rfqdb/iterator.go, and the contract that clients use
--   Rfqdb/Memorydb     rfqdb/memorydb/memorydb.go: store, batch, iterator and snapshot
--   Rawdb/Table        core/rawdb/table.go: a table is a prefix of the keys of a database
--   Rawdb/Blocks       core/rawdb/schema.go and accessors_db.go: blocks in the database
--   Core/Heap          core/types/auction_queue.go under container/heap
--   Core/Auction       core/blockchain.go: WriteRFQTxs (`write_rfq_txs`), processAuctionQueue
--                      (`process_auction_queue`), UpdateActiveRFQ (`update_active_rfq`),
--                      GetOpenRFQByHash (`get_open_rfq_by_hash`), and in Core/Auction/Reading the
--                      functions that read a whole table (`get_rfq_requests` and others)
--   Core/Chain         core/blockchain.go and core/block_validator.go: VerifyBlock (`verify_block`),
--                      GetBlock and the headers
--   Network/TxPool     network/txpool.go; SortedMap, Fifo and Window hold its proofs
--   Network/Rpc        network/rpc.go and network/message.go: the messages and their decoding
--   Network/Node       network/server.go: the state of a node, its lock, the sending of messages
--   Network/Server     network/server.go: ProcessMessage (`process_message`), the handler of each
--                      message, the goroutines they start (`run_task`), CreateNewBlock
--                      (`create_new_block`); its children hold the proofs
--   Network/Events     network/server.go: handleTxEvent (`handle_tx_event`) and what it calls
--   Api/Server         api/server.go: handlePostRFQRequest, handlePostQuote and the lookup of an open
--                      auction, past the parsing of JSON
--   Examples           concrete inputs
--
-- A call that may fail returns a result, `panic` included; state is passed on. Maps are association
-- lists with distinct keys, byte strings lists of numbers. The data of auctions are objects at
-- addresses, since the list, the map and the queue share them. The database of the chain, rlp,
-- gob, Keccak, the hash of a transaction, the curve of the keys and the clock are parameters. Of
-- the database the chain relies on the contract in Rfqdb/Interfaces, and of rlp on an encoder of
-- byte strings and lists that does not fail.
--
-- A message is one step of a node. A goroutine that a handler starts is a task of the node, and tasks
-- and messages follow on one another in any order. A step that waits for a lock has this as its outcome.
--
-- A block from gob or from a caller may lack its header (`RawBlock`), and a part of a blocks message may
-- be missing (`FullBlock`). The answer of a peer reaches a node as gob leaves it, without the fields that
-- are not exported. Sending is delivered, lost to a new connection, or a panic (`Delivery`). The amount of
-- a request from JSON is any integer; those that are hashed and stored are natural numbers.
--
-- Fuel: the sift loops of the heap run on as many rounds as the queue has entries, which is more than
-- its height. The loop of processAuctionQueue has a round for each queued auction, since each takes
-- one out. MerkleRoot has a round for each hash, since each round has fewer. A loop over an iterator
-- has one round more than the iterator has keys.
--
-- Not modelled: the sockets and the loops that read them, the start-up and the timers of the server,
-- routing, websockets, handlePostTx, the handlers of the HTTP interface that only read, quotes whose
-- amount or prices are negative, key files, JSON, the
-- pebble store, which is a library behind the database interface, the locks of the chain but for the
-- one of GetBlock, and logging. A handler of the HTTP interface, like one of the server, is one step.
pub mod Prelude
pub mod Common
pub mod Types
pub mod Rfqdb
pub mod Rawdb
pub mod Core
pub mod Crypto
pub mod Network
pub mod Api
pub mod Examples
