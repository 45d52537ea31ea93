-- ===== src/Core.antt =====
-- core: the chain, its auctions and the queue they stand in.
pub mod Heap
pub mod Auction
pub mod Chain
