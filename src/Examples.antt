-- ===== src/Examples.antt =====
-- Concrete inputs, with functions that stand in for those of other packages.
mod Pool
mod Stores
mod Records
mod Auctions
mod Blocks
mod Signing
mod Server
mod Forms
mod Events
mod Api
mod Tables
