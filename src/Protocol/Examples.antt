-- ===== src/Protocol/Examples.antt =====
-- Each theorem at an input that meets its hypotheses, and short conversations run to their end.
mod Talks
mod Auctions
mod Tasks
