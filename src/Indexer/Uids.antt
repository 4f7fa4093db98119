-- ===== src/Indexer/Uids.antt =====
-- light-server/src/p2tr_indexer.rs: the uids in the map of live outputs.
use bitcoin_data.Base.{List, bytes_keyed, ℕ}
use bitcoin_data.OutPoint.{OutPoint}
use bitcoin_data.OutPoint.Live
use bitcoin_data.Indexer.{SpendLookup}

abbrev pub uid_of : SpendLookup → ℕ
uid_of s = s.uid

-- The map holds every outpoint once, and different uids, all below `n`.
abbrev pub IsLive : ℕ → List (OutPoint × SpendLookup) → Type 0
IsLive n m = Live.IsLive uid_of n m
