-- ===== src/Tests.antt =====
-- Runs at concrete inputs: each applies a theorem whose hypotheses they show to hold.
mod Codecs
mod Frames
mod Stats
mod Stores
mod Archive
mod Blocks
mod Scan
mod Scans
