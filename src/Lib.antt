-- ===== src/Lib.antt =====
-- bitcoin-data reads Bitcoin blocks from several sources, indexes their taproot outputs for light
-- clients, and keeps statistics about them. This library models its parts that compute: the byte
-- formats, the codecs, the index state and the statistics. Paths are from the repository's root.
--
-- Base holds the shared helpers: Boolean tests and lists over the native numbers, results with their
-- do blocks, bit operations, machine words, keyed maps and byte strings. A `usize` or `u64` that
-- cannot overflow on a list in memory is a natural number; an addition that can wraps as in a release
-- build. A byte slice is a list of numbers. A panic is an error value of its own.
--
-- Codec/Leb128 models light-server/src/codec/leb128.rs; the encoder runs on fuel of ten groups, which
-- hold 64 bits. Codec/BitIo and Codec/EliasDelta model light-server/src/codec/elias_delta.rs, the bit
-- writer and reader and the code; the prefix loop has fuel for 64 rounds, since 64 zeros are refused.
-- Both decoders first reserve a buffer for the number of values they are told, which panics on a number
-- whose 8-byte elements do not fit one.
--
-- Helper models light-server/src/helper.rs, and Range models `frame_range` and `parse_range` of
-- light-server/src/range.rs on top of it. Undo models `decode_spent_txouts_payload` and its cursor in
-- core/src/block.rs.
--
-- OutPoint models `OutPointKey`. Prevout models the entries of light-server/src/prevout_store.rs,
-- Prevout/Pending the pending writes, the lookup through them and the batch of `apply_pending`. The
-- database is a map of byte strings; the curve's point decoding is a parameter, since it belongs to
-- another library. Prevout/Enrich models `enrich_block_scan_points`: a block gives back its
-- transactions with their tweaks, the pending writes and the counters. Opening the database and its
-- size estimate are left out.
--
-- ScriptKinds models light-server/src/script_classify.rs and ScanPoint light-server/src/sp_tweak.rs:
-- ScanPoint/Pushes the pushes of a script, on fuel of one round more than the script has bytes, and
-- ScanPoint/Compute the keys of the inputs and `compute_tx_scan_point`. The script templates, hashes
-- and curve operations of other libraries are the fields of a record that is a parameter.
--
-- Bitmap models the bitmap of skipped transactions in light-server/src/index.rs. Indexer models
-- light-server/src/p2tr_indexer.rs: its types, Indexer/Outputs the inputs and outputs of a transaction
-- in `apply_block_with_stats`, Indexer/Blocks a transaction, a block and the candidate cache. A block
-- passes a record of the state and of the lists it fills through its steps; an error drops it, so the
-- state that a failed block leaves is not described. The truncated hashes and the response that the
-- function computes from those lists at its end are left out.
--
-- SpentIds models the spent ids of light-server/src/index.rs, and LightBlock its stored and served
-- blocks: LightBlock/Hashes the truncated hashes with light-server/src/tagged_hash.rs, where SHA-256 is
-- a parameter; LightBlock/Tweaks the flat tweaks; LightBlock/Response `to_response_input_for_labels`,
-- `to_filtered_response_input` and `validate_stored_light_block_input`; LightBlock/Validate the checks
-- they use. The width of a hash is a rounded-up logarithm of a whole number below 2 ^ 41, which is
-- exact as an `f64` and whose logarithm is not rounded to a whole number, so it is computed on natural
-- numbers. Cap'n Proto messages are left out, since their code is generated.
--
-- IndexStore models light-server/src/index_store.rs: its keys, the values under outpoints, the batch of
-- `commit_applied_blocks` and the lookup of outpoints, over a map of byte strings.
--
-- Histogram models stats/src/histogram.rs, and Costs the charges and estimates of
-- stats/src/block.rs. Printing, serialisation and floating point are left out.
--
-- UtxoHash models stats/src/utxo_hash.rs, with SHA-256 as a parameter and without the hex form of the
-- result. Checkpoint models the schedule and the pruning of stats/src/checkpoint.rs, with the files as
-- a list, newest first. Spend models the class of a taproot spend in stats/src/transaction.rs and the
-- counters that `record_spend` and `record_p2tr_spend` of stats/src/block.rs keep in `Stats`.
--
-- ScriptTypes models stats/src/script.rs, with the script templates that rust-bitcoin recognises as a
-- parameter; the names as text are left out.
--
-- SortedUids models `measure_sorted_uid_stream` of stats/src/block.rs, whose two panics are errors.
-- PerBlock models `PerBlock`, the other counters of `Stats`, and the row that a block is drained into.
-- Scanner models stats/src/scan.rs: `UtxoEntry`, `StatsScannerState` and the preparation of a
-- transaction; Scanner/Blocks a block in `scan`, from its transactions to its row. Blocks as
-- rust-bitcoin decodes them are data. Fetching, restoring checkpoints and times are left out.
--
-- Sources models the default calls of core/src/source.rs and the batches of core/src/pipeline.rs;
-- `buffered` of the futures crate is a parameter, which keeps their order when it may wait for at least
-- one answer. Sources/Multi models sources/src/multi.rs: a request runs with the
-- picks that other requests make before each of its rounds.
--
-- Not modelled: the servers, the command lines, the network sources and the asynchronous pipeline,
-- which are input and output around these parts; hashing and elliptic curves, which are other
-- libraries.
--
-- Tests runs theorems at concrete inputs.
pub mod Base
pub mod Codec
pub mod Helper
pub mod Range
pub mod Undo
pub mod OutPoint
pub mod ScriptKinds
pub mod ScanPoint
pub mod Prevout
pub mod Bitmap
pub mod SpentIds
pub mod LightBlock
pub mod Indexer
pub mod IndexStore
pub mod Histogram
pub mod Costs
pub mod UtxoHash
pub mod Checkpoint
pub mod Spend
pub mod ScriptTypes
pub mod SortedUids
pub mod PerBlock
pub mod Scanner
pub mod Sources
pub mod Tests
