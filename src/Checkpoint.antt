-- ===== src/Checkpoint.antt =====
-- stats/src/checkpoint.rs: when a checkpoint is due, and which ones are pruned. A directory is the
-- list of its checkpoints, newest first; writing and reading the files is left out.
pub mod Schedule
pub mod Prune
use mathlib.Core.List.{reverse}
use bitcoin_data.Base.{
  Bool, List, add_u64, bytes_keyed, drop, false, if◌then◌else◌, leb, length, ltb, true, ℕ, ◌&&◌,
  ◌-◌, ◌==◌, ◌||◌,
}

pub record CheckpointConfig : Type 0 where
  pub every : ℕ
  pub keep : ℕ
  pub enabled : Bool

pub record CheckpointWriter : Type 0 where
  pub cfg : CheckpointConfig
  pub processed_since_checkpoint : ℕ

abbrev pub default_config : CheckpointConfig
default_config = record { every = 1; keep = 10; enabled = false }

abbrev pub new_writer : CheckpointConfig → CheckpointWriter
new_writer cfg = record { cfg = cfg; processed_since_checkpoint = 0 }

unfoldable pub is_enabled : CheckpointWriter → Bool
is_enabled w = w.cfg.enabled && ltb 0 w.cfg.every

-- Whether a checkpoint is due, and the writer after the block.
unfoldable pub on_committed_block : CheckpointWriter → Bool × CheckpointWriter
unfolding is_enabled
on_committed_block w =
    let processed = add_u64 w.processed_since_checkpoint 1 in
    if is_enabled w
    then (if leb w.cfg.every processed
        then (true, record w { processed_since_checkpoint = 0 })
        else (false, record w { processed_since_checkpoint = processed }))
    else (false, w)

unfoldable pub needs_final_flush : CheckpointWriter → Bool
unfolding is_enabled
needs_final_flush w = is_enabled w && ltb 0 w.processed_since_checkpoint

-- The files left by `prune_checkpoints`: the list is reversed and its first `len - keep` removed.
unfoldable pub prune_checkpoints {ℓ} : {A : Type ℓ} → List A → ℕ → List A
prune_checkpoints checkpoints keep =
    if keep == 0 || leb (length checkpoints) keep
    then checkpoints
    else reverse (drop (length checkpoints - keep) (reverse checkpoints))
