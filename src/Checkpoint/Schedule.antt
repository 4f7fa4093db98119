-- ===== src/Checkpoint/Schedule.antt =====
-- stats/src/checkpoint.rs, `on_committed_block`: one checkpoint in every `every` blocks.
use bitcoin_data.Base.{
  Bool-cases, add_u64, arith, bytes_keyed, false, if◌then◌else◌, inl, inr, leb, leb→le, le→leb, ltb,
  lt→ltb, refl, suc, true, zero, ℕ, ◌&&◌, ◌*◌, ◌+◌, ◌<◌, ◌^◌, ◌≡◌, ◌≤◌,
}
use bitcoin_data.Checkpoint.{
  new_writer, CheckpointConfig, CheckpointWriter, on_committed_block, is_enabled,
}

-- Some blocks committed one after the other: how many checkpoints were due, and the writer after.
unfoldable pub commit_blocks : ℕ → CheckpointWriter → ℕ × CheckpointWriter
unfolding on_committed_block
commit_blocks zero w = (0, w)
commit_blocks (suc n) w =
    let step = on_committed_block w in
    let rest = commit_blocks n step.1 in ((if step.0 then rest.0 + 1 else rest.0), rest.1)

not_yet : (a b : ℕ) → b < a → leb a b ≡ false
not_yet a b h = ground arith

early_lt : (a b : ℕ) → leb a b ≡ false → b < a
early_lt a b h = ground arith

step_due :
    (w : CheckpointWriter)
    → is_enabled w ≡ true
    → w.cfg.every ≤ w.processed_since_checkpoint + 1
    → w.processed_since_checkpoint + 1 < 2 ^ 64
    → on_committed_block w ≡ (true, record w { processed_since_checkpoint = 0 })
unfolding on_committed_block
step_due w on due fits =
    let wrap : add_u64 w.processed_since_checkpoint 1 ≡ w.processed_since_checkpoint + 1 =
      omega arith in
    rw (on_committed_block, on, wrap, le→leb w.cfg.every (w.processed_since_checkpoint + 1) due)
      refl

step_not_due :
    (w : CheckpointWriter)
    → is_enabled w ≡ true
    → w.processed_since_checkpoint + 1 < w.cfg.every
    → w.cfg.every < 2 ^ 64
    → on_committed_block w
      ≡ (false, record w { processed_since_checkpoint = w.processed_since_checkpoint + 1 })
unfolding on_committed_block
step_not_due w on early fits =
    let wrap : add_u64 w.processed_since_checkpoint 1 ≡ w.processed_since_checkpoint + 1 =
      omega arith in
    rw (on_committed_block, on, wrap, not_yet w.cfg.every (w.processed_since_checkpoint + 1) early)
      refl

-- From `p` blocks after a checkpoint.
commit_blocks_from :
    (n p : ℕ) (cfg : CheckpointConfig)
    → is_enabled (record { cfg = cfg; processed_since_checkpoint = p }) ≡ true
    → p < cfg.every
    → cfg.every < 2 ^ 64
    → let r = commit_blocks n (record { cfg = cfg; processed_since_checkpoint = p }) in
      (r.0 * cfg.every + r.1.processed_since_checkpoint ≡ p + n)
      × (r.1.processed_since_checkpoint < cfg.every)
unfolding commit_blocks
commit_blocks_from zero p cfg on h fits = (omega arith, h)
commit_blocks_from (suc n) p cfg on h fits =
    let w : CheckpointWriter = record { cfg = cfg; processed_since_checkpoint = p } in
    elim (Bool-cases (leb cfg.every (p + 1))) [
      | inl due ↦
          let last = leb→le cfg.every (p + 1) due in
          let (sum, left) = commit_blocks_from n 0 cfg on (omega arith) fits in
          rw (step_due w on last (omega arith)) (grind (arith, sum), left)
      | inr early ↦
          let more : p + 1 < cfg.every = early_lt cfg.every (p + 1) early in
          let (sum, left) = commit_blocks_from n (p + 1) cfg on more fits in
          rw (step_not_due w on more fits) (omega (arith, sum), left)
    ]

-- A new writer that is enabled, with a positive 64-bit period: after `n` committed blocks the number
-- of checkpoints due times the period, and the blocks since the last one, fewer than the period,
-- make `n`.
pub commit_blocks-new :
    (n : ℕ) (cfg : CheckpointConfig)
    → cfg.enabled ≡ true
    → 0 < cfg.every
    → cfg.every < 2 ^ 64
    → let r = commit_blocks n (new_writer cfg) in
      (r.0 * cfg.every + r.1.processed_since_checkpoint ≡ n)
      × (r.1.processed_since_checkpoint < cfg.every)
unfolding is_enabled
commit_blocks-new n cfg on p fits =
    let ready : (cfg.enabled && ltb 0 cfg.every) ≡ true = rw (on, lt→ltb 0 cfg.every p) refl in
    let (sum, left) = commit_blocks_from n 0 cfg ready p fits in (omega (arith, sum), left)
