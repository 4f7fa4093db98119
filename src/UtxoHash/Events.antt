-- ===== src/UtxoHash/Events.antt =====
-- stats/src/utxo_hash.rs: the events of a block in any order.
use bitcoin_data.Base.{
  Bool-cases, List, [], ap, bytes_keyed, false, inl, inr, ltb, refl, sym, true, ℕ, ◌++◌, ◌∙◌, ◌∷◌,
  ◌≡◌,
}
use mathlib.Core.List.{Permᴰ}
use bitcoin_data.Helper.{to_be_bytes}
use bitcoin_data.UtxoHash.{
  RollingUtxoHash, xor_bytes, mix_event, add_tag, rem_tag, add_output, remove_output,
}
use bitcoin_data.UtxoHash.Xor.{xor_bytes_exchange}

pub data Event : Type 0 where
  added removed : ℕ → Event

module _ (sha256 : List ℕ → List ℕ) where
  unfoldable pub apply_event : RollingUtxoHash → Event → RollingUtxoHash
  unfolding add_output remove_output
  apply_event h (added id) = add_output sha256 h id
  apply_event h (removed id) = remove_output sha256 h id

  unfoldable pub apply_events : RollingUtxoHash → List Event → RollingUtxoHash
  unfolding apply_event
  apply_events h [] = h
  apply_events h (e ∷ es) = apply_events (apply_event h e) es

  mixed :
      (t : List ℕ) (h : RollingUtxoHash) (a : ℕ)
      → ltb 0 h.window_blocks ≡ true
      → mix_event sha256 t h a
        ≡ record h { current_block = xor_bytes h.current_block (sha256 (t ++ to_be_bytes 8 a)) }
  unfolding mix_event
  mixed t h a on = rw on refl

  unmixed :
      (t : List ℕ) (h : RollingUtxoHash) (a : ℕ)
      → ltb 0 h.window_blocks ≡ false
      → mix_event sha256 t h a ≡ h
  unfolding mix_event
  unmixed t h a off = rw off refl

  mixed_twice :
      (t u : List ℕ) (h : RollingUtxoHash) (a b : ℕ)
      → ltb 0 h.window_blocks ≡ true
      → mix_event sha256 u (mix_event sha256 t h a) b ≡ record h {
        current_block =
            xor_bytes
              (xor_bytes h.current_block (sha256 (t ++ to_be_bytes 8 a)))
              (sha256 (u ++ to_be_bytes 8 b));
      }
  mixed_twice t u h a b on =
      ap (λ (x : RollingUtxoHash). mix_event sha256 u x b) (mixed t h a on) ∙ mixed u _ b on

  mix_event_exchange :
      (t u : List ℕ) (h : RollingUtxoHash) (a b : ℕ)
      → mix_event sha256 u (mix_event sha256 t h a) b
        ≡ mix_event sha256 t (mix_event sha256 u h b) a
  mix_event_exchange t u h a b = elim (Bool-cases (ltb 0 h.window_blocks)) [
    | inl on ↦
        mixed_twice t u h a b on
        ∙ ap (λ (c : List ℕ). record h { current_block = c })
            (xor_bytes_exchange h.current_block (sha256 (t ++ to_be_bytes 8 a))
              (sha256 (u ++ to_be_bytes 8 b)))
        ∙ sym (mixed_twice u t h b a on)
    | inr off ↦
        ap (λ (x : RollingUtxoHash). mix_event sha256 u x b) (unmixed t h a off)
        ∙ unmixed u h b off
        ∙ sym (unmixed t h a off)
        ∙ ap (λ (x : RollingUtxoHash). mix_event sha256 t x a) (sym (unmixed u h b off))
  ]

  apply_event_exchange :
      (h : RollingUtxoHash) (d e : Event)
      → apply_event (apply_event h d) e ≡ apply_event (apply_event h e) d
  unfolding apply_event add_output remove_output
  apply_event_exchange h (added a) (added b) = mix_event_exchange add_tag add_tag h a b
  apply_event_exchange h (added a) (removed b) = mix_event_exchange add_tag rem_tag h a b
  apply_event_exchange h (removed a) (added b) = mix_event_exchange rem_tag add_tag h a b
  apply_event_exchange h (removed a) (removed b) = mix_event_exchange rem_tag rem_tag h a b

  -- The events of a block leave the same hash in every order.
  pub apply_events-Perm :
      (h : RollingUtxoHash) (es fs : List Event)
      → Permᴰ es fs
      → apply_events h es ≡ apply_events h fs
  unfolding apply_events
  apply_events-Perm h es fs Permᴰ.nil = refl
  apply_events-Perm h (e ∷ es) (f ∷ fs) (Permᴰ.cons same p) =
      ap (λ (x : Event). apply_events (apply_event h x) es) same
      ∙ apply_events-Perm (apply_event h f) es fs p
  apply_events-Perm h (d ∷ e ∷ es) (d' ∷ e' ∷ fs) (Permᴰ.swap p q) =
      ap (λ (x : RollingUtxoHash). apply_events x es) (apply_event_exchange h d e)
      ∙ ap (λ (x : Event). apply_events (apply_event (apply_event h e) x) es) p
      ∙ ap (λ (x : Event). apply_events (apply_event (apply_event h x) e') es) q
  apply_events-Perm h es fs (Permᴰ.trans p q) =
      apply_events-Perm h es _ p ∙ apply_events-Perm h _ fs q
