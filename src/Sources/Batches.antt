-- ===== src/Sources/Batches.antt =====
-- core/src/pipeline.rs, `raw_block_stream_by_height_batched`: the batches cover the heights in order.
use bitcoin_data.Base.{
  Bool, List, Result, ap, append-nil, arith, bytes_keyed, dec_le, false, if◌then◌else◌, map, max,
  min, ok, refl, suc, sym, zero, ℕ, ◌*◌, ◌%◌, ◌^◌, ◌++◌, ◌+◌, ◌-◌, ◌/◌, ◌<◌, ◌==◌, ◌∙◌, ◌∷◌, ◌≡◌,
  ◌≤◌,
}
use native.Mathlib.Nat.{div-mul-le_self, lt-div-mul-add, add-mul}
use bitcoin_data.Sources.{
  RawBlockFrame, heights, batch_items, flat_items, batches_from, raw_block_stream_by_height_batched,
}

-- The items of the batches from an index on, in order.
abbrev stream_from :
    {E : Type 0}
    → (ℕ → ℕ → Result E (List RawBlockFrame))
    → ℕ
    → ℕ
    → ℕ
    → ℕ
    → ℕ
    → List (Result E RawBlockFrame)
stream_from fetch start count size idx b = flat_items (batches_from fetch start count size idx b)

-- What `buffered` does when it may wait for at least one answer: it keeps the order.
abbrev pub KeepsOrder :
    {E : Type 0}
    → (ℕ → List (Result E (List RawBlockFrame)) → List (Result E (List RawBlockFrame)))
    → Type 0
KeepsOrder {E} buffered =
    (n : ℕ) (xs : List (Result E (List RawBlockFrame))) → 0 < n → buffered n xs ≡ xs

module _ {E : Type 0} (fetch : ℕ → ℕ → Result E (List RawBlockFrame))
    (frame : ℕ → RawBlockFrame) where
  -- `fetch` answers every range that lies in `start..(start + count)` with `frame` of each height.
  abbrev pub Serves : ℕ → ℕ → Type 0
  Serves start count =
      (s n : ℕ) → start ≤ s → s + n ≤ start + count → fetch s n ≡ ok (map frame (heights s n))

  abbrev pub items : ℕ → ℕ → List (Result E RawBlockFrame)
  items start count = map ok (map frame (heights start count))

  items-append : (s n m : ℕ) → items s n ++ items (s + n) m ≡ items s (n + m)
  unfolding heights
  items-append s zero m = ap (λ (x : ℕ). items x m) (omega arith) ∙ ap (items s) (omega arith)
  items-append s (suc n) m =
      let next : s + suc n ≡ s + 1 + n = omega arith in
      let all : suc (n + m) ≡ suc n + m = omega arith in
      ap (λ (x : ℕ). items s (suc n) ++ items x m) next
      ∙ ap (◌∷◌ (ok (frame s))) (items-append (s + 1) n m)
      ∙ ap (items s) all

  -- A first batch of at most `size` heights, and the others.
  items-cut : (s n size : ℕ) → items s (min n size) ++ items (s + size) (n - size) ≡ items s n
  unfolding heights
  items-cut s n size = elim (dec_le n size) [
    | yes le ↦
        let first : min n size ≡ n = omega arith in
        let rest : n - size ≡ 0 = omega arith in
        ap (λ (x : ℕ). items s x ++ items (s + size) (n - size)) first
        ∙ ap (λ (x : ℕ). items s n ++ items (s + size) x) rest
        ∙ append-nil (items s n)
    | no gt ↦
        let first : min n size ≡ size = omega arith in
        let whole : size + (n - size) ≡ n = omega arith in
        ap (λ (x : ℕ). items s x ++ items (s + size) (n - size)) first
        ∙ items-append s size (n - size)
        ∙ ap (items s) whole
  ]

  stream-step :
      (start count size idx b : ℕ)
      → Serves start count
      → start + count < 2 ^ 64
      → idx * size ≤ count
      → stream_from fetch start count size idx (suc b)
        ≡ items (start + idx * size) (min (count - idx * size) size)
          ++ stream_from fetch start count size (idx + 1) b
  unfolding batches_from flat_items batch_items
  stream-step start count size idx b serves fits inside =
      let first : (start + idx * size) % 2 ^ 64 ≡ start + idx * size = omega (arith, inside) in
      let left : min ((start + count + (2 ^ 64 - (start + idx * size) % 2 ^ 64)) % 2 ^ 64) size
          ≡ min (count - idx * size) size =
        omega (arith, inside, first) in
      let answer =
        ap (fetch ((start + idx * size) % 2 ^ 64)) left
        ∙ ap (λ (x : ℕ). fetch x (min (count - idx * size) size)) first
        ∙ serves (start + idx * size) (min (count - idx * size) size) (omega arith)
            (omega (arith, inside)) in
      ap
        (λ (r : Result E (List RawBlockFrame)).
          batch_items r ++ stream_from fetch start count size (idx + 1) b)
        answer

  stream-items :
      (start count size idx b : ℕ)
      → Serves start count
      → start + count < 2 ^ 64
      → count ≤ (idx + b) * size
      → (0 < b → (idx + (b - 1)) * size < count)
      → stream_from fetch start count size idx b ≡ items (start + idx * size) (count - idx * size)
  unfolding batches_from flat_items heights
  stream-items start count size idx zero serves fits enough tight =
      let same : (idx + 0) * size ≡ idx * size = ap (λ (x : ℕ). x * size) (omega arith) in
      let none_left : 0 ≡ count - idx * size = omega (arith, enough, same) in
      ap (items (start + idx * size)) none_left
  stream-items start count size idx (suc b) serves fits enough tight =
      let o = idx * size in
      let last : (idx + (suc b - 1)) * size ≡ o + b * size =
        ap (λ (x : ℕ). (idx + x) * size) (omega arith) ∙ add-mul idx b size in
      let next : (idx + 1) * size ≡ o + size =
        add-mul idx 1 size ∙ ap (λ (x : ℕ). o + x) (omega arith) in
      let more : (idx + suc b) * size ≡ (idx + 1 + b) * size =
        ap (λ (x : ℕ). x * size) (omega arith) in
      let rest =
        stream-items start count size (idx + 1) b serves fits (omega (arith, enough, more)) (λ h.
          let shift : (idx + 1 + (b - 1)) * size ≡ (idx + (suc b - 1)) * size =
            ap (λ (x : ℕ). x * size) (omega (arith, h)) in
          omega (arith, shift, tight (omega arith))) in
      let at_next : start + (idx + 1) * size ≡ start + o + size = omega (arith, next) in
      let left_next : count - (idx + 1) * size ≡ count - o - size = omega (arith, next) in
      stream-step start count size idx b serves fits (omega (arith, last, tight (omega arith)))
      ∙ ap (λ (r : List (Result E RawBlockFrame)). items (start + o) (min (count - o) size) ++ r)
          (rest
            ∙ ap (λ (x : ℕ). items x (count - (idx + 1) * size)) at_next
            ∙ ap (items (start + o + size)) left_next)
      ∙ items-cut (start + o) (count - o) size

  batches-items :
      (start count batch_size : ℕ)
      → Serves start count
      → start + count < 2 ^ 64
      → (let size = max batch_size 1 in
          stream_from fetch start count size 0
            (if count == 0 then 0 else (count + size - 1) / size))
        ≡ items start count
  unfolding batches_from flat_items heights
  batches-items start zero batch_size serves fits = refl
  batches-items start (suc n) batch_size serves fits =
      let count = suc n in
      let size = max batch_size 1 in
      let b = (count + size - 1) / size in
      let nonzero : (count == 0) ≡ false = ground arith in
      let low = div-mul-le_self (count + size - 1) size in
      let high = lt-div-mul-add {a = count + size - 1} {b = size} (omega arith) in
      let all : (0 + b) * size ≡ b * size = ap (λ (x : ℕ). x * size) (omega arith) in
      let nothing : 0 * size ≡ 0 = omega arith in
      let from_start : start + 0 ≡ start = omega arith in
      let all_left : count - 0 ≡ count = omega arith in
      ap (λ (c : Bool). stream_from fetch start count size 0 (if c then 0 else b)) nonzero
      ∙ stream-items start count size 0 b serves fits (omega (arith, all, high)) (λ h.
        let one_less : (0 + (b - 1)) * size + size ≡ b * size =
          ap (λ (x : ℕ). (0 + (b - 1)) * size + x) (omega arith)
          ∙ sym (add-mul (0 + (b - 1)) 1 size)
          ∙ ap (λ (x : ℕ). x * size) (omega (arith, h)) in
        omega (arith, one_less, low))
      ∙ ap (λ (x : ℕ). items (start + x) (count - x)) nothing
      ∙ ap (λ (x : ℕ). items x (count - 0)) from_start
      ∙ ap (items start) all_left

  -- When every range of the heights asked for is served, these end below 2 ^ 64, and `buffered` may
  -- wait for at least one answer and keeps their order, the stream holds the frame of each height
  -- once, in the order of the heights, whatever the size of the batches.
  pub raw_block_stream_by_height_batched-items :
      (buffered : ℕ → List (Result E (List RawBlockFrame)) → List (Result E (List RawBlockFrame)))
      → (start count buffer batch_size : ℕ) → KeepsOrder buffered
      → 0 < buffer
      → start + count < 2 ^ 64
      → Serves start count
      → raw_block_stream_by_height_batched buffered fetch start count buffer batch_size
        ≡ items start count
  unfolding raw_block_stream_by_height_batched
  raw_block_stream_by_height_batched-items buffered start count buffer batch_size keeps h fits
        serves =
      ap flat_items (keeps buffer _ h) ∙ batches-items start count batch_size serves fits
