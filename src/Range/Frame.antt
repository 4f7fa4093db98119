-- ===== src/Range/Frame.antt =====
-- light-server/src/range.rs: the parser on what `frame_range` wrote.
use bitcoin_data.Base.{
  ==_refl, All, List, [], ap, append-nil, append_assoc, arith, bytes_keyed, drop, drop-drop,
  drop_prefix, ensure, length, length-append, length-drop, le→leb, lt→ltb, ok, refl, same_bytes,
  suc, sym, take_prefix, ℕ, ◌++◌, ◌+◌, ◌-◌, ◌<◌, ◌==◌, ◌>>=◌, ◌>>◌, ◌^◌, ◌∙◌, ◌∷◌, ◌≡◌, ◌≤◌,
}
use bitcoin_data.Helper.{to_le_bytes, slice, read_u16_le}
use bitcoin_data.Helper.Endian.{read_u32_le-to_le}
use bitcoin_data.Range.{
  trailing_bytes, frame_items, frame_range, parse_items, parse_range, to_u32, range_magic,
  range_version,
}

-- A message whose length fits `u32`.
abbrev pub Fits : List ℕ → Type 0
Fits msg = length msg < 2 ^ 32

abbrev pub items : List (List ℕ) → List ℕ
items [] = []
items (msg ∷ messages) = to_le_bytes 4 (length msg) ++ (msg ++ items messages)

pub to_u32-ok : (n : ℕ) → n < 2 ^ 32 → to_u32 n ≡ ok n
to_u32-ok n h = rw (lt→ltb n (2 ^ 32) h)

pub frame_items-items :
    (messages : List (List ℕ)) (out : List ℕ)
    → All Fits messages
    → frame_items messages out ≡ ok (out ++ items messages)
unfolding frame_items
frame_items-items [] out h = ap ok (sym (append-nil out))
frame_items-items (msg ∷ messages) out h =
    let head = to_le_bytes 4 (length msg) in
    rw (to_u32-ok (length msg) h.0) (
      frame_items-items messages ((out ++ head) ++ msg) h.1
      ∙ ap ok (
          append_assoc (out ++ head) msg (items messages)
          ∙ append_assoc out head (msg ++ items messages)))

abbrev pub header : ℕ → List ℕ
header count = (range_magic ++ to_le_bytes 2 range_version) ++ to_le_bytes 4 count

pub frame_range-header :
    (messages : List (List ℕ))
    → length messages < 2 ^ 32
    → All Fits messages
    → frame_range messages ≡ ok (header (length messages) ++ items messages)
unfolding frame_range
frame_range-header messages n h =
    rw (to_u32-ok (length messages) n) (frame_items-items messages (header (length messages)) h)

-- A slice of what is ahead.
pub slice-drop :
    (bytes : List ℕ) (pos n : ℕ) (xs ys : List ℕ)
    → drop pos bytes ≡ xs ++ ys
    → length xs ≡ n
    → (slice bytes pos (pos + n) ≡ xs) × (drop (pos + n) bytes ≡ ys)
slice-drop bytes pos n xs ys e l =
    let w : pos + n - pos ≡ n = omega arith in
    (rw (w, e) (take_prefix n xs ys l), sym (drop-drop pos n bytes) ∙ rw e (drop_prefix n xs ys l))

within :
    (bytes : List ℕ) (pos n : ℕ) (xs ys : List ℕ)
    → pos ≤ length bytes
    → drop pos bytes ≡ xs ++ ys
    → length xs ≡ n
    → pos + n ≤ length bytes
within bytes pos n xs ys p e l =
    omega (arith, ap length e, length-drop pos bytes, length-append xs ys)

parse_items_step :
    (bytes : List ℕ) (count pos : ℕ) (out : List (List ℕ)) (msg ys : List ℕ)
    → length msg < 2 ^ 32
    → pos ≤ length bytes
    → drop pos bytes ≡ to_le_bytes 4 (length msg) ++ (msg ++ ys)
    → (parse_items bytes (suc count) pos out
        ≡ parse_items bytes count (pos + 4 + length msg) (out ++ msg ∷ []))
      × (drop (pos + 4 + length msg) bytes ≡ ys)
      × (pos + 4 + length msg ≤ length bytes)
unfolding parse_items
parse_items_step bytes count pos out msg ys h p e =
    let head = to_le_bytes 4 (length msg) in
    let (s, d) = slice-drop bytes pos 4 head (msg ++ ys) e refl in
    let b = within bytes pos 4 head (msg ++ ys) p e refl in
    let (s', d') = slice-drop bytes (pos + 4) (length msg) msg ys d refl in
    let b' = within bytes (pos + 4) (length msg) msg ys b d refl in
    (
      rw
          (
            le→leb (pos + 4) (length bytes) b,
            s,
            read_u32_le-to_le (length msg) h,
            le→leb (pos + 4 + length msg) (length bytes) b',
            s',
          )
          refl,
      d',
      b',
    )

pub parse_items-items :
    (bytes : List ℕ) (messages : List (List ℕ)) (pos : ℕ) (out : List (List ℕ)) (rest : List ℕ)
    → All Fits messages
    → pos ≤ length bytes
    → drop pos bytes ≡ items messages ++ rest
    → (pos' : ℕ) × (parse_items bytes (length messages) pos out ≡ ok (pos', out ++ messages))
      × (drop pos' bytes ≡ rest)
      × (pos' ≤ length bytes)
unfolding parse_items
parse_items-items bytes [] pos out rest h p e =
    (pos, ap (λ (x : List (List ℕ)). ok (pos, x)) (sym (append-nil out)), e, p)
parse_items-items bytes (msg ∷ messages) pos out rest h p e =
    let head = to_le_bytes 4 (length msg) in
    let e' : drop pos bytes ≡ head ++ (msg ++ (items messages ++ rest)) =
      e
      ∙ append_assoc head (msg ++ items messages) rest
      ∙ ap (◌++◌ head) (append_assoc msg (items messages) rest) in
    let (step, ahead, b) =
      parse_items_step bytes (length messages) pos out msg (items messages ++ rest) h.0 p e' in
    let (pos', ih, left, b') =
      parse_items-items bytes messages (pos + 4 + length msg) (out ++ msg ∷ []) rest h.1 b ahead in
    (
      pos',
      step ∙ ih ∙ ap (λ (x : List (List ℕ)). ok (pos', x)) (append_assoc out (msg ∷ []) messages),
      left,
      b',
    )

at_end : (bytes : List ℕ) (pos : ℕ) → drop pos bytes ≡ [] → pos ≤ length bytes → pos ≡ length bytes
at_end bytes pos e h = omega (arith, ap length e, length-drop pos bytes)

version_reads : read_u16_le (1 ∷ 0 ∷ []) ≡ ok 1
unfolding read_u16_le
version_reads = refl

parse_header :
    (bytes : List ℕ) (count : ℕ) (rest : List ℕ)
    → count < 2 ^ 32
    → bytes ≡ header count ++ rest
    → (10 ≤ length bytes)
      × (parse_range bytes ≡ (
          parse_items bytes count 10 [] >>= λ r.
          ensure (r.0 == length bytes) trailing_bytes >> ok r.1))
unfolding parse_range same_bytes
parse_header bytes count rest h e =
    let b : 10 ≤ length bytes = omega (arith, ap length e) in
    (b, rw (le→leb 10 (length bytes) b, e, version_reads, read_u32_le-to_le count h) refl)

-- On at most 2 ^ 32 - 1 messages, each of a length below 2 ^ 32, `frame_range` returns a frame, and
-- `parse_range` reads exactly those messages back from it.
pub parse-frame :
    (messages : List (List ℕ))
    → length messages < 2 ^ 32
    → All Fits messages
    → (bytes : List ℕ) × (frame_range messages ≡ ok bytes) × (parse_range bytes ≡ ok messages)
parse-frame messages n h =
    let bytes = header (length messages) ++ items messages in
    let (b, e) = parse_header bytes (length messages) (items messages) n refl in
    let (pos, got, left, w) =
      parse_items-items bytes messages 10 [] [] h b (sym (append-nil (items messages))) in
    (
      bytes,
      frame_range-header messages n h,
      e ∙ rw (got, at_end bytes pos left w, ==_refl (length bytes)) refl,
    )
