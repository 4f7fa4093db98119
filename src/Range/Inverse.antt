-- ===== src/Range/Inverse.antt =====
-- light-server/src/range.rs: what `parse_range` accepts.
use bitcoin_data.Base.{
  ==_iff, >>=-eq-ok, All, All-drop, All-take, Bool-cases, List, [], ap, append-nil, append_assoc,
  arith, bytes_keyed, drop, drop-drop, drop-length, ensure-eq-ok, err-ne-ok, inl, inr, leb, leb→le,
  length, length-drop, length-take, ok, ok-injective, refl, same_bytes, same_bytes-eq, subst, suc,
  sym, take, take-append-drop, zero, ℕ, ◌++◌, ◌+◌, ◌-◌, ◌<◌, ◌==◌, ◌^◌, ◌∙◌, ◌∷◌, ◌≡◌, ◌≤◌,
}
use bitcoin_data.Helper.{IsByte, to_le_bytes, slice, read_u32_le, read_u16_le, from_le_bytes}
use bitcoin_data.Helper.Endian.{read_u32_le-eq, read_u16_le-eq, to_le-from_le, from_le-lt}
use bitcoin_data.Range.{
  trailing_bytes, unsupported_version, bad_magic, too_short, frame_range, parse_items, parse_range,
  lift, range_magic, range_version,
}
use bitcoin_data.Range.Frame.{Fits, items, header, frame_range-header}

length-slice :
    (bytes : List ℕ) (pos n : ℕ) → pos + n ≤ length bytes → length (slice bytes pos (pos + n)) ≡ n
length-slice bytes pos n h =
    let w : pos + n - pos ≡ n = omega arith in
    rw w (omega (arith, length-take n (drop pos bytes), length-drop pos bytes))

slice-append-drop :
    (bytes : List ℕ) (pos n : ℕ)
    → drop pos bytes ≡ slice bytes pos (pos + n) ++ drop (pos + n) bytes
slice-append-drop bytes pos n =
    let w : pos + n - pos ≡ n = omega arith in
    rw w (
      sym (take-append-drop n (drop pos bytes))
      ∙ ap (◌++◌ (take n (drop pos bytes))) (drop-drop pos n bytes))

slice-IsByte : (bytes : List ℕ) (from to : ℕ) → All IsByte bytes → All IsByte (slice bytes from to)
slice-IsByte bytes from to h =
    All-take IsByte (to - from) (drop from bytes) (All-drop IsByte from bytes h)

-- What a round of `parse_items` that succeeds has tested, and what it leaves to the next.
record Round (bytes : List ℕ) (count pos : ℕ) (out : List (List ℕ)) (end : ℕ × List (List ℕ))
    : Type 0 where
  len : ℕ
  has_length : pos + 4 ≤ length bytes
  len_is : len ≡ from_le_bytes (slice bytes pos (pos + 4))
  has_body : pos + 4 + len ≤ length bytes
  next :
      parse_items bytes count (pos + 4 + len) (out ++ slice bytes (pos + 4) (pos + 4 + len) ∷ [])
      ≡ ok end

round :
    (bytes : List ℕ) (count pos : ℕ) (out : List (List ℕ)) (end : ℕ × List (List ℕ))
    → parse_items bytes (suc count) pos out ≡ ok end
    → Round bytes count pos out end
unfolding parse_items
round bytes count pos out end e = elim (Bool-cases (leb (pos + 4) (length bytes))) [
  | inr cut ↦ absurd (ground (arith, cut))
  | inl fits ↦
      let l4 = length-slice bytes pos 4 (leb→le (pos + 4) (length bytes) fits) in
      let len = from_le_bytes (slice bytes pos (pos + 4)) in
      let e' = rw (fits, read_u32_le-eq (slice bytes pos (pos + 4)) l4) at e in
      elim (Bool-cases (leb (pos + 4 + len) (length bytes))) [
        | inr cut ↦ absurd (err-ne-ok (rw cut at e'))
        | inl whole ↦ record {
          len = len;
          has_length = leb→le (pos + 4) (length bytes) fits;
          len_is = refl;
          has_body = leb→le (pos + 4 + len) (length bytes) whole;
          next = rw whole at e';
        }
      ]
]

-- The messages that a run of `parse_items` has added, and the bytes that they came from.
record Parsed (bytes : List ℕ) (count pos : ℕ) (out : List (List ℕ)) (end : ℕ × List (List ℕ))
    : Type 0 where
  messages : List (List ℕ)
  added : end.1 ≡ out ++ messages
  counted : length messages ≡ count
  fit : All Fits messages
  source : drop pos bytes ≡ items messages ++ drop end.0 bytes
  inside : end.0 ≤ length bytes

extend :
    (bytes : List ℕ) (count pos : ℕ) (out : List (List ℕ)) (end : ℕ × List (List ℕ))
    → All IsByte bytes
    → (r : Round bytes count pos out end)
    → Parsed bytes count (pos + 4 + r.len) (out ++ slice bytes (pos + 4) (pos + 4 + r.len) ∷ []) end
    → Parsed bytes (suc count) pos out end
extend bytes count pos out end h r p =
    let msg = slice bytes (pos + 4) (pos + 4 + r.len) in
    let l : length msg ≡ r.len = length-slice bytes (pos + 4) r.len r.has_body in
    let l4 = length-slice bytes pos 4 r.has_length in
    let head = slice bytes pos (pos + 4) in
    let head_bytes = slice-IsByte bytes pos (pos + 4) h in
    let w : to_le_bytes 4 (length msg) ≡ head =
      ap (to_le_bytes 4) (l ∙ r.len_is) ∙ rw l4 at (to_le-from_le head head_bytes) in
    record {
      messages = msg ∷ p.messages;
      added = p.added ∙ append_assoc out (msg ∷ []) p.messages;
      counted = ap suc p.counted;
      fit = (omega (arith, l, r.len_is, rw l4 at (from_le-lt head head_bytes)), p.fit);
      source =
          slice-append-drop bytes pos 4
          ∙ ap (◌++◌ head) (
              slice-append-drop bytes (pos + 4) r.len
              ∙ ap (◌++◌ msg) p.source
              ∙ sym (append_assoc msg (items p.messages) (drop end.0 bytes)))
          ∙ ap (λ (t : List ℕ). t ++ ((msg ++ items p.messages) ++ drop end.0 bytes)) (sym w);
      inside = p.inside;
    }

parse_items-Parsed :
    (bytes : List ℕ) (count pos : ℕ) (out : List (List ℕ)) (end : ℕ × List (List ℕ))
    → All IsByte bytes
    → pos ≤ length bytes
    → parse_items bytes count pos out ≡ ok end
    → Parsed bytes count pos out end
unfolding parse_items
parse_items-Parsed bytes zero pos out end h b e =
    let q : pos ≡ end.0 = ground (arith, e) in
    let o : out ≡ end.1 = ground (arith, e) in
    record {
      messages = [];
      added = sym o ∙ sym (append-nil out);
      counted = refl;
      fit = tt;
      source = ap (λ (n : ℕ). drop n bytes) q;
      inside = omega (arith, q);
    }
parse_items-Parsed bytes (suc count) pos out end h b e =
    let r = round bytes count pos out end e in
    extend bytes count pos out end h r
      (parse_items-Parsed bytes count (pos + 4 + r.len) _ end h r.has_body r.next)

-- The tests that `parse_range` has passed where it succeeds.
record Accepted (bytes : List ℕ) (messages : List (List ℕ)) : Type 0 where
  count : ℕ
  long_enough : 10 ≤ length bytes
  magic : slice bytes 0 4 ≡ range_magic
  version : from_le_bytes (slice bytes 4 6) ≡ range_version
  count_is : count ≡ from_le_bytes (slice bytes 6 10)
  parsed : parse_items bytes count 10 [] ≡ ok (length bytes, messages)

Σ_end :
    (end : ℕ × List (List ℕ)) {n : ℕ} {messages : List (List ℕ)}
    → end.0 ≡ n
    → end.1 ≡ messages
    → end ≡ (n, messages)
Σ_end end p q = cc

accepted :
    (bytes : List ℕ) (messages : List (List ℕ))
    → parse_range bytes ≡ ok messages
    → Accepted bytes messages
unfolding parse_range
accepted bytes messages e =
    let (e₁, f₁) = ensure-eq-ok (leb 10 (length bytes)) too_short _ e in
    let b = leb→le 10 (length bytes) e₁ in
    let (e₂, f₂) = ensure-eq-ok (same_bytes (slice bytes 0 4) range_magic) bad_magic _ f₁ in
    let (v, e₃, f₃) = >>=-eq-ok (lift (read_u16_le (slice bytes 4 6))) _ f₂ in
    let (e₄, f₄) = ensure-eq-ok (v == range_version) (unsupported_version v) _ f₃ in
    let (n, e₅, f₅) = >>=-eq-ok (lift (read_u32_le (slice bytes 6 10))) _ f₄ in
    let (end, e₆, f₆) = >>=-eq-ok (parse_items bytes n 10 []) _ f₅ in
    let (e₇, f₇) = ensure-eq-ok (end.0 == length bytes) trailing_bytes _ f₆ in
    let l2 = length-slice bytes 4 2 (omega (arith, b)) in
    let l4 = length-slice bytes 6 4 (omega (arith, b)) in
    record {
      count = n;
      long_enough = b;
      magic = same_bytes-eq _ _ e₂;
      version =
          ok-injective (rw (read_u16_le-eq (slice bytes 4 6) l2) at e₃)
          ∙ (==_iff v range_version).0 e₄;
      count_is = sym (ok-injective (rw (read_u32_le-eq (slice bytes 6 10) l4) at e₅));
      parsed = e₆ ∙ ap ok (Σ_end end ((==_iff end.0 (length bytes)).0 e₇) (ok-injective f₇));
    }

-- The frame that was read is the header of its messages, and then the messages.
Accepted-bytes :
    (bytes : List ℕ) (messages : List (List ℕ))
    → All IsByte bytes
    → (a : Accepted bytes messages) → bytes ≡ header a.count ++ drop 10 bytes
Accepted-bytes bytes messages h a =
    let version : slice bytes 4 6 ≡ to_le_bytes 2 range_version =
      sym (
        rw (length-slice bytes 4 2 (omega (arith, a.long_enough))) at
          (to_le-from_le (slice bytes 4 6) (slice-IsByte bytes 4 6 h)))
      ∙ ap (to_le_bytes 2) a.version in
    let count : slice bytes 6 10 ≡ to_le_bytes 4 a.count =
      sym (
        rw (length-slice bytes 6 4 (omega (arith, a.long_enough))) at
          (to_le-from_le (slice bytes 6 10) (slice-IsByte bytes 6 10 h)))
      ∙ ap (to_le_bytes 4) (sym a.count_is) in
    slice-append-drop bytes 0 4
    ∙ ap (λ (t : List ℕ). t ++ drop 4 bytes) a.magic
    ∙ ap (◌++◌ range_magic) (
        slice-append-drop bytes 4 2
        ∙ ap (λ (t : List ℕ). t ++ drop 6 bytes) version
        ∙ ap (◌++◌ (to_le_bytes 2 range_version))
            (slice-append-drop bytes 6 4 ∙ ap (λ (t : List ℕ). t ++ drop 10 bytes) count))

-- Whatever bytes `parse_range` accepts, they are the frame of the messages that it returns: there
-- are at most 2 ^ 32 - 1 of these, each of a length below 2 ^ 32, and `frame_range` on them gives
-- the same bytes back.
pub frame-parse :
    (bytes : List ℕ) (messages : List (List ℕ))
    → All IsByte bytes
    → parse_range bytes ≡ ok messages
    → (length messages < 2 ^ 32) × All Fits messages × (frame_range messages ≡ ok bytes)
frame-parse bytes messages h e =
    let a = accepted bytes messages e in
    let p =
      parse_items-Parsed bytes a.count 10 [] (length bytes, messages) h a.long_enough a.parsed in
    let small : a.count < 2 ^ 32 = omega (
      arith,
      a.count_is,
      rw (length-slice bytes 6 4 (omega (arith, a.long_enough))) at
          (from_le-lt (slice bytes 6 10) (slice-IsByte bytes 6 10 h)),
    ) in
    let n : length messages < 2 ^ 32 = omega (arith, ap length p.added, p.counted) in
    let fit = subst (All Fits) (sym p.added) p.fit in
    let same : header (length messages) ++ items messages ≡ bytes =
      rw (p.added, p.counted)
        (ap (◌++◌ (header a.count))
          (sym (append-nil (items p.messages)) ∙ rw (drop-length bytes) at (sym p.source)))
      ∙ sym (Accepted-bytes bytes messages h a) in
    (n, fit, frame_range-header messages n fit ∙ ap ok same)
