-- ===== src/Tests/Frames.antt =====
-- Runs of the byte formats: range frames, undo data and prevout entries.
use bitcoin_data.Base.{
  All, List, [], arith, bytes_keyed, err, length, ok, refl, replicate, same_bytes, ℕ, ◌++◌, ◌<◌,
  ◌==◌, ◌^◌, ◌∷◌, ◌≡◌,
}
use bitcoin_data.Helper.{IsByte, read_u16_le, read_u32_le}
use bitcoin_data.Range.{frame_range, parse_range}
use bitcoin_data.Range.Frame.{Fits, parse-frame}
use bitcoin_data.Range.Inverse.{frame-parse}
use bitcoin_data.Undo.{
  BlockSpentTxOuts, decode_spent_txouts_payload, capacity_overflow, trailing_bytes,
}
use bitcoin_data.Undo.Reading.{compact_size}
use bitcoin_data.Undo.RoundTrip.{payload, decode-payload, decode_huge_count}
use bitcoin_data.Prevout.{
  Curve, pay_pubkey_hash, pay_taproot, encode_prevout_entry, decode_prevout_entry,
}
use bitcoin_data.Prevout.RoundTrip.{IsStored, decode-encode_prevout_entry, decode_earlier_layout}

abbrev two_messages : List (List ℕ)
two_messages = (1 ∷ 2 ∷ []) ∷ [] ∷ []

parse-frame_example :
    (bytes : List ℕ) × (frame_range two_messages ≡ ok bytes) × (parse_range bytes ≡ ok two_messages)
parse-frame_example = parse-frame two_messages (omega arith) (omega arith, (omega arith, tt))

abbrev one_frame : List ℕ
one_frame = 66 ∷ 68 ∷ 83 ∷ 82 ∷ 1 ∷ 0 ∷ 1 ∷ 0 ∷ 0 ∷ 0 ∷ 1 ∷ 0 ∷ 0 ∷ 0 ∷ 9 ∷ []

one_frame-IsByte : All IsByte one_frame
one_frame-IsByte = (
  omega arith,
  (
    omega arith,
    (
      omega arith,
      (
        omega arith,
        (
          omega arith,
          (
            omega arith,
            (
              omega arith,
              (
                omega arith,
                (
                  omega arith,
                  (
                    omega arith,
                    (omega arith, (omega arith, (omega arith, (omega arith, (omega arith, tt))))),
                  ),
                ),
              ),
            ),
          ),
        ),
      ),
    ),
  ),
)

frame-parse_example :
    (1 < 2 ^ 32) × All Fits ((9 ∷ []) ∷ []) × (frame_range ((9 ∷ []) ∷ []) ≡ ok one_frame)
unfolding parse_range same_bytes read_u16_le read_u32_le
frame-parse_example = frame-parse one_frame ((9 ∷ []) ∷ []) one_frame-IsByte refl

abbrev small_undo : BlockSpentTxOuts
small_undo = record {
  txs = [] ∷ (record { value_sat = 1309258; script_pubkey = 81 ∷ 32 ∷ [] } ∷ []) ∷ [];
}

decode-payload_example :
    decode_spent_txouts_payload (payload small_undo ++ 5 ∷ []) ≡ err (trailing_bytes 1)
decode-payload_example =
    decode-payload small_undo (5 ∷ [])
      (omega arith, ((omega arith, tt), ((omega arith, ((omega arith, omega arith), tt)), tt)))

decode_huge_count_example :
    decode_spent_txouts_payload (compact_size (2 ^ 60) ++ []) ≡ err capacity_overflow
decode_huge_count_example = decode_huge_count (2 ^ 60) [] (omega arith) (omega arith)

abbrev any_key : Curve
any_key = record { is_xonly_key = λ bytes. length bytes == 32 }

decode-encode_prevout_entry_example :
    decode_prevout_entry any_key (encode_prevout_entry (pay_taproot (replicate 32 7)))
    ≡ ok (pay_taproot (replicate 32 7))
unfolding IsStored
decode-encode_prevout_entry_example =
    decode-encode_prevout_entry any_key (pay_taproot (replicate 32 7)) (refl, refl)

decode_earlier_layout_example :
    decode_prevout_entry any_key
      (replicate 8 1 ++ encode_prevout_entry (pay_pubkey_hash (replicate 20 7)))
    ≡ ok (pay_pubkey_hash (replicate 20 7))
unfolding IsStored encode_prevout_entry
decode_earlier_layout_example =
    decode_earlier_layout any_key (replicate 8 1) (pay_pubkey_hash (replicate 20 7)) refl refl
      (omega arith)
