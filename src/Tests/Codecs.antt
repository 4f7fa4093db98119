-- ===== src/Tests/Codecs.antt =====
-- Runs of light-server/src/codec.
use bitcoin_data.Base.{
  All, IsU64, List, [], arith, bytes_keyed, ok, refl, replicate, some, ℕ, ◌%◌, ◌++◌, ◌<◌, ◌^◌, ◌∷◌,
  ◌≡◌, ◌≤◌,
}
use bitcoin_data.Codec.Leb128.{encode_leb128_values, decode_leb128_values, decode_value}
use bitcoin_data.Codec.Leb128.RoundTrip.{decode_leb128_values-encode}
use bitcoin_data.Codec.Leb128.Bounds.{decode_value_takes}
use bitcoin_data.Codec.Leb128.Wraps.{IsContinued, number_of, decode_value_wraps}
use bitcoin_data.Codec.EliasDelta.{encode_elias_delta_values, decode_elias_delta_values}
use bitcoin_data.Codec.EliasDelta.RoundTrip.{decode_elias_delta_values-encode}
use bitcoin_data.Codec.EliasDelta.Total.{IsDecoded, decode-IsDecoded}

abbrev continued_129 : IsContinued 129
continued_129 = (omega arith, omega arith)

abbrev nine_continued : All IsContinued (replicate 9 129)
nine_continued = let c = continued_129 in (c, (c, (c, (c, (c, (c, (c, (c, (c, tt)))))))))

decode_leb128_values-encode_example :
    (bytes : List ℕ) × (encode_leb128_values (300 ∷ 5 ∷ []) ≡ some bytes)
    × (decode_leb128_values (bytes ++ 7 ∷ []) 2 ≡ ok (300 ∷ 5 ∷ []))
decode_leb128_values-encode_example =
    decode_leb128_values-encode (300 ∷ 5 ∷ []) (7 ∷ []) (omega arith, (omega arith, tt))
      (omega arith)

decode_value_takes_example : IsU64 300 × (1 < 3) × (3 ≤ 11)
unfolding decode_value
decode_value_takes_example = decode_value_takes (172 ∷ 2 ∷ 9 ∷ []) 300 (9 ∷ []) refl

decode_value_wraps_example :
    decode_value (replicate 9 129 ++ 3 ∷ 7 ∷ []) 0 0
    ≡ ok (number_of (replicate 9 129 ++ 3 ∷ []) % 2 ^ 64, 7 ∷ [])
decode_value_wraps_example =
    decode_value_wraps (replicate 9 129) 3 (7 ∷ []) nine_continued (omega arith) (omega arith)

decode_elias_delta_values-encode_example :
    (bytes : List ℕ) × (encode_elias_delta_values (1 ∷ 17 ∷ []) ≡ ok bytes)
    × (decode_elias_delta_values bytes 2 ≡ ok (1 ∷ 17 ∷ []))
decode_elias_delta_values-encode_example =
    decode_elias_delta_values-encode (1 ∷ 17 ∷ [])
      ((omega arith, omega arith), ((omega arith, omega arith), tt)) (omega arith)

decode-IsDecoded_example : IsDecoded 4 (decode_elias_delta_values (0 ∷ 0 ∷ 9 ∷ []) 4)
decode-IsDecoded_example = decode-IsDecoded (0 ∷ 0 ∷ 9 ∷ []) 4 (omega arith)
