-- ===== src/ScriptTypes/Merge.antt =====
-- stats/src/script.rs: merging the counters of two runs.
use bitcoin_data.Base.{List, [], add_u64, ap, arith, bytes_keyed, refl, ℕ, ◌++◌, ◌∙◌, ◌∷◌, ◌≡◌}
use bitcoin_data.ScriptTypes.{
  ScriptType, TypeCounts, no_counts, record_type, merge_counts, p2pk, p2pkh, p2sh, p2wpkh, p2wsh,
  p2tr, p2a, op_return, unknown,
}

-- Counters after the types of a list were recorded one by one.
unfoldable pub record_types : TypeCounts → List ScriptType → TypeCounts
unfolding record_type
record_types c [] = c
record_types c (t ∷ ts) = record_types (record_type c t) ts

add_u64-right : (a b : ℕ) → add_u64 a (add_u64 b 1) ≡ add_u64 (add_u64 a b) 1
add_u64-right a b = omega arith

add_u64-left : (a b : ℕ) → add_u64 (add_u64 a 1) b ≡ add_u64 (add_u64 a b) 1
add_u64-left a b = omega arith

pub merge-record_right :
    (c d : TypeCounts) (t : ScriptType)
    → merge_counts c (record_type d t) ≡ record_type (merge_counts c d) t
unfolding merge_counts record_type
merge-record_right c d p2pk =
    ap (λ (n : ℕ). record (merge_counts c d) { p2pk_count = n })
      (add_u64-right c.p2pk_count d.p2pk_count)
merge-record_right c d p2pkh =
    ap (λ (n : ℕ). record (merge_counts c d) { p2pkh_count = n })
      (add_u64-right c.p2pkh_count d.p2pkh_count)
merge-record_right c d p2sh =
    ap (λ (n : ℕ). record (merge_counts c d) { p2sh_count = n })
      (add_u64-right c.p2sh_count d.p2sh_count)
merge-record_right c d p2wpkh =
    ap (λ (n : ℕ). record (merge_counts c d) { p2wpkh_count = n })
      (add_u64-right c.p2wpkh_count d.p2wpkh_count)
merge-record_right c d p2wsh =
    ap (λ (n : ℕ). record (merge_counts c d) { p2wsh_count = n })
      (add_u64-right c.p2wsh_count d.p2wsh_count)
merge-record_right c d p2tr =
    ap (λ (n : ℕ). record (merge_counts c d) { p2tr_count = n })
      (add_u64-right c.p2tr_count d.p2tr_count)
merge-record_right c d p2a =
    ap (λ (n : ℕ). record (merge_counts c d) { p2a_count = n })
      (add_u64-right c.p2a_count d.p2a_count)
merge-record_right c d op_return =
    ap (λ (n : ℕ). record (merge_counts c d) { op_return_count = n })
      (add_u64-right c.op_return_count d.op_return_count)
merge-record_right c d unknown =
    ap (λ (n : ℕ). record (merge_counts c d) { unknown_count = n })
      (add_u64-right c.unknown_count d.unknown_count)

merge-record_left :
    (c d : TypeCounts) (t : ScriptType)
    → merge_counts (record_type c t) d ≡ record_type (merge_counts c d) t
unfolding merge_counts record_type
merge-record_left c d p2pk =
    ap (λ (n : ℕ). record (merge_counts c d) { p2pk_count = n })
      (add_u64-left c.p2pk_count d.p2pk_count)
merge-record_left c d p2pkh =
    ap (λ (n : ℕ). record (merge_counts c d) { p2pkh_count = n })
      (add_u64-left c.p2pkh_count d.p2pkh_count)
merge-record_left c d p2sh =
    ap (λ (n : ℕ). record (merge_counts c d) { p2sh_count = n })
      (add_u64-left c.p2sh_count d.p2sh_count)
merge-record_left c d p2wpkh =
    ap (λ (n : ℕ). record (merge_counts c d) { p2wpkh_count = n })
      (add_u64-left c.p2wpkh_count d.p2wpkh_count)
merge-record_left c d p2wsh =
    ap (λ (n : ℕ). record (merge_counts c d) { p2wsh_count = n })
      (add_u64-left c.p2wsh_count d.p2wsh_count)
merge-record_left c d p2tr =
    ap (λ (n : ℕ). record (merge_counts c d) { p2tr_count = n })
      (add_u64-left c.p2tr_count d.p2tr_count)
merge-record_left c d p2a =
    ap (λ (n : ℕ). record (merge_counts c d) { p2a_count = n })
      (add_u64-left c.p2a_count d.p2a_count)
merge-record_left c d op_return =
    ap (λ (n : ℕ). record (merge_counts c d) { op_return_count = n })
      (add_u64-left c.op_return_count d.op_return_count)
merge-record_left c d unknown =
    ap (λ (n : ℕ). record (merge_counts c d) { unknown_count = n })
      (add_u64-left c.unknown_count d.unknown_count)

merge-types_right :
    (c d : TypeCounts) (ts : List ScriptType)
    → merge_counts c (record_types d ts) ≡ record_types (merge_counts c d) ts
unfolding record_types
merge-types_right c d [] = refl
merge-types_right c d (t ∷ ts) =
    merge-types_right c (record_type d t) ts
    ∙ ap (λ (x : TypeCounts). record_types x ts) (merge-record_right c d t)

merge-types_left :
    (c d : TypeCounts) (ts : List ScriptType)
    → merge_counts (record_types c ts) d ≡ record_types (merge_counts c d) ts
unfolding record_types
merge-types_left c d [] = refl
merge-types_left c d (t ∷ ts) =
    merge-types_left (record_type c t) d ts
    ∙ ap (λ (x : TypeCounts). record_types x ts) (merge-record_left c d t)

record_types-append :
    (c : TypeCounts) (ts us : List ScriptType)
    → record_types (record_types c ts) us ≡ record_types c (ts ++ us)
unfolding record_types
record_types-append c [] us = refl
record_types-append c (t ∷ ts) us = record_types-append (record_type c t) ts us

nothing : merge_counts no_counts no_counts ≡ no_counts
unfolding merge_counts
nothing = refl

-- Merging the counters of two lists of scripts gives the counters of the scripts of both, wrapping
-- at 64 bits included.
pub merge_counts-append :
    (ts us : List ScriptType)
    → merge_counts (record_types no_counts ts) (record_types no_counts us)
      ≡ record_types no_counts (ts ++ us)
merge_counts-append ts us =
    merge-types_right (record_types no_counts ts) no_counts us
    ∙ ap (λ (x : TypeCounts). record_types x us)
        (merge-types_left no_counts no_counts ts
          ∙ ap (λ (x : TypeCounts). record_types x ts) nothing)
    ∙ record_types-append no_counts ts us
