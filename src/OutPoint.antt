-- ===== src/OutPoint.antt =====
-- light-server/src/p2tr_indexer.rs, `OutPointKey`: a transaction id of 32 bytes and an output index.
pub mod Live
use bitcoin_data.Base.{
  Keyed, ==_iff, ==_refl, Bool, List, ap, bytes_keyed, false, refl, replicate, same_bytes,
  same_bytes-eq, same_bytes_refl, subst, true, ℕ, ◌&&◌, ◌-◌, ◌==◌, ◌^◌, ◌∙◌, ◌≡◌,
}

pub record OutPoint : Type 0 where
  pub txid : List ℕ
  pub vout : ℕ

unfoldable pub is_coinbase : OutPoint → Bool
is_coinbase outpoint = outpoint.vout == 2 ^ 32 - 1 && same_bytes outpoint.txid (replicate 32 0)

-- The derived `PartialEq`.
unfoldable pub same_outpoint : OutPoint → OutPoint → Bool
same_outpoint a b = same_bytes a.txid b.txid && a.vout == b.vout

and-left : (a b : Bool) → (a && b) ≡ true → (a ≡ true) × (b ≡ true)
and-left true true e = (refl, refl)
and-left true false e = cc
and-left false b e = cc

abbrev outpoint_of : List ℕ → ℕ → OutPoint
outpoint_of txid vout = record { txid = txid; vout = vout }

pub same_outpoint-eq : (a b : OutPoint) → same_outpoint a b ≡ true → a ≡ b
unfolding same_outpoint
same_outpoint-eq a b e =
    let (txids, vouts) = and-left (same_bytes a.txid b.txid) (a.vout == b.vout) e in
    let p = same_bytes-eq a.txid b.txid txids in
    let q = (==_iff a.vout b.vout).0 vouts in
    ap (λ (t : List ℕ). outpoint_of t a.vout) p ∙ ap (outpoint_of b.txid) q

pub same_outpoint_refl : (a : OutPoint) → same_outpoint a a ≡ true
unfolding same_outpoint
same_outpoint_refl a = rw (same_bytes_refl a.txid, ==_refl a.vout) refl

instance unfoldable pub outpoint_keyed : Keyed OutPoint
outpoint_keyed = record {
  same = same_outpoint;
  same_iff = λ a b. (
    same_outpoint-eq a b,
    λ e. subst (λ (x : OutPoint). same_outpoint a x ≡ true) e (same_outpoint_refl a),
  );
}
