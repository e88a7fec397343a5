-- ===== src/Attestation/Access.antt =====
-- The byte accesses of the checks: a slice that stands in the data is returned, and a sum that
-- fits does not overflow.
use solana_sas_extension.Prelude.{
  ℕ, ◌+◌, ◌-◌, ◌^◌, ◌≤◌, ◌<◌, ◌≡◌, ap, ◌∷◌, ◌++◌, take, drop, length, arith, length-append,
  take-append, drop-append,
}
use solana_sas_extension.Result.{ok}
use solana_sas_extension.Solana.{Bytes}
use solana_sas_extension.Attestation.{index, slice, add_usize}

pub index-zero : (x : ℕ) (d : Bytes) → index (x ∷ d) 0 ≡ ok x
unfolding index
index-zero x d = ground arith

pub add_usize-eq-ok : (a b : ℕ) → a + b < 2 ^ 64 → add_usize a b ≡ ok (a + b)
unfolding add_usize
add_usize-eq-ok a b h = ground arith

pub slice-eq-ok :
    (d : Bytes) (a b : ℕ) → a ≤ b → b ≤ length d → slice d a b ≡ ok (take (b - a) (drop a d))
unfolding slice
slice-eq-ok d a b h k = ground arith

pub slice-append :
    (p w t : Bytes) (a b : ℕ) → length p ≡ a → a + length w ≡ b → slice (p ++ (w ++ t)) a b ≡ ok w
slice-append p w t a b ha hb =
    let total : length (p ++ (w ++ t)) ≡ b + length t =
      omega (arith, length-append p (w ++ t), length-append w t) in
    let width : length w ≡ b - a = omega arith in
    rw (slice-eq-ok (p ++ (w ++ t)) a b (omega arith) (omega arith), drop-append a p (w ++ t) ha)
      (ap ok (take-append (b - a) w t width))
