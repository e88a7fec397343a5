-- ===== src/Attestation/Verdict.antt =====
-- What the attestation checks decide: acceptance against the documented layout, the errors, the
-- absence of panics, and the fields that do not count.
use solana_sas_extension.Prelude.{
  ℕ, ◌+◌, ◌^◌, ◌<◌, ◌≡◌, ◌↔◌, ◌⊎◌, inl, inr, Bool-cases, leb, length, arith,
}
use solana_sas_extension.Prelude.Int.{ℤ, pos, ◌<ℤ◌}
use solana_sas_extension.HookError.{Error, hook, invalid_attestation, attestation_expired}
use solana_sas_extension.Result.{Result, ok, err, Result-cases, ok_of_bind}
use solana_sas_extension.Solana.{Bytes}
use solana_sas_extension.Attestation.{
  index, slice, read_data_len, read_expiry, check_expiry, verify,
}
use solana_sas_extension.Attestation.Words.{AreBytes}
use solana_sas_extension.Attestation.Layout.{Attestation, IsWellFormed, encode}
use solana_sas_extension.Attestation.Format.{read_expiry-encode}
use solana_sas_extension.Attestation.Access.{add_usize-eq-ok, slice-eq-ok}
use solana_sas_extension.Attestation.Soundness.{read_expiry_sound, read_data_len-inv, word-lt}

-- An expiry that counts as valid at the time `now`.
abbrev pub IsLive : ℤ → ℤ → Type 0
IsLive now expiry = (expiry ≡ pos 0) ⊎ (now <ℤ expiry)

-- The data of an attestation that is live at the time `now`.
abbrev pub HoldsLive : Bytes → ℤ → Type 0
HoldsLive d now =
    (a : Attestation) × (rest : Bytes) × IsWellFormed a × (d ≡ encode a rest) × IsLive now a.expiry

check_expiry-IsLive : (now z : ℤ) → (check_expiry (ok now) z ≡ ok tt) ↔ IsLive now z
unfolding check_expiry
check_expiry-IsLive now z = (λ h. ground arith, λ h. ground arith)

-- Reading an attestation's data back and checking its expiry is all that the checks do.
pub verify-encode :
    (a : Attestation) (rest : Bytes) (clock : Result ℤ)
    → IsWellFormed a
    → verify (encode a rest) clock ≡ check_expiry clock a.expiry
unfolding verify
verify-encode a rest clock wf = rw (read_expiry-encode a rest wf)

-- Data is accepted exactly when it holds an attestation that is live.
pub verify-HoldsLive :
    (d : Bytes) (now : ℤ) → AreBytes d → (verify d (ok now) ≡ ok tt) ↔ HoldsLive d now
unfolding verify
verify-HoldsLive d now are = (
  λ h.
      let (z, read, live) = ok_of_bind (read_expiry d) (check_expiry (ok now)) h in
      let (a, rest, wf, shape, expiry) = read_expiry_sound d z are read in
      (a, rest, wf, shape, rw expiry ((check_expiry-IsLive now z).0 live)),
  λ (a, rest, wf, shape, live).
      rw (shape, read_expiry-encode a rest wf) ((check_expiry-IsLive now a.expiry).1 live),
)

read_data_len_errors :
    (d : Bytes) (e : Error) → read_data_len d ≡ err e → e ≡ hook invalid_attestation
unfolding read_data_len index slice
read_data_len_errors d e h = ground arith

-- No sum overflows behind a 32-bit length, and no slice is out of bounds.
read_behind_len_errors :
    (d : Bytes) (n : ℕ) (e : Error)
    → read_data_len d ≡ ok n
    → n < 2 ^ 32
    → read_expiry d ≡ err e
    → e ≡ hook invalid_attestation
unfolding read_expiry
read_behind_len_errors d n e p small h =
    let at_slice =
      rw
        (
          p,
          add_usize-eq-ok 101 n (omega arith),
          add_usize-eq-ok (101 + n) 32 (omega arith),
          add_usize-eq-ok (101 + n + 32) 8 (omega arith),
        )
        at h in
    elim (Bool-cases (leb (101 + n + 32 + 8) (length d))) [
      | inl fits ↦
          let stop =
            rw (fits, slice-eq-ok d (101 + n + 32) (101 + n + 32 + 8) (omega arith) (ground arith))
              at at_slice in
          absurd (cc stop)
      | inr short ↦ let stop = rw short at at_slice in cc stop
    ]

-- No read panics, whatever the bytes: the only error is `InvalidAttestation`.
pub read_expiry_errors :
    (d : Bytes) (e : Error) → AreBytes d → read_expiry d ≡ err e → e ≡ hook invalid_attestation
unfolding read_expiry
read_expiry_errors d e are h = elim (Result-cases (read_data_len d)) [
  | inl (x, p) ↦ ground (arith, read_data_len_errors d x)
  | inr (n, p) ↦
      let (_, long, len) = read_data_len-inv d n p in
      let small : n < 2 ^ 32 = omega (arith, word-lt d 97 4 are) in
      read_behind_len_errors d n e p small h
]

-- With a clock the checks return, with one of two errors at most.
pub verify_errors :
    (d : Bytes) (now : ℤ) (e : Error)
    → AreBytes d
    → verify d (ok now) ≡ err e
    → (e ≡ hook invalid_attestation) ⊎ (e ≡ hook attestation_expired)
unfolding verify check_expiry
verify_errors d now e are h = elim (Result-cases (read_expiry d)) [
  | inl (x, p) ↦ ground (arith, read_expiry_errors d x are p)
  | inr (z, p) ↦ ground arith
]

-- Two attestations with one expiry are not told apart, whatever else they hold.
pub verify-same_expiry :
    (a b : Attestation) (rest rest' : Bytes) (clock : Result ℤ)
    → IsWellFormed a
    → IsWellFormed b
    → a.expiry ≡ b.expiry
    → verify (encode a rest) clock ≡ verify (encode b rest') clock
verify-same_expiry a b rest rest' clock wa wb same =
    rw (verify-encode a rest clock wa, verify-encode b rest' clock wb, same)
