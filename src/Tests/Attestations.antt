-- ===== src/Tests/Attestations.antt =====
-- The attestation checks at concrete data.
use solana_sas_extension.Prelude.{◌≡◌, ◌⊎◌, ◌↔◌, refl, arith, [], ◌∷◌, ◌++◌, replicate}
use solana_sas_extension.Prelude.Int.{pos}
use solana_sas_extension.HookError.{Error, hook, invalid_attestation, attestation_expired}
use solana_sas_extension.Result.{ok, err}
use solana_sas_extension.Solana.{Bytes}
use solana_sas_extension.Attestation.{
  index, slice, add_usize, read_data_len, read_expiry, check_expiry, verify,
}
use solana_sas_extension.Attestation.Words.{AreBytes, to_le_bytes, from_le_bytes}
use solana_sas_extension.Attestation.Layout.{Attestation, IsWellFormed, encode}
use solana_sas_extension.Attestation.Format.{read_expiry-encode}
use solana_sas_extension.Attestation.Soundness.{read_expiry_sound}
use solana_sas_extension.Attestation.Verdict.{
  HoldsLive, verify-HoldsLive, read_expiry_errors, verify_errors, verify-same_expiry,
}

abbrev pub attestation : Attestation
attestation = record {
  nonce = replicate 32 1;
  credential = replicate 32 2;
  schema = replicate 32 3;
  payload = 7 ∷ 8 ∷ 9 ∷ [];
  signer = replicate 32 4;
  expiry = pos 2000;
}

-- The same expiry with another signer, credential and payload.
abbrev forged : Attestation
forged = record attestation { credential = replicate 32 0; signer = replicate 32 9; payload = [] }

abbrev pub is_well_formed : IsWellFormed attestation
is_well_formed = omega arith

abbrev forged_is_well_formed : IsWellFormed forged
forged_is_well_formed = omega arith

abbrev pub stored : Bytes
stored =
    2 ∷ (replicate 32 1 ++ replicate 32 2 ++ replicate 32 3)
    ++ (3 ∷ 0 ∷ 0 ∷ 0 ∷ 7 ∷ 8 ∷ 9 ∷ [])
    ++ replicate 32 4
    ++ (0xd0 ∷ 7 ∷ 0 ∷ 0 ∷ 0 ∷ 0 ∷ 0 ∷ 0 ∷ 5 ∷ [])

stored_is : encode attestation (5 ∷ []) ≡ stored
unfolding encode to_le_bytes
stored_is = refl

pub stored_bytes : AreBytes stored
stored_bytes = omega arith

stored_expiry : read_expiry stored ≡ ok (pos 2000)
unfolding read_expiry read_data_len index slice add_usize from_le_bytes
stored_expiry = refl

expired : verify stored (ok (pos 2000)) ≡ err (hook attestation_expired)
unfolding verify read_expiry read_data_len check_expiry index slice add_usize from_le_bytes
expired = refl

-- A length field of 2 ^ 32 - 1 in short data is an error, not a panic.
abbrev long_claim : Bytes
long_claim = 2 ∷ replicate 96 0 ++ (255 ∷ 255 ∷ 255 ∷ 255 ∷ 0 ∷ [])

long_claim_bytes : AreBytes long_claim
long_claim_bytes = omega arith

long_claim_read : read_expiry long_claim ≡ err (hook invalid_attestation)
unfolding read_expiry read_data_len index slice add_usize from_le_bytes
long_claim_read = refl

read_expiry-encode_example : read_expiry (encode attestation (5 ∷ [])) ≡ ok (pos 2000)
read_expiry-encode_example = read_expiry-encode attestation (5 ∷ []) is_well_formed

read_expiry_sound_example :
    (a : Attestation) × (rest : Bytes) × IsWellFormed a
    × (stored ≡ encode a rest)
    × (a.expiry ≡ pos 2000)
read_expiry_sound_example = read_expiry_sound stored (pos 2000) stored_bytes stored_expiry

verify-HoldsLive_example : (verify stored (ok (pos 1999)) ≡ ok tt) ↔ HoldsLive stored (pos 1999)
verify-HoldsLive_example = verify-HoldsLive stored (pos 1999) stored_bytes

read_expiry_errors_example : ◌≡◌ {A = Error} (hook invalid_attestation) (hook invalid_attestation)
read_expiry_errors_example =
    read_expiry_errors long_claim (hook invalid_attestation) long_claim_bytes long_claim_read

verify_errors_example :
    (◌≡◌ {A = Error} (hook attestation_expired) (hook invalid_attestation))
    ⊎ (◌≡◌ {A = Error} (hook attestation_expired) (hook attestation_expired))
verify_errors_example =
    verify_errors stored (pos 2000) (hook attestation_expired) stored_bytes expired

verify-same_expiry_example :
    verify (encode attestation (5 ∷ [])) (ok (pos 1999)) ≡ verify (encode forged []) (ok (pos 1999))
verify-same_expiry_example =
    verify-same_expiry attestation forged (5 ∷ []) [] (ok (pos 1999)) is_well_formed
      forged_is_well_formed refl
