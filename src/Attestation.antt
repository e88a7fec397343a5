-- ===== src/Attestation.antt =====
-- The part of programs/alien-id-transfer-hook/src/instructions/transfer_hook.rs that reads the
-- data of an attestation account: byte access as Rust does it, and the checks in their order.
pub mod Words
pub mod Access
pub mod Layout
pub mod Format
pub mod Soundness
pub mod Verdict
use solana_sas_extension.Prelude.{
  ℕ, ◌+◌, ◌-◌, ◌^◌, ◌≤◌, ◌&&◌, length, get_or, take, drop, ltb, leb, ◌==◌, if◌then◌else◌,
}
use solana_sas_extension.Prelude.Int.{ℤ, pos, negsuc, ltb_ℤ, is_zero}
use solana_sas_extension.HookError.{hook, panic, invalid_attestation, attestation_expired}
use solana_sas_extension.Result.{Result, ok, err, Done, ◌>>=◌, ◌>>◌, require}
use solana_sas_extension.Solana.{Bytes}
use solana_sas_extension.Seeds.{attestation_discriminator}
use Words.{u32_from_le_bytes, i64_from_le_bytes}

-- `data[i]`, which panics out of bounds
unfoldable pub index : Bytes → ℕ → Result ℕ
index d i = if ltb i (length d) then ok (get_or d i 0) else err panic

-- `data[a..b]`, which panics out of bounds
unfoldable pub slice : Bytes → ℕ → ℕ → Result Bytes
slice d a b = if leb a b && leb b (length d) then ok (take (b - a) (drop a d)) else err panic

-- `a + b` at the 64-bit `usize`, with overflow checks as Cargo.toml sets them
unfoldable pub add_usize : ℕ → ℕ → Result ℕ
add_usize a b = if ltb (a + b) (2 ^ 64) then ok (a + b) else err panic

abbrev pub base_offset : ℕ
base_offset = 1 + 32 + 32 + 32

-- The three stay shut where the checks unfold: a proof lists a lemma for each call.
-- The length of the data field, after the checks that come before it.
unfoldable pub read_data_len : Bytes → Result ℕ
read_data_len d = do
  require (ltb 1 (length d)) (hook invalid_attestation)
  discriminator ← index d 0
  require (discriminator == attestation_discriminator) (hook invalid_attestation)
  require (leb (base_offset + 4) (length d)) (hook invalid_attestation)
  raw ← slice d base_offset (base_offset + 4)
  ok (u32_from_le_bytes raw)

-- The expiry, which stands behind the data field and the signer.
unfoldable pub read_expiry : Bytes → Result ℤ
read_expiry d = do
  data_field_len ← read_data_len d
  signer_offset ← add_usize (base_offset + 4) data_field_len
  expiry_offset ← add_usize signer_offset 32
  end ← add_usize expiry_offset 8
  require (leb end (length d)) (hook invalid_attestation)
  raw ← slice d expiry_offset end
  ok (i64_from_le_bytes raw)

-- An expiry of zero never expires; the clock is read only for another one.
unfoldable pub check_expiry : Result ℤ → ℤ → Done
check_expiry clock expiry =
    if is_zero expiry
    then ok tt
    else (do now ← clock; require (ltb_ℤ now expiry) (hook attestation_expired))

unfoldable pub verify : Bytes → Result ℤ → Done
verify d clock = do expiry ← read_expiry d; check_expiry clock expiry
