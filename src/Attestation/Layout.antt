-- ===== src/Attestation/Layout.antt =====
-- The layout that a comment of transfer_hook.rs gives for an attestation account, as a record of
-- its fields and the bytes that they take. It describes the data independently of the code that
-- reads it.
use solana_sas_extension.Prelude.{◌^◌, ◌<◌, ◌≡◌, ◌∷◌, ◌++◌, length}
use solana_sas_extension.Prelude.Int.{ℤ}
use solana_sas_extension.Solana.{Bytes}
use solana_sas_extension.Seeds.{attestation_discriminator}
use solana_sas_extension.Attestation.Words.{to_le_bytes, pattern64, IsI64}

pub record Attestation : Type 0 where
  pub nonce : Bytes
  pub credential : Bytes
  pub schema : Bytes
  pub payload : Bytes
  pub signer : Bytes
  pub expiry : ℤ

pub record IsWellFormed (a : Attestation) : Type 0 where
  pub nonce : length a.nonce ≡ 32
  pub credential : length a.credential ≡ 32
  pub schema : length a.schema ≡ 32
  pub payload : length a.payload < 2 ^ 32
  pub signer : length a.signer ≡ 32
  pub expiry : IsI64 a.expiry

-- discriminator(1), nonce(32), credential(32), schema(32)
abbrev pub header : Attestation → Bytes
header a = attestation_discriminator ∷ (a.nonce ++ (a.credential ++ a.schema))

-- data_len(4), data(n), signer(32), expiry(8), and whatever follows
abbrev pub body : Attestation → Bytes → Bytes
body a rest =
    to_le_bytes 4 (length a.payload)
    ++ (a.payload ++ (a.signer ++ (to_le_bytes 8 (pattern64 a.expiry) ++ rest)))

-- The data of an account that holds `a`, with `rest` behind it.
unfoldable pub encode : Attestation → Bytes → Bytes
encode a rest = header a ++ body a rest
