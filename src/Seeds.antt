-- ===== src/Seeds.antt =====
-- The seeds of the program's derived addresses, as the accounts structs of
-- programs/alien-id-transfer-hook/src/instructions and admin-cli/src/utils.rs write them.
use solana_sas_extension.Prelude.{ℕ, List, [], ◌∷◌}
use solana_sas_extension.Solana.{Pubkey, Bytes}
use solana_sas_extension.Runtime.{Runtime}

-- b"config"
abbrev pub config_literal : Bytes
config_literal = b'c' ∷ b'o' ∷ b'n' ∷ b'f' ∷ b'i' ∷ b'g' ∷ []

-- b"extra-account-metas"
abbrev pub extra_account_metas_literal : Bytes
extra_account_metas_literal =
    b'e' ∷ b'x' ∷ b't' ∷ b'r' ∷ b'a' ∷ b'-' ∷ b'a' ∷ b'c' ∷ b'c' ∷ b'o' ∷ b'u' ∷ b'n' ∷ b't' ∷ b'-'
    ∷ b'm' ∷ b'e' ∷ b't' ∷ b'a' ∷ b's' ∷ []

-- b"whitelist"
abbrev pub whitelist_literal : Bytes
whitelist_literal = b'w' ∷ b'h' ∷ b'i' ∷ b't' ∷ b'e' ∷ b'l' ∷ b'i' ∷ b's' ∷ b't' ∷ []

-- constants.rs
abbrev pub attestation_seed : Bytes
attestation_seed = b'a' ∷ b't' ∷ b't' ∷ b'e' ∷ b's' ∷ b't' ∷ b'a' ∷ b't' ∷ b'i' ∷ b'o' ∷ b'n' ∷ []

abbrev pub attestation_discriminator : ℕ
attestation_discriminator = 2

module _ (rt : Runtime) where
  -- seeds = [b"config", mint]
  abbrev pub config_seeds : Pubkey → List Bytes
  config_seeds mint = config_literal ∷ rt.as_ref mint ∷ []

  -- seeds = [b"extra-account-metas", mint]
  abbrev pub meta_list_seeds : Pubkey → List Bytes
  meta_list_seeds mint = extra_account_metas_literal ∷ rt.as_ref mint ∷ []

  -- seeds = [b"whitelist", mint, wallet]
  abbrev pub whitelist_seeds : Pubkey → Pubkey → List Bytes
  whitelist_seeds mint wallet = whitelist_literal ∷ rt.as_ref mint ∷ rt.as_ref wallet ∷ []

  -- seeds = [b"attestation", credential, schema, owner]
  abbrev pub attestation_seeds : Pubkey → Pubkey → Pubkey → List Bytes
  attestation_seeds credential schema owner =
      attestation_seed ∷ rt.as_ref credential ∷ rt.as_ref schema ∷ rt.as_ref owner ∷ []
