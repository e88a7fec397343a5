-- ===== src/State.antt =====
-- programs/alien-id-transfer-hook/src/state: the two account types of the program.
use solana_sas_extension.Prelude.{ℕ, ◌+◌}
use solana_sas_extension.Solana.{Pubkey, default}

pub record HookConfig : Type 0 where
  pub authority : Pubkey
  pub credential : Pubkey
  pub schema : Pubkey
  pub sas_program : Pubkey
  pub bump : ℕ
  pub pending_authority : Pubkey

pub record WhitelistEntry : Type 0 where
  pub wallet : Pubkey
  pub bump : ℕ

-- The two constants `LEN`.
abbrev pub hook_config_len : ℕ
hook_config_len = 8 + 32 + 32 + 32 + 32 + 1 + 32

abbrev pub whitelist_entry_len : ℕ
whitelist_entry_len = 8 + 32 + 1

-- A freshly created account is read as zero bytes before the handler fills it in.
abbrev pub zeroed_config : HookConfig
zeroed_config = record {
  authority = default;
  credential = default;
  schema = default;
  sas_program = default;
  bump = 0;
  pending_authority = default;
}

abbrev pub zeroed_entry : WhitelistEntry
zeroed_entry = record { wallet = default; bump = 0 }
