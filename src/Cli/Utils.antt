-- ===== src/Cli/Utils.antt =====
-- admin-cli/src/utils.rs
use solana_sas_extension.Prelude.{ℕ, [], ◌∷◌}
use solana_sas_extension.Solana.{Pubkey}
use solana_sas_extension.Seeds.{config_literal, extra_account_metas_literal, whitelist_literal}
use solana_sas_extension.Cli.Host.{Host}

module _ (h : Host) where
  unfoldable pub get_config_address : Pubkey → Pubkey → Pubkey × ℕ
  get_config_address mint program_id =
      h.find_program_address (config_literal ∷ h.as_ref mint ∷ []) program_id

  unfoldable pub get_extra_account_meta_list_address : Pubkey → Pubkey → Pubkey × ℕ
  get_extra_account_meta_list_address mint program_id =
      h.find_program_address (extra_account_metas_literal ∷ h.as_ref mint ∷ []) program_id

  unfoldable pub get_whitelist_entry_address : Pubkey → Pubkey → Pubkey → Pubkey × ℕ
  get_whitelist_entry_address mint wallet program_id =
      h.find_program_address (whitelist_literal ∷ h.as_ref mint ∷ h.as_ref wallet ∷ []) program_id
