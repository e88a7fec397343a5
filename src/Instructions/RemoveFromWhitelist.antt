-- ===== src/Instructions/RemoveFromWhitelist.antt =====
-- programs/alien-id-transfer-hook/src/instructions/remove_from_whitelist.rs
use solana_sas_extension.Prelude.{not, ◌==◌}
use solana_sas_extension.HookError.{anchor, constraint_close}
use solana_sas_extension.Result.{Result, ◌>>=◌, ◌>>◌, Done, require}
use solana_sas_extension.Solana.{Pubkey, Ledger, Invocation}
use solana_sas_extension.Seeds.{config_seeds, whitelist_seeds}
use solana_sas_extension.Runtime.{Runtime}
use solana_sas_extension.Accounts.{
  signer, mutable, system_program, same_key, load_config, load_entry, seeds_with_bump,
}

pub record RemoveFromWhitelist : Type 0 where
  pub authority : Pubkey
  pub config : Pubkey
  pub whitelist_entry : Pubkey
  pub mint : Pubkey
  pub system_program : Pubkey

module _ (rt : Runtime) where
  unfoldable pub validate : Invocation → RemoveFromWhitelist → Pubkey → Ledger → Done
  validate tx a wallet l = do
    signer tx a.authority
    config ← load_config rt l a.config
    entry ← load_entry rt l a.whitelist_entry
    rt.read_mint (l a.mint)
    system_program l a.system_program
    seeds_with_bump rt (config_seeds rt a.mint) config.bump a.config
    same_key a.authority config.authority
    seeds_with_bump rt (whitelist_seeds rt a.mint wallet) entry.bump a.whitelist_entry
    mutable tx a.whitelist_entry
    require (not (a.whitelist_entry == a.authority)) (anchor constraint_close)

  -- The handler does nothing: `close = authority` removes the entry on exit.
  unfoldable pub execute : Invocation → RemoveFromWhitelist → Pubkey → Ledger → Result Ledger
  unfolding validate
  execute tx a wallet l = do
    validate tx a wallet l
    rt.close_account tx l a.whitelist_entry a.authority
