-- ===== src/Instructions/TransferAuthority.antt =====
-- programs/alien-id-transfer-hook/src/instructions/transfer_authority.rs
use solana_sas_extension.Result.{Result, ok, ◌>>=◌, ◌>>◌}
use solana_sas_extension.Solana.{Pubkey, Ledger, Invocation}
use solana_sas_extension.State.{HookConfig, hook_config_len}
use solana_sas_extension.Seeds.{config_seeds}
use solana_sas_extension.Runtime.{Runtime}
use solana_sas_extension.Accounts.{
  signer, mutable, system_program, same_key, load_config, save_config, seeds_with_bump,
}

pub record TransferAuthority : Type 0 where
  pub authority : Pubkey
  pub new_authority : Pubkey
  pub config : Pubkey
  pub mint : Pubkey
  pub system_program : Pubkey

unfoldable pub handler : Pubkey → HookConfig → HookConfig
handler new_authority config = record config { pending_authority = new_authority }

module _ (rt : Runtime) where
  -- The ledger with the config account reallocated, and the config.
  unfoldable pub validate : Invocation → TransferAuthority → Ledger → Result (Ledger × HookConfig)
  validate tx a l = do
    signer tx a.authority
    config ← load_config rt l a.config
    rt.read_mint (l a.mint)
    system_program l a.system_program
    mutable tx a.authority
    same_key a.authority config.authority
    l' ← rt.realloc_account l a.authority a.config hook_config_len
    seeds_with_bump rt (config_seeds rt a.mint) config.bump a.config
    mutable tx a.config
    ok (l', config)

  unfoldable pub execute : Invocation → TransferAuthority → Ledger → Result Ledger
  unfolding validate handler
  execute tx a l = do
    (l', config) ← validate tx a l
    save_config rt l' a.config (handler a.new_authority config)
