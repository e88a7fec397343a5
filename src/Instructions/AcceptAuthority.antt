-- ===== src/Instructions/AcceptAuthority.antt =====
-- programs/alien-id-transfer-hook/src/instructions/accept_authority.rs
use solana_sas_extension.Prelude.{not, ◌==◌}
use solana_sas_extension.HookError.{hook, no_pending_authority}
use solana_sas_extension.Result.{Result, ok, ◌>>=◌, ◌>>◌, require}
use solana_sas_extension.Solana.{Pubkey, Ledger, Invocation, default}
use solana_sas_extension.State.{HookConfig}
use solana_sas_extension.Seeds.{config_seeds}
use solana_sas_extension.Runtime.{Runtime}
use solana_sas_extension.Accounts.{signer, mutable, load_config, save_config, seeds_with_bump}

pub record AcceptAuthority : Type 0 where
  pub pending_authority : Pubkey
  pub config : Pubkey
  pub mint : Pubkey

unfoldable pub handler : HookConfig → Result HookConfig
handler config = do
  require (not (config.pending_authority == default)) (hook no_pending_authority)
  ok (record config { authority = config.pending_authority; pending_authority = default })

module _ (rt : Runtime) where
  unfoldable pub validate : Invocation → AcceptAuthority → Ledger → Result HookConfig
  validate tx a l = do
    signer tx a.pending_authority
    config ← load_config rt l a.config
    rt.read_mint (l a.mint)
    require (a.pending_authority == config.pending_authority) (hook no_pending_authority)
    seeds_with_bump rt (config_seeds rt a.mint) config.bump a.config
    mutable tx a.config
    ok config

  unfoldable pub execute : Invocation → AcceptAuthority → Ledger → Result Ledger
  unfolding validate handler
  execute tx a l = do
    config ← validate tx a l
    config' ← handler config
    save_config rt l a.config config'
