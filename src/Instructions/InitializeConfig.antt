-- ===== src/Instructions/InitializeConfig.antt =====
-- programs/alien-id-transfer-hook/src/instructions/initialize_config.rs
use solana_sas_extension.Prelude.{ℕ, Bool, false, Option, none, some, ◌==◌}
use solana_sas_extension.HookError.{hook, unauthorized_mint_authority}
use solana_sas_extension.Result.{Result, ok, ◌>>=◌, ◌>>◌, require}
use solana_sas_extension.Solana.{Pubkey, Ledger, Invocation}
use solana_sas_extension.State.{HookConfig, hook_config_len, zeroed_config}
use solana_sas_extension.Seeds.{config_seeds}
use solana_sas_extension.Runtime.{Runtime}
use solana_sas_extension.Accounts.{signer, mutable, system_program, save_config, seeds_found}

pub record InitializeConfig : Type 0 where
  pub authority : Pubkey
  pub config : Pubkey
  pub mint : Pubkey
  pub system_program : Pubkey

-- `COption::contains`
abbrev pub contains : Option Pubkey → Pubkey → Bool
contains none key = false
contains (some k) key = k == key

-- The fields that the handler sets.
unfoldable pub handler : Pubkey → ℕ → Pubkey → Pubkey → Pubkey → HookConfig → HookConfig
handler authority bump credential schema sas_program config = record config {
  authority = authority;
  credential = credential;
  schema = schema;
  sas_program = sas_program;
  bump = bump;
}

module _ (rt : Runtime) where
  -- The ledger with the config account created, and the bump of its address.
  unfoldable pub validate : Invocation → InitializeConfig → Ledger → Result (Ledger × ℕ)
  validate tx a l = do
    signer tx a.authority
    mint ← rt.read_mint (l a.mint)
    system_program l a.system_program
    bump ← seeds_found rt (config_seeds rt a.mint) a.config
    l' ← rt.init_account l a.authority a.config hook_config_len
    mutable tx a.config
    mutable tx a.authority
    require (contains mint.mint_authority a.authority) (hook unauthorized_mint_authority)
    ok (l', bump)

  unfoldable pub execute :
      Invocation → InitializeConfig → Pubkey → Pubkey → Pubkey → Ledger → Result Ledger
  unfolding validate handler
  execute tx a credential schema sas_program l = do
    (l', bump) ← validate tx a l
    save_config rt l' a.config
        (handler a.authority bump credential schema sas_program zeroed_config)
