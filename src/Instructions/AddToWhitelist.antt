-- ===== src/Instructions/AddToWhitelist.antt =====
-- programs/alien-id-transfer-hook/src/instructions/add_to_whitelist.rs
use solana_sas_extension.Prelude.{ℕ}
use solana_sas_extension.Result.{Result, ok, ◌>>=◌, ◌>>◌}
use solana_sas_extension.Solana.{Pubkey, Ledger, Invocation}
use solana_sas_extension.State.{WhitelistEntry, whitelist_entry_len, zeroed_entry}
use solana_sas_extension.Seeds.{config_seeds, whitelist_seeds}
use solana_sas_extension.Runtime.{Runtime}
use solana_sas_extension.Accounts.{
  signer, mutable, system_program, same_key, load_config, save_entry, seeds_found, seeds_with_bump,
}

pub record AddToWhitelist : Type 0 where
  pub authority : Pubkey
  pub config : Pubkey
  pub whitelist_entry : Pubkey
  pub mint : Pubkey
  pub system_program : Pubkey

unfoldable pub handler : Pubkey → ℕ → WhitelistEntry → WhitelistEntry
handler wallet bump entry = record entry { wallet = wallet; bump = bump }

module _ (rt : Runtime) where
  -- The ledger with the whitelist entry created, and the bump of its address.
  unfoldable pub validate : Invocation → AddToWhitelist → Pubkey → Ledger → Result (Ledger × ℕ)
  validate tx a wallet l = do
    signer tx a.authority
    config ← load_config rt l a.config
    rt.read_mint (l a.mint)
    system_program l a.system_program
    bump ← seeds_found rt (whitelist_seeds rt a.mint wallet) a.whitelist_entry
    l' ← rt.init_account l a.authority a.whitelist_entry whitelist_entry_len
    mutable tx a.whitelist_entry
    mutable tx a.authority
    seeds_with_bump rt (config_seeds rt a.mint) config.bump a.config
    same_key a.authority config.authority
    ok (l', bump)

  unfoldable pub execute : Invocation → AddToWhitelist → Pubkey → Ledger → Result Ledger
  unfolding validate handler
  execute tx a wallet l = do
    (l', bump) ← validate tx a wallet l
    save_entry rt l' a.whitelist_entry (handler wallet bump zeroed_entry)
