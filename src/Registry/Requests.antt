-- ===== src/Registry/Requests.antt =====
-- The instruction that asks for an operation, with the addresses that the program derives, and what
-- it needs besides the consent of the registry.
pub mod Succeed
pub mod Granted
use solana_sas_extension.Prelude.{ℕ, ◌≡◌, ◌≢◌, ◌≤◌, true, some, List, length}
use solana_sas_extension.Result.{ok}
use solana_sas_extension.Solana.{Pubkey, Bytes, Ledger, Invocation, system_program_id}
use solana_sas_extension.State.{hook_config_len, whitelist_entry_len}
use solana_sas_extension.Seeds.{meta_list_seeds}
use solana_sas_extension.Runtime.{Runtime, Mint, ExtraAccountMeta}
use solana_sas_extension.Admin.Checks.{address}
use solana_sas_extension.Instructions.UpdateConfig
use solana_sas_extension.Program.{
  Instruction, initialize_config, update_config, add_to_whitelist, remove_from_whitelist,
  transfer_authority, accept_authority,
}
use solana_sas_extension.Registry.{Op, configure, reconfigure, name_next, accept, enlist, delist}
use solana_sas_extension.Registry.View.{config_at, entry_at}

module _ (rt : Runtime) (mint signer : Pubkey) where
  abbrev pub request : Op → Instruction
  request (configure k c s p) =
      initialize_config
        (record {
          authority = k;
          config = config_at rt mint;
          mint = mint;
          system_program = system_program_id;
        })
        c s p
  request (reconfigure c s p) =
      update_config
        (record {
          authority = signer;
          config = config_at rt mint;
          mint = mint;
          extra_account_meta_list = address rt (meta_list_seeds rt mint);
        })
        c s p
  request (name_next k) = transfer_authority (record {
    authority = signer;
    new_authority = k;
    config = config_at rt mint;
    mint = mint;
    system_program = system_program_id;
  })
  request (accept k) =
      accept_authority (record { pending_authority = k; config = config_at rt mint; mint = mint })
  request (enlist w) =
      add_to_whitelist
        (record {
          authority = signer;
          config = config_at rt mint;
          whitelist_entry = entry_at rt mint w;
          mint = mint;
          system_program = system_program_id;
        })
        w
  request (delist w) =
      remove_from_whitelist
        (record {
          authority = signer;
          config = config_at rt mint;
          whitelist_entry = entry_at rt mint w;
          mint = mint;
          system_program = system_program_id;
        })
        w

  module _ (tx : Invocation) (l : Ledger) where
    -- The System Program is there.
    abbrev pub HasSystem : Type 0
    HasSystem = (l system_program_id).executable ≡ true

    -- The config account is writable and has its full length.
    abbrev pub HasRoom : Type 0
    HasRoom =
        (tx.is_writable (config_at rt mint) ≡ true)
        × (hook_config_len ≤ length (l (config_at rt mint)).bytes)

    -- The accounts that the instruction writes are writable, and what it asks of the runtime and of
    -- the account resolution library is granted.
    abbrev pub IsReady : Op → Type 0
    IsReady (configure k c s p) =
        HasSystem
        × (tx.is_writable k ≡ true)
        × (tx.is_writable (config_at rt mint) ≡ true)
        × (m : Mint) × (rt.read_mint (l mint) ≡ ok m)
        × (m.mint_authority ≡ some k)
        × (l' : Ledger) × (rt.init_account l k (config_at rt mint) hook_config_len ≡ ok l')
    IsReady (reconfigure c s p) =
        HasRoom
        × (tx.is_writable (address rt (meta_list_seeds rt mint)) ≡ true)
        × (m : Mint) × (rt.read_mint (l mint) ≡ ok m)
        × (metas : List ExtraAccountMeta) × (UpdateConfig.account_metas rt c s p ≡ ok metas)
        × (b : Bytes) × (rt.init_meta_list
              (UpdateConfig.zero_fill rt (l (address rt (meta_list_seeds rt mint))).bytes) metas
            ≡ ok b)
    IsReady (name_next k) =
        HasSystem
        × (tx.is_writable signer ≡ true)
        × (tx.is_writable (config_at rt mint) ≡ true)
        × (m : Mint) × (rt.read_mint (l mint) ≡ ok m)
        × (l' : Ledger) × (rt.realloc_account l signer (config_at rt mint) hook_config_len ≡ ok l')
    IsReady (accept k) = HasRoom × (m : Mint) × (rt.read_mint (l mint) ≡ ok m)
    IsReady (enlist w) =
        HasSystem
        × (tx.is_writable signer ≡ true)
        × (tx.is_writable (entry_at rt mint w) ≡ true)
        × (m : Mint) × (rt.read_mint (l mint) ≡ ok m)
        × (l' : Ledger) × (rt.init_account l signer (entry_at rt mint w) whitelist_entry_len
            ≡ ok l')
    IsReady (delist w) =
        HasSystem
        × (tx.is_writable (entry_at rt mint w) ≡ true)
        × (entry_at rt mint w ≢ signer)
        × (m : Mint) × (rt.read_mint (l mint) ≡ ok m)
        × (l' : Ledger) × (rt.close_account tx l (entry_at rt mint w) signer ≡ ok l')
