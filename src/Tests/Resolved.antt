-- ===== src/Tests/Resolved.antt =====
-- The whole hook instruction with resolved accounts, and the stored lists, in the small world.
use solana_sas_extension.Prelude.{◌≡◌, ◌↔◌, refl, true, some}
use solana_sas_extension.Prelude.Int.{pos}
use solana_sas_extension.Result.{ok}
use solana_sas_extension.State.{HookConfig}
use solana_sas_extension.Accounts.{load_config, save_config}
use solana_sas_extension.Instructions.InitializeConfig
use solana_sas_extension.Instructions.TransferHook.{execute}
use solana_sas_extension.Hook.Acceptance.{MayTransfer}
use solana_sas_extension.Hook.Transfer.{IsAllowed, execute_accepts}
use solana_sas_extension.Hook.Resolved.{IsSetUp, IsCleared, resolved_accepts}
use solana_sas_extension.Hook.Served.{
  Serves, update_config-Serves, initialize_extra_account_meta_list-Serves,
}
use solana_sas_extension.Tests.World.{world, digest}
use solana_sas_extension.Tests.World.Laws.{world_codec, world_accounts, world_addresses}
use solana_sas_extension.Tests.Metas.{resolve, world_metas}
use solana_sas_extension.Tests.Scenario.{
  by, config_key, list_key, first_config, make_list, make_list_runs, after_initialize, after_list,
  change, change_runs, after_change,
}
use solana_sas_extension.Tests.Administration.{keys_apart}
use solana_sas_extension.Tests.Transfers.{transfer, source, attested, attested_bytes}

execute_accepts_example :
    (execute world (by 102) transfer 5 attested ≡ ok tt)
    ↔ IsAllowed world transfer attested (pos 1000)
execute_accepts_example =
    execute_accepts world transfer attested (by 102) (pos 1000) 5 refl attested_bytes

set_up :
    IsSetUp world world_addresses attested first_config 60 50 61 102 source source
      (record { mint_authority = some 100 })
unfolding InitializeConfig.execute load_config save_config digest
set_up = record {
  config = refl;
  bump = refl;
  minted = refl;
  source_read = refl;
  source_mint = refl;
  destination_read = refl;
  destination_mint = refl;
}

resolved_accepts_example : (execute world (by 102) transfer 5 attested ≡ ok tt) ↔ (
    (world.transferring (attested 60).bytes ≡ ok true)
    × MayTransfer source 102
    × IsCleared world world_addresses attested first_config 60 50 61 102 (pos 1000))
resolved_accepts_example =
    resolved_accepts world world_addresses attested first_config 60 50 61 102 (by 102) (pos 1000) 5
      source source (record { mint_authority = some 100 }) set_up refl attested_bytes

update_config-Serves_example :
    (c : HookConfig) × (load_config world after_change config_key ≡ ok c)
    × (c.credential ≡ 211)
    × (c.schema ≡ 212)
    × (c.sas_program ≡ 213)
    × Serves world resolve world_metas 60 50 61 102 c list_key after_change
update_config-Serves_example =
    update_config-Serves world resolve world_metas 60 50 61 102 world_codec world_accounts (by 100)
      after_initialize after_change change 211 212 213 keys_apart change_runs

initialize_extra_account_meta_list-Serves_example :
    (c : HookConfig) × (load_config world after_list config_key ≡ ok c)
    × Serves world resolve world_metas 60 50 61 102 c list_key after_list
initialize_extra_account_meta_list-Serves_example =
    initialize_extra_account_meta_list-Serves world resolve world_metas 60 50 61 102 world_codec
      world_accounts (by 100) after_initialize after_list make_list keys_apart make_list_runs
