-- ===== src/Tests/Administration.antt =====
-- The administrative instructions at concrete inputs.
use solana_sas_extension.Prelude.{◌≡◌, ◌≢◌, refl, arith, some, List, [], ◌∷◌}
use solana_sas_extension.Result.{ok, err}
use solana_sas_extension.HookError.{anchor, constraint_raw}
use solana_sas_extension.Solana.{Ledger}
use solana_sas_extension.State.{HookConfig, WhitelistEntry}
use solana_sas_extension.Runtime.{Mint, ExtraAccountMeta}
use solana_sas_extension.Accounts.{load_config, save_config}
use solana_sas_extension.Instructions.InitializeConfig
use solana_sas_extension.Instructions.TransferAuthority
use solana_sas_extension.Instructions.AcceptAuthority
use solana_sas_extension.Instructions.InitializeExtraAccountMetaList
use solana_sas_extension.Admin.Authority.{Named, transfer_authority-Named, handover}
use solana_sas_extension.Admin.Config.{Initialized, initialize_config-Initialized}
use solana_sas_extension.Admin.Whitelist.{
  Added, Removed, add_to_whitelist-Added, remove_from_whitelist-Removed,
}
use solana_sas_extension.Admin.MetaList.{
  Updated, Listed, update_config-Updated, initialize_extra_account_meta_list-Listed,
}
use solana_sas_extension.Resolution.{resolve_all, in_order, expected, resolve_all-account_metas}
use solana_sas_extension.Tests.World.{world, digest}
use solana_sas_extension.Tests.World.Laws.{world_addresses, world_codec, world_accounts}
use solana_sas_extension.Tests.Metas.{resolve, world_metas}
use solana_sas_extension.Tests.Scenario.{
  start, by, config_key, list_key, initialize, after_initialize, initialize_runs, make_list,
  after_list, make_list_runs, change, after_change, change_runs, add, after_add, add_runs,
  drop_entry, after_drop, drop_runs, name_next, after_naming, naming_runs, accept, first_config,
}

initialize_config-Initialized_example :
    (mint : Mint) × Initialized world world_addresses world_codec world_accounts
      (by 100)
      initialize
      201
      202
      203
      start
      after_initialize
      mint
initialize_config-Initialized_example =
    initialize_config-Initialized world world_addresses world_codec world_accounts (by 100)
      initialize 201 202 203 start after_initialize initialize_runs

transfer_authority-Named_example :
    (c : HookConfig) × Named world world_codec world_accounts
      (by 100)
      name_next
      after_initialize
      after_naming
      c
transfer_authority-Named_example =
    transfer_authority-Named world world_codec world_accounts (by 100) name_next after_initialize
      after_naming naming_runs

pub config_loads : load_config world after_initialize config_key ≡ ok first_config
unfolding InitializeConfig.execute load_config save_config digest
config_loads = refl

mint_reads : world.read_mint (after_naming 50) ≡ ok (record { mint_authority = some 100 })
unfolding TransferAuthority.execute InitializeConfig.execute load_config save_config digest
mint_reads = refl

handover_example :
    (c : HookConfig) × (l'' : Ledger) × (load_config world after_initialize config_key ≡ ok c)
    × (AcceptAuthority.execute world (by 101) accept after_naming ≡ ok l'')
    × (load_config world l'' config_key ≡ ok (record c { authority = 101; pending_authority = 0 }))
handover_example =
    handover world world_codec world_accounts (by 100) (by 101) name_next after_initialize
      after_naming (record { mint_authority = some 100 }) (omega arith) naming_runs refl refl
      mint_reads

add_to_whitelist-Added_example :
    (c : HookConfig) × Added world world_codec world_accounts
      (by 100)
      add
      102
      after_initialize
      after_add
      c
add_to_whitelist-Added_example =
    add_to_whitelist-Added world world_codec world_accounts (by 100) add 102 after_initialize
      after_add add_runs

remove_from_whitelist-Removed_example :
    (c : HookConfig) × (e : WhitelistEntry) × Removed world world_codec world_accounts
      (by 100)
      drop_entry
      102
      after_add
      after_drop
      c
      e
remove_from_whitelist-Removed_example =
    remove_from_whitelist-Removed world world_codec world_accounts (by 100) drop_entry 102 after_add
      after_drop drop_runs

pub keys_apart : config_key ≢ list_key
unfolding digest
keys_apart e = omega arith

update_config-Updated_example :
    (c : HookConfig) × Updated world world_codec world_accounts
      (by 100)
      change
      211
      212
      213
      after_initialize
      after_change
      c
update_config-Updated_example =
    update_config-Updated world world_codec world_accounts (by 100) change 211 212 213
      after_initialize after_change keys_apart change_runs

initialize_extra_account_meta_list-Listed_example :
    (c : HookConfig) × Listed world world_codec world_accounts
      (by 100)
      make_list
      after_initialize
      after_list
      c
initialize_extra_account_meta_list-Listed_example =
    initialize_extra_account_meta_list-Listed world world_codec world_accounts (by 100) make_list
      after_initialize after_list keys_apart make_list_runs

-- Someone else's signature does not name a new authority.
stranger_refused :
    TransferAuthority.execute world (by 102) (record name_next { authority = 102 }) after_initialize
    ≡ err (anchor constraint_raw)
unfolding TransferAuthority.execute InitializeConfig.execute load_config save_config digest
stranger_refused = refl

abbrev first_metas : List ExtraAccountMeta
first_metas = elim (InitializeExtraAccountMetaList.account_metas world first_config) [
  | ok metas ↦ metas
  | err e ↦ []
]

metas_build : InitializeExtraAccountMetaList.account_metas world first_config ≡ ok first_metas
unfolding InitializeExtraAccountMetaList.account_metas
metas_build = refl

resolve_all-account_metas_example :
    resolve_all world resolve first_metas (60 ∷ 50 ∷ 61 ∷ 102 ∷ list_key ∷ [])
    ≡ some (in_order (expected world first_config 60 50 61 102 list_key))
resolve_all-account_metas_example =
    resolve_all-account_metas world resolve world_metas first_config 60 50 61 102 list_key
      first_metas metas_build
