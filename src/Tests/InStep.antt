-- ===== src/Tests/InStep.antt =====
-- The list of the small world's mint stays in step while the role is handed over.
use solana_sas_extension.Prelude.{◌≡◌, ◌≢◌, inl, inr, refl, sym, ◌∙◌, arith}
use solana_sas_extension.Result.{ok}
use solana_sas_extension.Solana.{Pubkey}
use solana_sas_extension.State.{HookConfig}
use solana_sas_extension.Seeds.{config_seeds}
use solana_sas_extension.Accounts.{load_config, save_config}
use solana_sas_extension.Accounts.Laws.{load_config-HoldsConfig}
use solana_sas_extension.Instructions.InitializeConfig
use solana_sas_extension.Instructions.InitializeExtraAccountMetaList
use solana_sas_extension.Instructions.TransferAuthority
use solana_sas_extension.Program.{transfer_authority, process, commit}
use solana_sas_extension.Admin.Checks.{IsDerived}
use solana_sas_extension.Admin.Config.{initialize_config-Initialized}
use solana_sas_extension.Admin.MetaList.{IsBaked, initialize_extra_account_meta_list-Listed}
use solana_sas_extension.History.Evolution.{same_or_not}
use solana_sas_extension.History.InStep.{Separate, IsOnlyConfig}
use solana_sas_extension.Addresses.Unique.{config_unique}
use solana_sas_extension.Registry.Lists.{Derivation-Separate}
use solana_sas_extension.Tests.World.{world, digest}
use solana_sas_extension.Tests.World.Laws.{
  world-Derivation, world_addresses, world_codec, world_accounts,
}
use solana_sas_extension.Tests.Scenario.{
  by, config_key, list_key, first_config, start, initialize, initialize_runs, make_list,
  make_list_runs, after_initialize, after_list, name_next,
}
use solana_sas_extension.Tests.Administration.{keys_apart}
use solana_sas_extension.Solana.{Ledger}

separate : Separate world 50
separate = Derivation-Separate world world-Derivation 50

pub start_not_ours : (j : Pubkey) → (start j).owner ≢ 7
start_not_ours j e = ground arith

pub list_loads : load_config world after_list config_key ≡ ok first_config
unfolding InitializeConfig.execute InitializeExtraAccountMetaList.execute
    InitializeExtraAccountMetaList.validate InitializeExtraAccountMetaList.handler
    InitializeExtraAccountMetaList.account_metas InitializeExtraAccountMetaList.create_if_empty
    InitializeExtraAccountMetaList.write_meta_list load_config save_config digest
list_loads = refl

only :
    (j : Pubkey) (d : HookConfig)
    → load_config world after_list j ≡ ok d
    → IsDerived world (config_seeds world 50) d.bump j
    → j ≡ config_key
only j d loaded derived =
    let (_, made) =
      initialize_config-Initialized world world_addresses world_codec world_accounts (by 100)
        initialize 201 202 203 start after_initialize initialize_runs in
    let (_, listed) =
      initialize_extra_account_meta_list-Listed world world_codec world_accounts (by 100) make_list
        after_initialize after_list keys_apart make_list_runs in
    let held = load_config-HoldsConfig world after_list j d loaded in
    elim (same_or_not j config_key) [
      | inl here ↦ here
      | inr other ↦ elim (same_or_not j list_key) [
        | inl at_list ↦ absurd (separate.config_list 50 50 d.bump (rw (← at_list) derived))
        | inr other_too ↦ absurd (
            start_not_ours j
              (sym (made.others j other).0 ∙ sym (listed.others j other_too).0 ∙ held.0))
      ]
    ]

only_config : IsOnlyConfig world 50 config_key first_config after_list
only_config = record {
  found = list_loads;
  derived = refl;
  one_mint = λ m p. (config_unique world world-Derivation m 50 config_key 255 255 p refl).0;
  only = only;
}

pub baked : IsBaked world config_key list_key after_list
baked =
    let (_, listed) =
      initialize_extra_account_meta_list-Listed world world_codec world_accounts (by 100) make_list
        after_initialize after_list keys_apart make_list_runs in
    listed.baked

abbrev pub after_handing : Ledger
after_handing =
    commit world (TransferAuthority.execute world (by 100) name_next after_list) after_list

pub handing : process world (by 100) (transfer_authority name_next) after_list ≡ ok after_handing
unfolding process TransferAuthority.execute InitializeConfig.execute
    InitializeExtraAccountMetaList.execute InitializeExtraAccountMetaList.validate
    InitializeExtraAccountMetaList.handler InitializeExtraAccountMetaList.account_metas
    InitializeExtraAccountMetaList.create_if_empty InitializeExtraAccountMetaList.write_meta_list
    load_config save_config digest
handing = refl
