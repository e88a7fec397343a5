-- ===== src/Tests/Scenario.antt =====
-- The life of one mint in the small world, from its configuration to a change of authority.
use solana_sas_extension.Prelude.{◌≡◌, refl, true, false, [], ◌∷◌, ◌==◌}
use solana_sas_extension.Prelude.Int.{pos}
use solana_sas_extension.Result.{ok}
use solana_sas_extension.Solana.{Pubkey, Account, Ledger, Invocation, update}
use solana_sas_extension.State.{HookConfig}
use solana_sas_extension.Accounts.{load_config, save_config, load_entry, save_entry}
use solana_sas_extension.Program.{commit}
use solana_sas_extension.Instructions.InitializeConfig
use solana_sas_extension.Instructions.InitializeExtraAccountMetaList
use solana_sas_extension.Instructions.UpdateConfig
use solana_sas_extension.Instructions.AddToWhitelist
use solana_sas_extension.Instructions.RemoveFromWhitelist
use solana_sas_extension.Instructions.TransferAuthority
use solana_sas_extension.Instructions.AcceptAuthority
use solana_sas_extension.Seeds.{config_seeds, meta_list_seeds, whitelist_seeds}
use solana_sas_extension.Tests.World.{world, closed, digest}

-- mint 50, authority 100, next authority 101, wallet 102
abbrev pub mint_account : Account
mint_account = record { lamports = 1; owner = 6; bytes = 9 ∷ 100 ∷ []; executable = false }

-- a token account of the mint and the wallet, in the middle of a transfer
abbrev pub token_account : Account
token_account = record {
  lamports = 1;
  owner = 6;
  bytes = 8 ∷ 50 ∷ 102 ∷ 1 ∷ [];
  executable = false;
}

abbrev pub system_account : Account
system_account = record { lamports = 1; owner = 5; bytes = []; executable = true }

abbrev pub start : Ledger
start =
    update
      (update (update (update (λ k. closed) 0 system_account) 50 mint_account) 60 token_account) 61
      token_account

abbrev pub by : Pubkey → Invocation
by key = record { is_signer = λ k. k == key; is_writable = λ k. true; clock = ok (pos 1000) }

abbrev pub config_key : Pubkey
config_key = (world.find_program_address (config_seeds world 50) 7).0

abbrev pub list_key : Pubkey
list_key = (world.find_program_address (meta_list_seeds world 50) 7).0

abbrev pub entry_key : Pubkey
entry_key = (world.find_program_address (whitelist_seeds world 50 102) 7).0

abbrev pub initialize : InitializeConfig.InitializeConfig
initialize = record { authority = 100; config = config_key; mint = 50; system_program = 0 }

abbrev pub after_initialize : Ledger
after_initialize =
    commit world (InitializeConfig.execute world (by 100) initialize 201 202 203 start) start

pub initialize_runs :
    InitializeConfig.execute world (by 100) initialize 201 202 203 start ≡ ok after_initialize
unfolding InitializeConfig.execute save_config digest
initialize_runs = refl

abbrev pub make_list : InitializeExtraAccountMetaList.InitializeExtraAccountMetaList
make_list = record {
  payer = 100;
  extra_account_meta_list = list_key;
  mint = 50;
  config = config_key;
  system_program = 0;
}

abbrev pub after_list : Ledger
after_list =
    commit world (InitializeExtraAccountMetaList.execute world (by 100) make_list after_initialize)
      after_initialize

pub make_list_runs :
    InitializeExtraAccountMetaList.execute world (by 100) make_list after_initialize ≡ ok after_list
unfolding InitializeExtraAccountMetaList.execute InitializeExtraAccountMetaList.validate
    InitializeExtraAccountMetaList.handler InitializeExtraAccountMetaList.account_metas
    InitializeExtraAccountMetaList.create_if_empty InitializeExtraAccountMetaList.write_meta_list
    InitializeConfig.execute load_config save_config digest
make_list_runs = refl

abbrev pub change : UpdateConfig.UpdateConfig
change = record {
  authority = 100;
  config = config_key;
  mint = 50;
  extra_account_meta_list = list_key;
}

abbrev pub after_change : Ledger
after_change =
    commit world (UpdateConfig.execute world (by 100) change 211 212 213 after_initialize)
      after_initialize

pub change_runs :
    UpdateConfig.execute world (by 100) change 211 212 213 after_initialize ≡ ok after_change
unfolding UpdateConfig.execute UpdateConfig.validate UpdateConfig.handler UpdateConfig.account_metas
    UpdateConfig.rewrite_meta_list InitializeConfig.execute load_config save_config digest
change_runs = refl

abbrev pub add : AddToWhitelist.AddToWhitelist
add = record {
  authority = 100;
  config = config_key;
  whitelist_entry = entry_key;
  mint = 50;
  system_program = 0;
}

abbrev pub after_add : Ledger
after_add =
    commit world (AddToWhitelist.execute world (by 100) add 102 after_initialize) after_initialize

pub add_runs : AddToWhitelist.execute world (by 100) add 102 after_initialize ≡ ok after_add
unfolding AddToWhitelist.execute InitializeConfig.execute load_config save_config save_entry digest
add_runs = refl

abbrev pub drop_entry : RemoveFromWhitelist.RemoveFromWhitelist
drop_entry = record {
  authority = 100;
  config = config_key;
  whitelist_entry = entry_key;
  mint = 50;
  system_program = 0;
}

abbrev pub after_drop : Ledger
after_drop =
    commit world (RemoveFromWhitelist.execute world (by 100) drop_entry 102 after_add) after_add

pub drop_runs : RemoveFromWhitelist.execute world (by 100) drop_entry 102 after_add ≡ ok after_drop
unfolding RemoveFromWhitelist.execute AddToWhitelist.execute InitializeConfig.execute load_config
    load_entry save_config save_entry digest
drop_runs = refl

abbrev pub name_next : TransferAuthority.TransferAuthority
name_next = record {
  authority = 100;
  new_authority = 101;
  config = config_key;
  mint = 50;
  system_program = 0;
}

abbrev pub after_naming : Ledger
after_naming =
    commit world (TransferAuthority.execute world (by 100) name_next after_initialize)
      after_initialize

pub naming_runs :
    TransferAuthority.execute world (by 100) name_next after_initialize ≡ ok after_naming
unfolding TransferAuthority.execute InitializeConfig.execute load_config save_config digest
naming_runs = refl

abbrev pub accept : AcceptAuthority.AcceptAuthority
accept = record { pending_authority = 101; config = config_key; mint = 50 }

abbrev pub after_accept : Ledger
after_accept =
    commit world (AcceptAuthority.execute world (by 101) accept after_naming) after_naming

pub accept_runs : AcceptAuthority.execute world (by 101) accept after_naming ≡ ok after_accept
unfolding AcceptAuthority.execute TransferAuthority.execute InitializeConfig.execute load_config
    save_config digest
accept_runs = refl

abbrev pub first_config : HookConfig
first_config = record {
  authority = 100;
  credential = 201;
  schema = 202;
  sas_program = 203;
  bump = 255;
  pending_authority = 0;
}
