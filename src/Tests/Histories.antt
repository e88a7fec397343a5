-- ===== src/Tests/Histories.antt =====
-- A history in which the authority 100 signs nothing: another program stores an attestation for
-- the wallet 102, which then sends tokens; and one in which 100 hands its role to 101.
use solana_sas_extension.Prelude.{◌⊎◌, ◌≡◌, ◌≢◌, refl, arith}
use solana_sas_extension.Result.{ok}
use solana_sas_extension.Solana.{Pubkey, update_ne}
use solana_sas_extension.State.{HookConfig}
use solana_sas_extension.Seeds.{config_seeds, meta_list_seeds}
use solana_sas_extension.Accounts.{load_config, save_config}
use solana_sas_extension.Runtime.Laws.{Unchanged}
use solana_sas_extension.Admin.Checks.{address}
use solana_sas_extension.Instructions.InitializeConfig
use solana_sas_extension.Program.{
  add_to_whitelist, transfer_authority, accept_authority, transfer_hook, process,
}
use solana_sas_extension.History.{Reach, instruction, elsewhere, here, next, Silent, Anyone, Keeps}
use solana_sas_extension.History.Evolution.{Evolution, Reach-Evolution}
use solana_sas_extension.History.Guarded.{Guarded, process-Guarded}
use solana_sas_extension.History.Lasting.{config_lasts, initialize_config_once}
use solana_sas_extension.History.Frozen.{Reach-frozen}
use solana_sas_extension.Tests.World.{world, digest}
use solana_sas_extension.Tests.World.Laws.{world_addresses, world_codec, world_accounts}
use solana_sas_extension.Tests.Scenario.{
  by, config_key, entry_key, add, add_runs, after_add, after_initialize, first_config, start,
  initialize, initialize_runs, name_next, after_naming, naming_runs, accept, after_accept,
  accept_runs,
}
use solana_sas_extension.Tests.Administration.{config_loads}
use solana_sas_extension.Tests.Transfers.{transfer, attested, attested_passes}

-- No list address is the config's, whatever the mint.
lists_apart : (m : Pubkey) → address world (meta_list_seeds world m) ≢ config_key
unfolding digest
lists_apart m e = omega arith

unowned : (after_initialize transfer.attestation).owner ≡ 0
unfolding InitializeConfig.execute load_config save_config digest
unowned = refl

pub storing : (k : Pubkey) → (after_initialize k).owner ≡ 7 → Unchanged after_initialize attested k
storing k ours =
    let ne : k ≢ transfer.attestation = λ p. omega (arith, unowned, rw p at ours) in
    rw (update_ne after_initialize transfer.attestation k _ ne) (refl, refl)

pub sending : process world (by 102) (transfer_hook transfer 5) attested ≡ ok attested
unfolding process
sending = rw attested_passes

history : Reach world (Silent 100) (Keeps world) after_initialize attested
history =
    next (next here (elsewhere storing))
      (instruction (by 102) (transfer_hook transfer 5) refl sending)

Reach-frozen_example : load_config world attested config_key ≡ ok first_config
Reach-frozen_example =
    Reach-frozen world world_addresses world_codec world_accounts config_key first_config
      lists_apart refl config_loads history

pub naming :
    process world (by 100) (transfer_authority name_next) after_initialize ≡ ok after_naming
unfolding process
naming = naming_runs

accepting : process world (by 101) (accept_authority accept) after_naming ≡ ok after_accept
unfolding process
accepting = accept_runs

change_of_authority : Reach world Anyone (Keeps world) after_initialize after_accept
change_of_authority =
    next (next here (instruction (by 100) (transfer_authority name_next) tt naming))
      (instruction (by 101) (accept_authority accept) tt accepting)

Reach-Evolution_example :
    (d : HookConfig) × (load_config world after_accept config_key ≡ ok d)
    × Evolution Anyone first_config d
Reach-Evolution_example =
    Reach-Evolution world world_addresses world_codec world_accounts config_key lists_apart
      first_config config_loads change_of_authority

config_lasts_example :
    (config_key ≡ address world (config_seeds world 50))
    × (d : HookConfig) × (load_config world after_accept config_key ≡ ok d)
    × (d.bump ≡ 255)
config_lasts_example =
    config_lasts world world_addresses world_codec world_accounts (by 100) initialize 201 202 203
      start after_initialize after_accept lists_apart initialize_runs change_of_authority

initialize_config_once_example :
    InitializeConfig.execute world (by 101) initialize 211 212 213 after_accept ≢ ok after_accept
initialize_config_once_example =
    initialize_config_once world world_addresses world_codec world_accounts (by 100) initialize 201
      202 203 start after_initialize after_accept lists_apart initialize_runs change_of_authority
      (by 101) initialize 211 212 213 after_accept refl

-- No list or config address is the wallet's entry, whatever the mint.
entry_no_list : (m : Pubkey) → address world (meta_list_seeds world m) ≢ entry_key
unfolding digest
entry_no_list m e = omega arith

entry_no_config : (m : Pubkey) → address world (config_seeds world m) ≢ entry_key
unfolding digest
entry_no_config m e = omega arith

entry_empty : (c : HookConfig) → load_config world after_initialize entry_key ≢ ok c
unfolding InitializeConfig.execute load_config save_config digest
entry_empty c e = cc

pub adding : process world (by 100) (add_to_whitelist add 102) after_initialize ≡ ok after_add
unfolding process
adding = add_runs

process-Guarded_example :
    Unchanged after_initialize after_add entry_key
    ⊎ Guarded world (by 100) after_initialize entry_key
process-Guarded_example =
    process-Guarded world world_addresses world_codec world_accounts (by 100) after_initialize
      after_add entry_key entry_no_list entry_no_config entry_empty (add_to_whitelist add 102)
      adding
