-- ===== src/Tests/Registry.antt =====
-- The registry of the small world's mint, from its configuration on.
use solana_sas_extension.Prelude.{◌≡◌, refl, inl, inr, true, false, some, arith, List}
use solana_sas_extension.Result.{ok}
use solana_sas_extension.Solana.{Pubkey, update_ne, update_self}
use solana_sas_extension.Accounts.{load_config, save_config, save_entry}
use solana_sas_extension.Instructions.InitializeConfig
use solana_sas_extension.Instructions.AddToWhitelist
use solana_sas_extension.Instructions.InitializeExtraAccountMetaList
use solana_sas_extension.History.{Reach, here, next, instruction, elsewhere, Anyone, Silent}
use solana_sas_extension.History.Evolution.{same_or_not}
use solana_sas_extension.Program.{
  initialize_config, initialize_extra_account_meta_list, add_to_whitelist, transfer_authority,
  transfer_hook, process,
}
use solana_sas_extension.Registry.{perform}
use solana_sas_extension.Registry.Calls.{Call, All, replay}
use solana_sas_extension.Registry.Lists.{IsServed, Reach-IsServed}
use solana_sas_extension.Registry.Refines.{op_of}
use solana_sas_extension.Registry.Refines.Simulation.{process-refines}
use solana_sas_extension.Registry.Runs.{Foreign, Reach-refines, registry_locked}
use solana_sas_extension.Registry.Enlisting.{Enlisted, Reach-Enlisted}
use solana_sas_extension.Registry.Sane.{IsSane, IsSaneAt-foreign}
use solana_sas_extension.Registry.Sane.Steps.{process-IsSane}
use solana_sas_extension.Registry.View.{summary, registry_of, settings_of, whitelisted_of}
use solana_sas_extension.Tests.World.{world, digest}
use solana_sas_extension.Tests.World.Laws.{world_laws}
use solana_sas_extension.Tests.Scenario.{
  by, list_key, first_config, start, initialize, initialize_runs, make_list, make_list_runs,
  after_initialize, after_list, after_add, add, name_next,
}
use solana_sas_extension.Tests.Administration.{config_loads}
use solana_sas_extension.Tests.Transfers.{transfer, attested}
use solana_sas_extension.Tests.Histories.{storing, sending, adding}
use solana_sas_extension.Tests.InStep.{start_not_ours, baked, after_handing, handing}

pub start-IsSane : IsSane world start
start-IsSane k = IsSaneAt-foreign world world_laws start k (start_not_ours k)

pub initializing :
    process world (by 100) (initialize_config initialize 201 202 203) start ≡ ok after_initialize
unfolding process
initializing = initialize_runs

listing :
    process world (by 100) (initialize_extra_account_meta_list make_list) after_initialize
    ≡ ok after_list
unfolding process
listing = make_list_runs

process-IsSane_example : IsSane world after_initialize
process-IsSane_example =
    process-IsSane world world_laws (by 100) start after_initialize start-IsSane
      (initialize_config initialize 201 202 203) initializing

pub initialized-IsSane : IsSane world after_initialize
initialized-IsSane =
    process-IsSane world world_laws (by 100) start after_initialize start-IsSane
      (initialize_config initialize 201 202 203) initializing

process-refines_example :
    perform
      (by 100).is_signer
      (op_of 50 (initialize_config initialize 201 202 203))
      (registry_of world 50 start)
    ≡ some (registry_of world 50 after_initialize)
process-refines_example =
    process-refines world world_laws 50 (by 100) start after_initialize start-IsSane
      (initialize_config initialize 201 202 203) initializing

attested_owner : (attested transfer.attestation).owner ≡ 203
attested_owner = rw (update_self after_initialize transfer.attestation _)

-- The SAS program stores the attestation of the wallet 102.
owners : (k : Pubkey) → (attested k).owner ≡ 7 → (after_initialize k).owner ≡ 7
owners k ours = elim (same_or_not k transfer.attestation) [
  | inl at ↦ absurd (omega (arith, attested_owner, rw at at ours))
  | inr other ↦ rw (update_ne after_initialize transfer.attestation k _ other) at ours
]

foreign : Foreign world after_initialize attested
foreign = record {
  kept = storing;
  derived = λ s k p ours. owners k ours;
  blank = λ k ours other. absurd (other (owners k ours));
}

pub run : Reach world Anyone (Foreign world) start attested
run =
    next
      (next here (instruction (by 100) (initialize_config initialize 201 202 203) tt initializing))
      (elsewhere foreign)

Reach-refines_example :
    IsSane world attested
    × (cs : List Call) × All (λ c. Anyone c.tx) cs
    × (replay cs (registry_of world 50 start) ≡ some (registry_of world 50 attested))
Reach-refines_example = Reach-refines world world_laws 50 start-IsSane run

pub settled : settings_of world 50 after_initialize ≡ some (summary first_config)
settled = rw config_loads

quiet : Reach world (Silent 100) (Foreign world) after_initialize attested
quiet =
    next (next here (elsewhere foreign))
      (instruction (by 102) (transfer_hook transfer 5) refl sending)

registry_locked_example : registry_of world 50 attested ≡ registry_of world 50 after_initialize
registry_locked_example =
    registry_locked world world_laws 50 (summary first_config) initialized-IsSane settled refl quiet

pub not_yet : whitelisted_of world 50 after_initialize 102 ≡ false
unfolding InitializeConfig.execute load_config save_config digest
not_yet = refl

by_now : whitelisted_of world 50 after_add 102 ≡ true
unfolding AddToWhitelist.execute InitializeConfig.execute load_config save_config save_entry digest
by_now = refl

enlisting : Reach world Anyone (Foreign world) after_initialize after_add
enlisting = next here (instruction (by 100) (add_to_whitelist add 102) tt adding)

Reach-Enlisted_example : Enlisted world world_laws 50 Anyone 102 after_initialize after_add
Reach-Enlisted_example =
    Reach-Enlisted world world_laws 50 102 initialized-IsSane enlisting not_yet by_now

pub list_ours : (after_list list_key).owner ≡ 7
unfolding InitializeExtraAccountMetaList.execute InitializeExtraAccountMetaList.validate
    InitializeExtraAccountMetaList.handler InitializeExtraAccountMetaList.account_metas
    InitializeExtraAccountMetaList.create_if_empty InitializeExtraAccountMetaList.write_meta_list
    InitializeConfig.execute load_config save_config digest
list_ours = refl

pub listed-IsSane : IsSane world after_list
listed-IsSane =
    process-IsSane world world_laws (by 100) after_initialize after_list initialized-IsSane
      (initialize_extra_account_meta_list make_list) listing

handing_over : Reach world Anyone (Foreign world) after_list after_handing
handing_over = next here (instruction (by 100) (transfer_authority name_next) tt handing)

Reach-IsServed_example : IsServed world world_laws 50 after_handing
Reach-IsServed_example =
    Reach-IsServed world world_laws 50 listed-IsSane (record { ours = list_ours; baked = baked })
      handing_over
