-- ===== src/Tests/Whitelist.antt =====
-- The hook for a wallet that is added to the whitelist of the small world's mint, and removed again.
use solana_sas_extension.Prelude.{◌≡◌, ◌↔◌, inl, refl, true, some}
use solana_sas_extension.Prelude.Int.{pos}
use solana_sas_extension.Result.{ok}
use solana_sas_extension.Runtime.{Mint}
use solana_sas_extension.Accounts.{load_config, save_config, load_entry, save_entry}
use solana_sas_extension.Attestation.Words.{AreBytes}
use solana_sas_extension.Instructions.InitializeConfig
use solana_sas_extension.Instructions.AddToWhitelist
use solana_sas_extension.Instructions.RemoveFromWhitelist
use solana_sas_extension.Instructions.TransferHook.{execute}
use solana_sas_extension.Hook.Transfer.{Bound}
use solana_sas_extension.Hook.Whitelisted.{
  added_wallet_passes, IsAttestedTransfer, removed_wallet_needs_attestation,
}
use solana_sas_extension.Program.{add_to_whitelist}
use solana_sas_extension.Registry.Sane.{IsSane}
use solana_sas_extension.Registry.Sane.Steps.{process-IsSane}
use solana_sas_extension.Tests.World.{world, digest}
use solana_sas_extension.Tests.World.Laws.{world_codec, world_accounts, world_laws}
use solana_sas_extension.Tests.Scenario.{
  by, add, after_initialize, after_add, add_runs, drop_entry, after_drop, drop_runs, first_config,
}
use solana_sas_extension.Tests.Histories.{adding}
use solana_sas_extension.Tests.Registry.{initialized-IsSane}
use solana_sas_extension.Tests.Transfers.{transfer, source}

abbrev mint : Mint
mint = record { mint_authority = some 100 }

added_flag : world.transferring (after_add transfer.source_token).bytes ≡ ok true
unfolding AddToWhitelist.execute InitializeConfig.execute load_config save_config save_entry digest
added_flag = refl

added-Bound : Bound world transfer after_add source source mint first_config
unfolding AddToWhitelist.execute InitializeConfig.execute load_config save_config save_entry digest
added-Bound = record {
  source_read = refl;
  destination_read = refl;
  minted = refl;
  loaded = refl;
  source_mint = refl;
  destination_mint = refl;
  list = refl;
  derived = refl;
}

added_wallet_passes_example : execute world (by 102) transfer 5 after_add ≡ ok tt
added_wallet_passes_example =
    added_wallet_passes world world_codec world_accounts (by 100) (by 102) transfer 5 source source
      mint first_config after_initialize after_add add add_runs refl refl added-Bound added_flag
      (inl refl)

added-IsSane : IsSane world after_add
added-IsSane =
    process-IsSane world world_laws (by 100) after_initialize after_add initialized-IsSane
      (add_to_whitelist add 102) adding

dropped_bytes : AreBytes (after_drop transfer.attestation).bytes
unfolding RemoveFromWhitelist.execute AddToWhitelist.execute InitializeConfig.execute load_config
    load_entry save_config save_entry digest
dropped_bytes = tt

removed_wallet_needs_attestation_example :
    (execute world (by 102) transfer 5 after_drop ≡ ok tt)
    ↔ IsAttestedTransfer world world_laws
        (by 100)
        (by 102)
        transfer
        after_add
        after_drop
        added-IsSane
        (pos 1000)
removed_wallet_needs_attestation_example =
    removed_wallet_needs_attestation world world_laws (by 100) (by 102) transfer after_add
      after_drop added-IsSane drop_entry 5 (pos 1000) drop_runs refl refl dropped_bytes
