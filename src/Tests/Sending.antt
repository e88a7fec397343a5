-- ===== src/Tests/Sending.antt =====
-- A transfer with the accounts that the stored list of the small world's mint resolves to.
use solana_sas_extension.Prelude.{◌≡◌, ◌≢◌, ◌↔◌, refl, inl, inr, true, false, some, arith}
use solana_sas_extension.Prelude.Int.{pos}
use solana_sas_extension.Result.{ok}
use solana_sas_extension.Solana.{Pubkey, Ledger, update, update_ne, update_self}
use solana_sas_extension.Accounts.{load_config, save_config}
use solana_sas_extension.Attestation.Words.{AreBytes}
use solana_sas_extension.Instructions.InitializeConfig
use solana_sas_extension.Instructions.InitializeExtraAccountMetaList
use solana_sas_extension.Instructions.TransferHook.{execute}
use solana_sas_extension.Hook.Acceptance.{MayTransfer}
use solana_sas_extension.Runtime.Laws.{Unchanged}
use solana_sas_extension.History.{Reach, here, next, elsewhere, Anyone}
use solana_sas_extension.History.Evolution.{same_or_not}
use solana_sas_extension.Registry.Lists.{IsServed, Reach-IsServed}
use solana_sas_extension.Registry.Runs.{Foreign, Reach-refines}
use solana_sas_extension.Registry.Sane.{IsSane}
use solana_sas_extension.Registry.Transfers.{
  AreOf, MaySend, HoldsAttestation, IsPassed, transfer_follows_registry,
}
use solana_sas_extension.Registry.View.{registry_of}
use solana_sas_extension.Tests.World.{world, digest}
use solana_sas_extension.Tests.World.Laws.{world_laws}
use solana_sas_extension.Tests.Metas.{resolve, world_metas, unpack, world_unpack}
use solana_sas_extension.Tests.Scenario.{by, after_list}
use solana_sas_extension.Tests.Attestations.{stored, stored_bytes}
use solana_sas_extension.Tests.Transfers.{transfer, source}
use solana_sas_extension.Tests.InStep.{baked}
use solana_sas_extension.Tests.Registry.{listed-IsSane, list_ours}

-- With its list made, the SAS program stores an attestation of the wallet 102.
abbrev attested : Ledger
attested =
    update after_list transfer.attestation
      (record { lamports = 1; owner = 203; bytes = stored; executable = false })

attested_owner : (attested transfer.attestation).owner ≡ 203
attested_owner = rw (update_self after_list transfer.attestation _)

unowned : (after_list transfer.attestation).owner ≡ 0
unfolding InitializeExtraAccountMetaList.execute InitializeExtraAccountMetaList.validate
    InitializeExtraAccountMetaList.handler InitializeExtraAccountMetaList.account_metas
    InitializeExtraAccountMetaList.create_if_empty InitializeExtraAccountMetaList.write_meta_list
    InitializeConfig.execute load_config save_config digest
unowned = refl

storing : (k : Pubkey) → (after_list k).owner ≡ 7 → Unchanged after_list attested k
storing k ours =
    let ne : k ≢ transfer.attestation = λ p. omega (arith, unowned, rw p at ours) in
    rw (update_ne after_list transfer.attestation k _ ne) (refl, refl)

owners : (k : Pubkey) → (attested k).owner ≡ 7 → (after_list k).owner ≡ 7
owners k ours = elim (same_or_not k transfer.attestation) [
  | inl at ↦ absurd (omega (arith, attested_owner, rw at at ours))
  | inr other ↦ rw (update_ne after_list transfer.attestation k _ other) at ours
]

run : Reach world Anyone (Foreign world) after_list attested
run = next here (
    elsewhere (record {
      kept = storing;
      derived = λ s k p ours. owners k ours;
      blank = λ k ours other. absurd (other (owners k ours));
    }))

attested-IsSane : IsSane world attested
attested-IsSane = let (sane, _, _, _) = Reach-refines world world_laws 50 listed-IsSane run in sane

served : IsServed world world_laws 50 attested
served =
    Reach-IsServed world world_laws 50 listed-IsSane (record { ours = list_ours; baked = baked })
      run

passed :
    IsPassed world world_laws unpack world_unpack resolve world_metas attested 60 50 61 102 transfer
unfolding InitializeExtraAccountMetaList.execute InitializeExtraAccountMetaList.validate
    InitializeExtraAccountMetaList.handler InitializeExtraAccountMetaList.account_metas
    InitializeExtraAccountMetaList.create_if_empty InitializeExtraAccountMetaList.write_meta_list
    InitializeConfig.execute load_config save_config digest
passed = refl

are_of : AreOf world attested 50 60 61 source source (record { mint_authority = some 100 })
unfolding InitializeExtraAccountMetaList.execute InitializeExtraAccountMetaList.validate
    InitializeExtraAccountMetaList.handler InitializeExtraAccountMetaList.account_metas
    InitializeExtraAccountMetaList.create_if_empty InitializeExtraAccountMetaList.write_meta_list
    InitializeConfig.execute load_config save_config digest
are_of = record {
  minted = refl;
  source_read = refl;
  source_mint = refl;
  destination_read = refl;
  destination_mint = refl;
}

attested_bytes : AreBytes (attested transfer.attestation).bytes
unfolding digest
attested_bytes = stored_bytes

transfer_follows_registry_example : (execute world (by 102) transfer 5 attested ≡ ok tt) ↔ (
    (world.transferring (attested 60).bytes ≡ ok true)
    × MayTransfer source 102
    × MaySend (registry_of world 50 attested) (HoldsAttestation world attested (pos 1000) 102) 102)
transfer_follows_registry_example =
    transfer_follows_registry world world_laws unpack world_unpack resolve world_metas attested 60
      50 61 102 attested-IsSane served transfer passed (by 102) (pos 1000) 5 source source
      (record { mint_authority = some 100 }) are_of refl attested_bytes
