-- ===== src/Registry/Refines/Simulation.antt =====
-- The simulation: a step of the program is a step of the registry of each mint.
use solana_sas_extension.Prelude.{◌≡◌, some}
use solana_sas_extension.Result.{ok, ok_of_bind}
use solana_sas_extension.Solana.{Pubkey, Ledger, Invocation}
use solana_sas_extension.Runtime.{Runtime}
use solana_sas_extension.Instructions.TransferHook
use solana_sas_extension.Admin.MetaList.{initialize_extra_account_meta_list-Listed}
use solana_sas_extension.Program.{
  Instruction, initialize_config, update_config, add_to_whitelist, remove_from_whitelist,
  transfer_authority, accept_authority, initialize_extra_account_meta_list, transfer_hook, process,
}
use solana_sas_extension.History.Effects.{meta_list_found}
use solana_sas_extension.Registry.{perform}
use solana_sas_extension.Registry.Refines.{op_of}
use solana_sas_extension.Registry.Refines.Configs.{
  initialize_config-Refines, update_config-Refines, transfer_authority-Refines,
  accept_authority-Refines,
}
use solana_sas_extension.Registry.Refines.Entries.{
  add_to_whitelist-Refines, remove_from_whitelist-Refines,
}
use solana_sas_extension.Registry.Refines.Frames.{
  registry_of-Unchanged, config_at-ne-list_at, entry_at-ne-list_at,
}
use solana_sas_extension.Registry.Sane.{Laws, IsSane}
use solana_sas_extension.Registry.Sane.Steps.{ne_list}
use solana_sas_extension.Registry.View.{config_at, entry_at, registry_of}

module _ (rt : Runtime) (laws : Laws rt) (mint : Pubkey) (tx : Invocation) (l l' : Ledger)
    (sane : IsSane rt l) where
  -- From a ledger where every config and entry stands in its place: a successful instruction does to
  -- the registry of any mint exactly what the operation does that the instruction is for that mint,
  -- with the signatures that this operation asks for; an instruction about another mint, the writing
  -- of a list and a transfer leave the registry as it was.
  pub process-refines :
      (i : Instruction)
      → process rt tx i l ≡ ok l'
      → perform tx.is_signer (op_of mint i) (registry_of rt mint l) ≡ some (registry_of rt mint l')
  unfolding process op_of perform
  process-refines (initialize_config a cr s p) h =
      initialize_config-Refines rt laws mint tx l l' sane a cr s p h
  process-refines (update_config a cr s p) h =
      update_config-Refines rt laws mint tx l l' sane a cr s p h
  process-refines (add_to_whitelist a w) h =
      add_to_whitelist-Refines rt laws mint tx l l' sane a w h
  process-refines (remove_from_whitelist a w) h =
      remove_from_whitelist-Refines rt laws mint tx l l' sane a w h
  process-refines (transfer_authority a) h =
      transfer_authority-Refines rt laws mint tx l l' sane a h
  process-refines (accept_authority a) h = accept_authority-Refines rt laws mint tx l l' sane a h
  process-refines (initialize_extra_account_meta_list a) h =
      let (d, _, derived, at) = meta_list_found rt tx l l' a h in
      let apart = ne_list rt laws a.mint a.config a.extra_account_meta_list d.bump derived at in
      let (_, i) =
        initialize_extra_account_meta_list-Listed rt laws.codec laws.accounts tx a l l' apart h in
      let same =
        registry_of-Unchanged rt laws mint l l'
          (i.others (config_at rt mint) (rw at (config_at-ne-list_at rt laws mint a.mint)))
          (λ w.
            i.others (entry_at rt mint w) (rw at (entry_at-ne-list_at rt laws mint w a.mint))) in
      rw same
  process-refines (transfer_hook a amount) h =
      let (_, _, unchanged) = ok_of_bind (TransferHook.execute rt tx a amount l) _ h in
      let no_change : l ≡ l' = cc unchanged in rw no_change
