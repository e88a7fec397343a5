-- ===== src/Registry/Filled.antt =====
-- What the hook's test of the owner means: an account of the program at a whitelist address is the
-- entry of that wallet.
use solana_sas_extension.Prelude.{ℕ, ◌≡◌, ◌≢◌, refl, sym, ◌∙◌, inl, inr}
use solana_sas_extension.Result.{ok, ok_of_bind}
use solana_sas_extension.Solana.{Pubkey, Ledger, Invocation}
use solana_sas_extension.State.{WhitelistEntry}
use solana_sas_extension.Seeds.{config_seeds, whitelist_seeds}
use solana_sas_extension.Runtime.{Runtime}
use solana_sas_extension.Runtime.Laws.{Unchanged}
use solana_sas_extension.Accounts.{load_entry}
use solana_sas_extension.Addresses.Unique.{address-IsDerived, config_ne_entry}
use solana_sas_extension.Instructions.TransferHook
use solana_sas_extension.Admin.Checks.{IsDerived}
use solana_sas_extension.Admin.Authority.{transfer_authority-Named, accept_authority-Accepted}
use solana_sas_extension.Admin.Config.{initialize_config-Initialized}
use solana_sas_extension.Admin.MetaList.{
  update_config-Updated, initialize_extra_account_meta_list-Listed,
}
use solana_sas_extension.Admin.Whitelist.{add_to_whitelist-Added, remove_from_whitelist-Removed}
use solana_sas_extension.Program.{
  Instruction, initialize_config, update_config, add_to_whitelist, remove_from_whitelist,
  transfer_authority, accept_authority, initialize_extra_account_meta_list, transfer_hook, process,
}
use solana_sas_extension.History.{Reach, here, next, instruction, elsewhere}
use solana_sas_extension.History.Effects.{update_config_found, meta_list_found}
use solana_sas_extension.History.Evolution.{same_or_not}
use solana_sas_extension.Registry.Refines.Frames.{entry_at_inj, entry_at-ne-list_at}
use solana_sas_extension.Registry.Runs.{Foreign}
use solana_sas_extension.Registry.Sane.{Laws, load_entry-Unchanged}
use solana_sas_extension.Registry.Sane.Steps.{ne_list}
use solana_sas_extension.Registry.View.{entry_at}

module _ (rt : Runtime) where
  abbrev pub entry_of : Pubkey → Pubkey → WhitelistEntry
  entry_of mint w = record {
    wallet = w;
    bump = (rt.find_program_address (whitelist_seeds rt mint w) rt.program_id).1;
  }

  abbrev pub IsFilledAt : Ledger → Pubkey → Pubkey → Type 0
  IsFilledAt l mint w =
      (l (entry_at rt mint w)).owner ≡ rt.program_id
      → load_entry rt l (entry_at rt mint w) ≡ ok (entry_of mint w)

  -- Every account of the program at a whitelist address is the entry that belongs there.
  abbrev pub IsFilled : Ledger → Type 0
  IsFilled l = (mint w : Pubkey) → IsFilledAt l mint w

module _ (rt : Runtime) (laws : Laws rt) where
  kept :
      (l l' : Ledger) (m w : Pubkey)
      → Unchanged l l' (entry_at rt m w)
      → IsFilledAt rt l m w
      → IsFilledAt rt l' m w
  kept l l' m w u filled ours =
      load_entry-Unchanged rt laws l l' (entry_at rt m w) (entry_of rt m w) u
        (filled (sym u.0 ∙ ours))

  entry_ne_config :
      (m m' w j : Pubkey) (b : ℕ) → IsDerived rt (config_seeds rt m') b j → entry_at rt m w ≢ j
  entry_ne_config m m' w j b derived p =
      config_ne_entry rt laws.derivation m' m w j b derived (sym p)

  module _ (tx : Invocation) (l l' : Ledger) (filled : IsFilled rt l) where
    process-IsFilled : (i : Instruction) → process rt tx i l ≡ ok l' → IsFilled rt l'
    unfolding process
    process-IsFilled (initialize_config a cr s p) h m w =
        let (_, i) =
          initialize_config-Initialized rt laws.derivation.finds laws.codec laws.accounts tx a cr s
            p l l' h in
        kept l l' m w (i.others _ (entry_ne_config m a.mint w a.config _ i.derived)) (filled m w)
    process-IsFilled (update_config a cr s p) h m w =
        let (d, _, derived, at) = update_config_found rt tx l l' a cr s p h in
        let apart = ne_list rt laws a.mint a.config a.extra_account_meta_list d.bump derived at in
        let (_, i) = update_config-Updated rt laws.codec laws.accounts tx a cr s p l l' apart h in
        let same =
          i.others (entry_at rt m w) (entry_ne_config m a.mint w a.config d.bump derived)
            (rw at (entry_at-ne-list_at rt laws m w a.mint)) in
        kept l l' m w (rw same (refl, refl)) (filled m w)
    process-IsFilled (add_to_whitelist a v) h m w =
        let (_, i) = add_to_whitelist-Added rt laws.codec laws.accounts tx a v l l' h in
        elim (same_or_not (entry_at rt m w) a.whitelist_entry) [
          | inl at ↦ λ _.
              let (mints, wallets) = entry_at_inj rt laws m a.mint w v (at ∙ i.at) in
              rw (at, mints, wallets) i.written
          | inr other ↦ kept l l' m w (i.others (entry_at rt m w) other) (filled m w)
        ]
    process-IsFilled (remove_from_whitelist a v) h m w =
        let (_, _, i) = remove_from_whitelist-Removed rt laws.codec laws.accounts tx a v l l' h in
        elim (same_or_not (entry_at rt m w) a.whitelist_entry) [
          | inl at ↦
              λ ours. absurd (laws.accounts.program_ne_system (sym (rw at at ours) ∙ i.closed))
          | inr other ↦ kept l l' m w (i.others (entry_at rt m w) other) (filled m w)
        ]
    process-IsFilled (transfer_authority a) h m w =
        let (c, i) = transfer_authority-Named rt laws.codec laws.accounts tx a l l' h in
        kept l l' m w (i.others _ (entry_ne_config m a.mint w a.config c.bump i.derived))
          (filled m w)
    process-IsFilled (accept_authority a) h m w =
        let (c, i) = accept_authority-Accepted rt laws.codec laws.accounts tx a l l' h in
        let same = i.others _ (entry_ne_config m a.mint w a.config c.bump i.derived) in
        kept l l' m w (rw same (refl, refl)) (filled m w)
    process-IsFilled (initialize_extra_account_meta_list a) h m w =
        let (d, _, derived, at) = meta_list_found rt tx l l' a h in
        let apart = ne_list rt laws a.mint a.config a.extra_account_meta_list d.bump derived at in
        let (_, i) =
          initialize_extra_account_meta_list-Listed rt laws.codec laws.accounts tx a l l' apart h in
        kept l l' m w (i.others (entry_at rt m w) (rw at (entry_at-ne-list_at rt laws m w a.mint)))
          (filled m w)
    process-IsFilled (transfer_hook a amount) h m w =
        let (_, _, unchanged) = ok_of_bind (TransferHook.execute rt tx a amount l) _ h in
        let no_change : l ≡ l' = cc unchanged in rw (← no_change) (filled m w)

  Foreign-IsFilled : (l l' : Ledger) → Foreign rt l l' → IsFilled rt l → IsFilled rt l'
  Foreign-IsFilled l l' f filled m w ours =
      let derived = address-IsDerived rt laws.derivation (whitelist_seeds rt m w) in
      let before = f.derived _ (entry_at rt m w) derived ours in
      kept l l' m w (f.kept (entry_at rt m w) before) (filled m w) ours

  -- Where every account of the program at a whitelist address is the entry of the mint and the wallet
  -- of that address, this stays so in any run.
  pub Reach-IsFilled :
      {allowed : Invocation → Type 0} {l l' : Ledger}
      → IsFilled rt l
      → Reach rt allowed (Foreign rt) l l'
      → IsFilled rt l'
  Reach-IsFilled filled here = filled
  Reach-IsFilled {allowed} {l} {l'} filled (next {m} r (instruction tx i may h)) =
      process-IsFilled tx m l' (Reach-IsFilled filled r) i h
  Reach-IsFilled {allowed} {l} {l'} filled (next {m} r (elsewhere f)) =
      Foreign-IsFilled m l' f (Reach-IsFilled filled r)
