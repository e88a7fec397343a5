-- ===== src/Registry/Refines/Configs.antt =====
-- The instructions that write the config are steps of the registry of its mint.
use solana_sas_extension.Prelude.{◌≡◌, ◌≢◌, refl, sym, ◌∙◌, none, some, inl, inr, arith}
use solana_sas_extension.Result.{ok}
use solana_sas_extension.Solana.{Pubkey, Ledger, Invocation, default, system_program_id}
use solana_sas_extension.State.{HookConfig}
use solana_sas_extension.Runtime.{Runtime}
use solana_sas_extension.Runtime.Laws.{Unchanged}
use solana_sas_extension.Accounts.{load_config}
use solana_sas_extension.Instructions.InitializeConfig
use solana_sas_extension.Instructions.UpdateConfig
use solana_sas_extension.Instructions.TransferAuthority
use solana_sas_extension.Instructions.AcceptAuthority
use solana_sas_extension.Admin.Authority.{transfer_authority-Named, accept_authority-Accepted}
use solana_sas_extension.Admin.Config.{initialize_config-Initialized}
use solana_sas_extension.Admin.MetaList.{update_config-Updated}
use solana_sas_extension.Program.{
  Instruction, initialize_config, update_config, transfer_authority, accept_authority,
}
use solana_sas_extension.History.Effects.{update_config_found}
use solana_sas_extension.History.Evolution.{same_or_not}
use solana_sas_extension.Registry.{
  Registry, Op, configure, reconfigure, name_next, accept, named, perform, perform-configure,
  perform-reconfigure, perform-name_next, perform-accept,
}
use solana_sas_extension.Registry.Refines.{about, op_of}
use solana_sas_extension.Registry.Refines.Frames.{config_of_other, config_of_this, list_at}
use solana_sas_extension.Registry.Sane.{Laws, IsSane, config_canonical}
use solana_sas_extension.Registry.Sane.Steps.{ne_list}
use solana_sas_extension.Registry.View.{
  summary, config_at, registry_of, settings_of, settings_of_changed, settings_of_foreign,
}

named-ne : (k : Pubkey) → k ≢ default → named k ≡ some k
named-ne k ne = ground arith

module _ (rt : Runtime) (laws : Laws rt) (mint : Pubkey) (tx : Invocation) (l l' : Ledger)
    (sane : IsSane rt l) where
  -- The effect of an operation on this registry, and that of one on another's.
  pub this_step :
      (m : Pubkey) (op : Op) (r' : Registry)
      → m ≡ mint
      → perform tx.is_signer (some op) (registry_of rt mint l) ≡ some r'
      → registry_of rt mint l' ≡ r'
      → perform tx.is_signer (about mint m op) (registry_of rt mint l)
        ≡ some (registry_of rt mint l')
  this_step m op r' this done after =
      let named_it : about mint m op ≡ some op = ground arith in rw (named_it, after) done

  pub other_step :
      (m : Pubkey) (op : Op)
      → m ≢ mint
      → registry_of rt mint l' ≡ registry_of rt mint l
      → perform tx.is_signer (about mint m op) (registry_of rt mint l)
        ≡ some (registry_of rt mint l')
  unfolding perform
  other_step m op other same =
      let nothing : about mint m op ≡ none = ground arith in rw (nothing, same)

  -- The registry before, the operation that the instruction is, and the registry after.
  abbrev pub Refines : Instruction → Type 0
  Refines i =
      perform tx.is_signer (op_of mint i) (registry_of rt mint l) ≡ some (registry_of rt mint l')

  -- An instruction that found the config `c` of a mint, wrote `d` in its place, and touched nothing
  -- else but the mint's list.
  record Rewrote (m j : Pubkey) (c d : HookConfig) : Type 0 where
    pub at : j ≡ config_at rt m
    pub before : load_config rt l j ≡ ok c
    pub after : load_config rt l' j ≡ ok d
    pub others : (k : Pubkey) → k ≢ j → k ≢ list_at rt laws m → Unchanged l l' k

  Rewrote-Refines :
      (m j : Pubkey) (c d : HookConfig) (op : Op)
      → Rewrote m j c d
      → (m ≡ mint
          → settings_of rt mint l ≡ some (summary c)
          → perform tx.is_signer (some op) (registry_of rt mint l)
            ≡ some (record (registry_of rt mint l) { settings = some (summary d) }))
      → perform tx.is_signer (about mint m op) (registry_of rt mint l)
        ≡ some (registry_of rt mint l')
  Rewrote-Refines m j c d op w step =
      let others : (k : Pubkey) → k ≢ config_at rt m → k ≢ list_at rt laws m → Unchanged l l' k =
        λ k ne. w.others k (rw w.at ne) in
      elim (same_or_not m mint) [
        | inl this ↦
            let here : load_config rt l (config_at rt mint) ≡ ok c = rw (← this, ← w.at) w.before in
            this_step m op _ this (step this (settings_of_changed rt mint l l' c here))
              (config_of_this rt laws mint l l' m others d this (rw w.at at w.after))
        | inr other ↦ other_step m op other (config_of_other rt laws mint l l' m others other)
      ]

  pub update_config-Refines :
      (a : UpdateConfig.UpdateConfig) (cr s p : Pubkey)
      → UpdateConfig.execute rt tx a cr s p l ≡ ok l'
      → Refines (update_config a cr s p)
  unfolding op_of
  update_config-Refines a cr s p h =
      let (d, loaded, derived, at_list) = update_config_found rt tx l l' a cr s p h in
      let apart =
        ne_list rt laws a.mint a.config a.extra_account_meta_list d.bump derived at_list in
      let (c, i) = update_config-Updated rt laws.codec laws.accounts tx a cr s p l l' apart h in
      let at = config_canonical rt laws l a.config a.mint d (sane a.config) loaded derived in
      Rewrote-Refines a.mint a.config c _ (reconfigure cr s p)
        (record {
          at = at;
          before = i.found;
          after = i.written;
          others = λ k ne nl. rw (i.others k ne (rw at_list nl)) (refl, refl);
        })
        (λ _ here. perform-reconfigure _ _ (summary c) here cr s p i.signed)

  pub transfer_authority-Refines :
      (a : TransferAuthority.TransferAuthority)
      → TransferAuthority.execute rt tx a l ≡ ok l'
      → Refines (transfer_authority a)
  unfolding op_of
  transfer_authority-Refines a h =
      let (c, i) = transfer_authority-Named rt laws.codec laws.accounts tx a l l' h in
      let at = config_canonical rt laws l a.config a.mint c (sane a.config) i.found i.derived in
      Rewrote-Refines a.mint a.config c _ (name_next a.new_authority)
        (record { at = at; before = i.found; after = i.written; others = λ k ne nl. i.others k ne })
        (λ _ here. perform-name_next _ _ (summary c) here a.new_authority i.signed)

  pub accept_authority-Refines :
      (a : AcceptAuthority.AcceptAuthority)
      → AcceptAuthority.execute rt tx a l ≡ ok l'
      → Refines (accept_authority a)
  unfolding op_of
  accept_authority-Refines a h =
      let (c, i) = accept_authority-Accepted rt laws.codec laws.accounts tx a l l' h in
      let at = config_canonical rt laws l a.config a.mint c (sane a.config) i.found i.derived in
      Rewrote-Refines a.mint a.config c _ (accept a.pending_authority)
        (record {
          at = at;
          before = i.found;
          after = i.written;
          others = λ k ne nl. rw (i.others k ne) (refl, refl);
        })
        (λ _ here. rw i.by (
          perform-accept _ _ (summary c) here c.pending_authority
            (named-ne c.pending_authority i.pending) i.signed))

  pub initialize_config-Refines :
      (a : InitializeConfig.InitializeConfig) (cr s p : Pubkey)
      → InitializeConfig.execute rt tx a cr s p l ≡ ok l'
      → Refines (initialize_config a cr s p)
  unfolding op_of
  initialize_config-Refines a cr s p h =
      let (_, i) =
        initialize_config-Initialized rt laws.derivation.finds laws.codec laws.accounts tx a cr s p
          l l' h in
      let op = configure a.authority cr s p in
      let others : (k : Pubkey)
          → k ≢ config_at rt a.mint
          → k ≢ list_at rt laws a.mint
          → Unchanged l l' k =
        λ k ne nl. i.others k (rw i.at ne) in
      elim (same_or_not a.mint mint) [
        | inl this ↦
            let fresh : (l (config_at rt mint)).owner ≡ system_program_id =
              rw (← this, ← i.at) i.fresh in
            let none_yet =
              settings_of_foreign rt mint l l'
                (λ ours. laws.accounts.program_ne_system (sym ours ∙ fresh)) in
            this_step a.mint op _ this (perform-configure _ _ a.authority cr s p none_yet i.signed)
              (config_of_this rt laws mint l l' a.mint others _ this (rw i.at at i.written))
        | inr other ↦
            other_step a.mint op other (config_of_other rt laws mint l l' a.mint others other)
      ]
