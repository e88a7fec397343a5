-- ===== src/History/InStep.antt =====
-- The list of a mint stays in step with its config, whatever instruction runs.
use solana_sas_extension.Prelude.{◌≡◌, ◌≢◌, ℕ, inl, inr, refl, sym, ◌∙◌}
use solana_sas_extension.Result.{ok, ok_of_bind}
use solana_sas_extension.Solana.{Pubkey, Ledger, Invocation, default}
use solana_sas_extension.State.{HookConfig}
use solana_sas_extension.Seeds.{config_seeds, meta_list_seeds, whitelist_seeds}
use solana_sas_extension.Runtime.{Runtime}
use solana_sas_extension.Runtime.Laws.{AddressLaws, CodecLaws, AccountLaws, Unchanged}
use solana_sas_extension.Accounts.{load_config}
use solana_sas_extension.Accounts.Laws.{load_config-Unchanged}
use solana_sas_extension.Instructions.TransferHook
use solana_sas_extension.Instructions.InitializeExtraAccountMetaList.{account_metas}
use solana_sas_extension.Admin.Checks.{address, IsDerived}
use solana_sas_extension.Admin.Authority.{transfer_authority-Named, accept_authority-Accepted}
use solana_sas_extension.Admin.Config.{initialize_config-Initialized}
use solana_sas_extension.Admin.MetaList.{
  IsBaked, update_config-Updated, initialize_extra_account_meta_list-Listed,
}
use solana_sas_extension.Admin.Whitelist.{add_to_whitelist-Added, remove_from_whitelist-Removed}
use solana_sas_extension.Program.{
  Instruction, initialize_config, update_config, add_to_whitelist, remove_from_whitelist,
  transfer_authority, accept_authority, initialize_extra_account_meta_list, transfer_hook, process,
}
use solana_sas_extension.History.Effects.{update_config_found, meta_list_found}
use solana_sas_extension.History.Evolution.{same_or_not, not_fresh, not_entry, same_config}

-- Addresses do not collide: no config or entry address is a list address, and the list address
-- belongs to one mint.
pub record Separate (rt : Runtime) (mint : Pubkey) : Type 0 where
  pub config_list :
      (m m' : Pubkey) (b : ℕ)
      → ¬ IsDerived rt (config_seeds rt m) b (address rt (meta_list_seeds rt m'))
  pub entry_list :
      (m w m' : Pubkey) (b : ℕ)
      → ¬ IsDerived rt (whitelist_seeds rt m w) b (address rt (meta_list_seeds rt m'))
  pub one_list :
      (m : Pubkey)
      → address rt (meta_list_seeds rt m) ≡ address rt (meta_list_seeds rt mint)
      → m ≡ mint

-- `k` is the one config of the mint: its bump derives it from this mint alone, and no other
-- config's bump derives that config from this mint.
pub record IsOnlyConfig (rt : Runtime) (mint k : Pubkey) (c : HookConfig) (l : Ledger)
    : Type 0 where
  pub found : load_config rt l k ≡ ok c
  pub derived : IsDerived rt (config_seeds rt mint) c.bump k
  pub one_mint : (m : Pubkey) → IsDerived rt (config_seeds rt m) c.bump k → m ≡ mint
  pub only :
      (j : Pubkey) (d : HookConfig)
      → load_config rt l j ≡ ok d
      → IsDerived rt (config_seeds rt mint) d.bump j
      → j ≡ k

module _ (rt : Runtime) (address_laws : AddressLaws rt) (codec : CodecLaws rt)
    (accounts : AccountLaws rt) (mint k : Pubkey) (c : HookConfig) (separate : Separate rt mint)
    (tx : Invocation) (l l' : Ledger) (here : IsOnlyConfig rt mint k c l)
    (before : IsBaked rt k (address rt (meta_list_seeds rt mint)) l) where
  abbrev list : Pubkey
  list = address rt (meta_list_seeds rt mint)

  config_not_list :
      (m m' j i : Pubkey) (b : ℕ)
      → IsDerived rt (config_seeds rt m) b j
      → i ≡ address rt (meta_list_seeds rt m')
      → j ≢ i
  config_not_list m m' j i b d at p = separate.config_list m m' b (rw (← at, ← p) d)

  entry_not_list : (m w j : Pubkey) (b : ℕ) → IsDerived rt (whitelist_seeds rt m w) b j → list ≢ j
  entry_not_list m w j b d p = separate.entry_list m w mint b (rw p d)

  -- The config may change as long as its metas do not.
  carry :
      (d : HookConfig)
      → load_config rt l' k ≡ ok d
      → account_metas rt d ≡ account_metas rt c
      → Unchanged l l' list
      → IsBaked rt k list l'
  carry d loaded metas kept =
      let current_is : before.current ≡ c = cc (before.loaded, here.found) in
      record {
        current = d;
        loaded = loaded;
        metas = before.metas;
        built = metas ∙ rw (← current_is) before.built;
        blank = before.blank;
        baked = rw kept.1 before.baked;
      }

  kept : Unchanged l l' k → Unchanged l l' list → IsBaked rt k list l'
  kept at_config =
      carry c (load_config-Unchanged rt l l' k c accounts.program_ne_system at_config here.found)
        refl

  no_list : (m : Pubkey) → address rt (meta_list_seeds rt m) ≢ k
  no_list m p = config_not_list mint m k _ c.bump here.derived refl (sym p)

  list_not_config : (m j : Pubkey) (b : ℕ) → IsDerived rt (config_seeds rt m) b j → list ≢ j
  list_not_config m j b d p = config_not_list m mint j list b d refl (sym p)

  -- Two successful writers of a list of this mint are one: the config is `k`.
  is_k :
      (m j i : Pubkey) (d : HookConfig)
      → load_config rt l j ≡ ok d
      → IsDerived rt (config_seeds rt m) d.bump j
      → i ≡ address rt (meta_list_seeds rt m)
      → i ≡ list
      → j ≡ k
  is_k m j i d loaded derived at same =
      here.only j d loaded (rw (separate.one_list m (sym at ∙ same)) at derived)

  not_k :
      (m j i : Pubkey) (d : HookConfig)
      → load_config rt l j ≡ ok d
      → IsDerived rt (config_seeds rt m) d.bump j
      → i ≡ address rt (meta_list_seeds rt m)
      → i ≢ list
      → k ≢ j
  not_k m j i d loaded derived at other p =
      let is_c =
        same_config rt address_laws codec accounts k no_list c l l' here.found j d loaded p in
      let is_mint = here.one_mint m (rw (p, ← is_c) derived) in other (rw is_mint at at)

  -- At the list address of a mint with one config, where addresses do not collide: if the list holds
  -- the metas of the config, it holds them after any successful instruction.
  pub process-IsBaked : (i : Instruction) → process rt tx i l ≡ ok l' → IsBaked rt k list l'
  unfolding process account_metas
  process-IsBaked (initialize_config a cr s p) h =
      let (_, i) =
        initialize_config-Initialized rt address_laws codec accounts tx a cr s p l l' h in
      let fresh =
        not_fresh rt address_laws codec accounts k no_list c l l' here.found a.config i.fresh in
      kept (i.others k fresh) (i.others list (list_not_config a.mint a.config _ i.derived))
  process-IsBaked (update_config a cr s p) h =
      let (d, loaded, derived, at) = update_config_found rt tx l l' a cr s p h in
      let apart = config_not_list a.mint a.mint a.config _ d.bump derived at in
      let (_, u) = update_config-Updated rt codec accounts tx a cr s p l l' apart h in
      elim (same_or_not a.extra_account_meta_list list) [
        | inl same ↦ rw (is_k a.mint a.config _ d loaded derived at same, same) at u.baked
        | inr other ↦
            let config =
              u.others k (not_k a.mint a.config _ d loaded derived at other)
                (config_not_list mint a.mint k _ c.bump here.derived at) in
            let here_too =
              u.others list (list_not_config a.mint a.config d.bump derived) (λ q. other (sym q)) in
            kept (rw config (refl, refl)) (rw here_too (refl, refl))
      ]
  process-IsBaked (add_to_whitelist a w) h =
      let (_, i) = add_to_whitelist-Added rt codec accounts tx a w l l' h in
      let fresh =
        not_fresh rt address_laws codec accounts k no_list c l l' here.found a.whitelist_entry
          i.fresh in
      let bump = (rt.find_program_address (whitelist_seeds rt a.mint w) rt.program_id).1 in
      let found : IsDerived rt (whitelist_seeds rt a.mint w) bump a.whitelist_entry =
        rw i.at (address_laws.create-find (whitelist_seeds rt a.mint w) rt.program_id) in
      kept (i.others k fresh) (i.others list (entry_not_list a.mint w a.whitelist_entry bump found))
  process-IsBaked (remove_from_whitelist a w) h =
      let (_, e, i) = remove_from_whitelist-Removed rt codec accounts tx a w l l' h in
      let not_it =
        not_entry rt address_laws codec accounts k no_list c l l' here.found a.whitelist_entry e
          i.entry in
      kept (i.others k not_it)
        (i.others list (entry_not_list a.mint w a.whitelist_entry e.bump i.at))
  process-IsBaked (transfer_authority a) h =
      let (d, i) = transfer_authority-Named rt codec accounts tx a l l' h in
      let at_list = i.others list (list_not_config a.mint a.config d.bump i.derived) in
      elim (same_or_not k a.config) [
        | inl p ↦
            let is_c =
              same_config rt address_laws codec accounts k no_list c l l' here.found a.config d
                i.found p in
            carry (record c { pending_authority = a.new_authority }) (rw (p, ← is_c) i.written) refl
              at_list
        | inr other ↦ kept (i.others k other) at_list
      ]
  process-IsBaked (accept_authority a) h =
      let (d, i) = accept_authority-Accepted rt codec accounts tx a l l' h in
      let at_list = i.others list (list_not_config a.mint a.config d.bump i.derived) in
      elim (same_or_not k a.config) [
        | inl p ↦
            let is_c =
              same_config rt address_laws codec accounts k no_list c l l' here.found a.config d
                i.found p in
            carry (record c { authority = c.pending_authority; pending_authority = default })
              (rw (p, ← is_c) i.written) refl (rw at_list (refl, refl))
        | inr other ↦ kept (rw (i.others k other) (refl, refl)) (rw at_list (refl, refl))
      ]
  process-IsBaked (initialize_extra_account_meta_list a) h =
      let (d, loaded, derived, at) = meta_list_found rt tx l l' a h in
      let apart = config_not_list a.mint a.mint a.config _ d.bump derived at in
      let (_, i) = initialize_extra_account_meta_list-Listed rt codec accounts tx a l l' apart h in
      elim (same_or_not a.extra_account_meta_list list) [
        | inl same ↦ rw (is_k a.mint a.config _ d loaded derived at same, same) at i.baked
        | inr other ↦
            kept (i.others k (config_not_list mint a.mint k _ c.bump here.derived at))
              (i.others list (λ q. other (sym q)))
      ]
  process-IsBaked (transfer_hook a amount) h =
      let (_, _, unchanged) = ok_of_bind (TransferHook.execute rt tx a amount l) _ h in
      let no_change : l ≡ l' = cc unchanged in rw (← no_change) before
