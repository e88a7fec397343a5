-- ===== src/Registry/Sane/Steps.antt =====
-- Every instruction keeps the invariant.
use solana_sas_extension.Prelude.{
  ℕ, ◌≡◌, ◌≢◌, refl, sym, ap, ◌∙◌, inl, inr, ◌⊎◌, none, [], ◌∷◌, length, replicate, map,
  Option-cases,
}
use solana_sas_extension.Result.{ok, ok_of_bind}
use solana_sas_extension.Solana.{Pubkey, Bytes, Ledger, Invocation}
use solana_sas_extension.State.{HookConfig}
use solana_sas_extension.Seeds.{config_seeds, meta_list_seeds, whitelist_seeds}
use solana_sas_extension.Runtime.{Runtime}
use solana_sas_extension.Accounts.{load_config}
use solana_sas_extension.Addresses.Unique.{config_ne_list, entry_ne_list, derived_at}
use solana_sas_extension.Accounts.Laws.{HoldsConfig-load_config, HoldsEntry-load_entry}
use solana_sas_extension.Instructions.UpdateConfig.{zero_fill}
use solana_sas_extension.Instructions.TransferHook
use solana_sas_extension.Admin.Checks.{address, IsDerived}
use solana_sas_extension.Admin.Authority.{transfer_authority-Named, accept_authority-Accepted}
use solana_sas_extension.Admin.Config.{initialize_config-Initialized}
use solana_sas_extension.Admin.MetaList.{
  IsBaked, update_config-Updated, initialize_extra_account_meta_list-Listed,
}
use solana_sas_extension.Admin.Whitelist.{add_to_whitelist-Added, remove_from_whitelist-Removed}
use solana_sas_extension.Program.{
  Instruction, initialize_config, update_config, add_to_whitelist, remove_from_whitelist,
  transfer_authority, accept_authority, initialize_extra_account_meta_list, transfer_hook, process,
}
use solana_sas_extension.History.Effects.{update_config_found, meta_list_found}
use solana_sas_extension.History.Evolution.{same_or_not}
use solana_sas_extension.Registry.Sane.{
  Laws, IsSaneAt, IsSane, IsSaneAt-Unchanged, IsSaneAt-config, IsSaneAt-entry, IsSaneAt-blank,
  IsSaneAt-foreign,
}

map-zeros : (b : Bytes) → map {B = ℕ} (λ _. 0) b ≡ replicate (length b) 0
map-zeros [] = refl
map-zeros (x ∷ b) = ap (λ (r : Bytes). 0 ∷ r) (map-zeros b)

module _ (rt : Runtime) (laws : Laws rt) where
  pub ne_list :
      (m j i : Pubkey) (b : ℕ)
      → IsDerived rt (config_seeds rt m) b j
      → i ≡ address rt (meta_list_seeds rt m)
      → j ≢ i
  ne_list m j i b derived at p = config_ne_list rt laws.derivation m m j b derived (p ∙ at)

  IsBaked-IsSaneAt :
      (l : Ledger) (config list : Pubkey) (b : IsBaked rt config list l)
      → (rt.read_config b.blank ≡ none) × (rt.read_entry b.blank ≡ none)
      → IsSaneAt rt l list
  IsBaked-IsSaneAt l config list b neither =
      let (no_config, no_entry) =
        laws.metas.no_account_type b.blank (l list).bytes b.metas neither b.baked in
      IsSaneAt-blank rt laws l list no_config no_entry

  zero_fill_neither :
      (b : Bytes)
      → (rt.read_config (zero_fill rt b) ≡ none) × (rt.read_entry (zero_fill rt b) ≡ none)
  zero_fill_neither b = rw (map-zeros b) (laws.metas.no_zero_type (length b))

  -- An account of the program at a list address is neither a config nor an entry.
  list_neither :
      (l : Ledger) (m list : Pubkey)
      → IsSaneAt rt l list
      → list ≡ address rt (meta_list_seeds rt m)
      → (l list).owner ≡ rt.program_id
      → (rt.read_config (l list).bytes ≡ none) × (rt.read_entry (l list).bytes ≡ none)
  list_neither l m list sane at ours = (
    elim (Option-cases (rt.read_config (l list).bytes)) [
      | inl neither ↦ neither
      | inr (c, held) ↦
          let it =
            sane.configs c
              (HoldsConfig-load_config rt l list c laws.accounts.program_ne_system (ours, held)) in
          absurd (
            config_ne_list rt laws.derivation it.mint m list _
              (derived_at rt laws.derivation (config_seeds rt it.mint) list it.at) at)
    ],
    elim (Option-cases (rt.read_entry (l list).bytes)) [
      | inl neither ↦ neither
      | inr (e, held) ↦
          let it =
            sane.entries e
              (HoldsEntry-load_entry rt l list e laws.accounts.program_ne_system (ours, held)) in
          absurd (
            entry_ne_list rt laws.derivation it.mint e.wallet m list _
              (derived_at rt laws.derivation (whitelist_seeds rt it.mint e.wallet) list it.at) at)
    ],
  )

  module _ (tx : Invocation) (l l' : Ledger) (sane : IsSane rt l) where
    -- A new state of the config at `j` with the old bump.
    same_place :
        (j : Pubkey) (c d : HookConfig)
        → load_config rt l j ≡ ok c
        → load_config rt l' j ≡ ok d
        → d.bump ≡ c.bump
        → IsSaneAt rt l' j
    same_place j c d before after bump =
        let at = (sane j).configs c before in
        IsSaneAt-config rt laws l' j d after
          (record { mint = at.mint; at = at.at; found = bump ∙ at.found })

    list_written :
        (m config list : Pubkey)
        → list ≡ address rt (meta_list_seeds rt m)
        → (b : IsBaked rt config list l')
        → ((n : ℕ) × (b.blank ≡ replicate n 0))
          ⊎ ((b.blank ≡ (l list).bytes) × ((l' list).owner ≡ (l list).owner))
        → IsSaneAt rt l' list
    list_written m config list at b (inl (n, zeros)) =
        IsBaked-IsSaneAt l' config list b (rw zeros (laws.metas.no_zero_type n))
    list_written m config list at b (inr (old, owner)) =
        elim (same_or_not (l list).owner rt.program_id) [
          | inl ours ↦
              IsBaked-IsSaneAt l' config list b (rw old (list_neither l m list (sane list) at ours))
          | inr other ↦ IsSaneAt-foreign rt laws l' list (λ ours. other (sym owner ∙ ours))
        ]

    -- From a ledger whose configs and entries all stand where they should, with the bumps that were
    -- found for them, every successful instruction leads to such a ledger.
    pub process-IsSane : (i : Instruction) → process rt tx i l ≡ ok l' → IsSane rt l'
    unfolding process
    process-IsSane (initialize_config a cr s p) h k =
        let (_, i) =
          initialize_config-Initialized rt laws.derivation.finds laws.codec laws.accounts tx a cr s
            p l l' h in
        elim (same_or_not k a.config) [
          | inl at ↦ rw at (
              IsSaneAt-config rt laws l' a.config _ i.written
                (record { mint = a.mint; at = i.at; found = refl }))
          | inr other ↦ IsSaneAt-Unchanged rt laws l l' k (i.others k other) (sane k)
        ]
    process-IsSane (update_config a cr s p) h k =
        let (d, _, derived, at_list) = update_config_found rt tx l l' a cr s p h in
        let apart = ne_list a.mint a.config a.extra_account_meta_list d.bump derived at_list in
        let (c, i) = update_config-Updated rt laws.codec laws.accounts tx a cr s p l l' apart h in
        elim (same_or_not k a.config) [
          | inl at ↦ rw at (same_place a.config c _ i.found i.written refl)
          | inr other ↦ elim (same_or_not k a.extra_account_meta_list) [
            | inl at ↦ rw at (
                IsBaked-IsSaneAt l' a.config a.extra_account_meta_list i.baked
                  (rw i.over (zero_fill_neither (l a.extra_account_meta_list).bytes)))
            | inr other' ↦
                IsSaneAt-Unchanged rt laws l l' k (rw (i.others k other other') (refl, refl))
                  (sane k)
          ]
        ]
    process-IsSane (add_to_whitelist a w) h k =
        let (_, i) = add_to_whitelist-Added rt laws.codec laws.accounts tx a w l l' h in
        elim (same_or_not k a.whitelist_entry) [
          | inl at ↦ rw at (
              IsSaneAt-entry rt laws l' a.whitelist_entry _ i.written
                (record { mint = a.mint; at = i.at; found = refl }))
          | inr other ↦ IsSaneAt-Unchanged rt laws l l' k (i.others k other) (sane k)
        ]
    process-IsSane (remove_from_whitelist a w) h k =
        let (_, _, i) = remove_from_whitelist-Removed rt laws.codec laws.accounts tx a w l l' h in
        elim (same_or_not k a.whitelist_entry) [
          | inl at ↦ rw at (
              IsSaneAt-foreign rt laws l' a.whitelist_entry
                (λ ours. laws.accounts.program_ne_system (sym ours ∙ i.closed)))
          | inr other ↦ IsSaneAt-Unchanged rt laws l l' k (i.others k other) (sane k)
        ]
    process-IsSane (transfer_authority a) h k =
        let (c, i) = transfer_authority-Named rt laws.codec laws.accounts tx a l l' h in
        elim (same_or_not k a.config) [
          | inl at ↦ rw at (same_place a.config c _ i.found i.written refl)
          | inr other ↦ IsSaneAt-Unchanged rt laws l l' k (i.others k other) (sane k)
        ]
    process-IsSane (accept_authority a) h k =
        let (c, i) = accept_authority-Accepted rt laws.codec laws.accounts tx a l l' h in
        elim (same_or_not k a.config) [
          | inl at ↦ rw at (same_place a.config c _ i.found i.written refl)
          | inr other ↦
              IsSaneAt-Unchanged rt laws l l' k (rw (i.others k other) (refl, refl)) (sane k)
        ]
    process-IsSane (initialize_extra_account_meta_list a) h k =
        let (d, _, derived, at_list) = meta_list_found rt tx l l' a h in
        let apart = ne_list a.mint a.config a.extra_account_meta_list d.bump derived at_list in
        let (_, i) =
          initialize_extra_account_meta_list-Listed rt laws.codec laws.accounts tx a l l' apart h in
        elim (same_or_not k a.extra_account_meta_list) [
          | inl at ↦
              rw at (list_written a.mint a.config a.extra_account_meta_list at_list i.baked i.over)
          | inr other ↦ IsSaneAt-Unchanged rt laws l l' k (i.others k other) (sane k)
        ]
    process-IsSane (transfer_hook a amount) h k =
        let (_, _, unchanged) = ok_of_bind (TransferHook.execute rt tx a amount l) _ h in
        let no_change : l ≡ l' = cc unchanged in rw (← no_change) (sane k)
