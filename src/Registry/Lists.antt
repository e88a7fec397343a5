-- ===== src/Registry/Lists.antt =====
-- The list of a mint holds the metas of its config.
use solana_sas_extension.Prelude.{ℕ, ◌≡◌, ◌≢◌, sym, ◌∙◌, inl, inr}
use solana_sas_extension.Result.{ok, ok_of_bind}
use solana_sas_extension.Solana.{Pubkey, Ledger, Invocation}
use solana_sas_extension.State.{HookConfig}
use solana_sas_extension.Seeds.{config_seeds, meta_list_seeds, whitelist_seeds}
use solana_sas_extension.Runtime.{Runtime}
use solana_sas_extension.Accounts.{load_config}
use solana_sas_extension.Accounts.Laws.{load_config-HoldsConfig, load_config-Unchanged}
use solana_sas_extension.Addresses.Unique.{
  Derivation, address-IsDerived, derived_at, config_unique, list_unique, config_not_list,
  entry_not_list, config_ne_list, entry_ne_list,
}
use solana_sas_extension.Admin.Checks.{address, IsDerived}
use solana_sas_extension.Admin.MetaList.{
  IsBaked, update_config-Updated, initialize_extra_account_meta_list-Listed,
}
use solana_sas_extension.Instructions.TransferHook
use solana_sas_extension.Admin.Authority.{transfer_authority-Named, accept_authority-Accepted}
use solana_sas_extension.Admin.Config.{initialize_config-Initialized}
use solana_sas_extension.Admin.Whitelist.{add_to_whitelist-Added, remove_from_whitelist-Removed}
use solana_sas_extension.Program.{
  Instruction, initialize_config, update_config, add_to_whitelist, remove_from_whitelist,
  transfer_authority, accept_authority, initialize_extra_account_meta_list, transfer_hook, process,
}
use solana_sas_extension.History.Effects.{update_config_found, meta_list_found}
use solana_sas_extension.History.Evolution.{same_or_not}
use solana_sas_extension.Registry.Sane.Steps.{ne_list}
use solana_sas_extension.History.{Reach, here, next, instruction, elsewhere}
use solana_sas_extension.History.InStep.{Separate, IsOnlyConfig, process-IsBaked}
use solana_sas_extension.Registry.Refines.Frames.{config_at_inj}
use solana_sas_extension.Registry.Runs.{Foreign, Reach-refines}
use solana_sas_extension.Registry.Sane.{Laws, IsSane, config_canonical}
use solana_sas_extension.Registry.View.{config_at}

pub Derivation-Separate : (rt : Runtime) → Derivation rt → (mint : Pubkey) → Separate rt mint
Derivation-Separate rt d mint = record {
  config_list = λ m m' b p.
      config_not_list rt d m m' (address rt (meta_list_seeds rt m')) b _ p
        (address-IsDerived rt d (meta_list_seeds rt m'));
  entry_list = λ m w m' b p.
      entry_not_list rt d m w m' (address rt (meta_list_seeds rt m')) b _ p
        (address-IsDerived rt d (meta_list_seeds rt m'));
  one_list = λ m e.
      list_unique rt d m mint (address rt (meta_list_seeds rt m)) _ _
        (address-IsDerived rt d (meta_list_seeds rt m))
        (derived_at rt d (meta_list_seeds rt mint) (address rt (meta_list_seeds rt m)) e);
}

module _ (rt : Runtime) (laws : Laws rt) (mint : Pubkey) where
  abbrev list : Pubkey
  list = address rt (meta_list_seeds rt mint)

  pub IsSane-IsOnlyConfig :
      (l : Ledger) (c : HookConfig)
      → IsSane rt l
      → load_config rt l (config_at rt mint) ≡ ok c
      → IsOnlyConfig rt mint (config_at rt mint) c l
  IsSane-IsOnlyConfig l c sane found =
      let at = (sane (config_at rt mint)).configs c found in
      let same = config_at_inj rt laws mint at.mint at.at in
      let bump : c.bump ≡ (rt.find_program_address (config_seeds rt mint) rt.program_id).1 =
        rw same at.found in
      let derived : IsDerived rt (config_seeds rt mint) c.bump (config_at rt mint) =
        rw bump (address-IsDerived rt laws.derivation (config_seeds rt mint)) in
      record {
        found = found;
        derived = derived;
        one_mint = λ m p.
            (config_unique rt laws.derivation m mint (config_at rt mint) c.bump c.bump p derived).0;
        only = λ j d loaded p. config_canonical rt laws l j mint d (sane j) loaded p;
      }

  -- The list account is the program's and holds what the library writes for the metas of the config.
  pub record IsServed (l : Ledger) : Type 0 where
    pub ours : (l list).owner ≡ rt.program_id
    pub baked : IsBaked rt (config_at rt mint) list l

  Foreign-IsServed : (l l' : Ledger) → Foreign rt l l' → IsServed l → IsServed l'
  Foreign-IsServed l l' f s =
      let kept = f.kept list s.ours in
      let b = s.baked in
      let held = load_config-HoldsConfig rt l (config_at rt mint) b.current b.loaded in
      record {
        ours = kept.0 ∙ s.ours;
        baked = record {
          current = b.current;
          loaded =
              load_config-Unchanged rt l l' (config_at rt mint) b.current
                laws.accounts.program_ne_system (f.kept (config_at rt mint) held.0) b.loaded;
          metas = b.metas;
          built = b.built;
          blank = b.blank;
          baked = rw kept.1 b.baked;
        };
      }

  module _ (tx : Invocation) (l l' : Ledger) where
    list_ne_config : (m j : Pubkey) (b : ℕ) → IsDerived rt (config_seeds rt m) b j → list ≢ j
    list_ne_config m j b derived p = config_ne_list rt laws.derivation m mint j b derived (sym p)

    list_ne_entry : (m w j : Pubkey) (b : ℕ) → IsDerived rt (whitelist_seeds rt m w) b j → list ≢ j
    list_ne_entry m w j b derived p = entry_ne_list rt laws.derivation m w mint j b derived (sym p)

    process-list_owner :
        (i : Instruction)
        → process rt tx i l ≡ ok l'
        → (l list).owner ≡ rt.program_id
        → (l' list).owner ≡ rt.program_id
    unfolding process
    process-list_owner (initialize_config a cr s p) h ours =
        let (_, i) =
          initialize_config-Initialized rt laws.derivation.finds laws.codec laws.accounts tx a cr s
            p l l' h in
        (i.others list (list_ne_config a.mint a.config _ i.derived)).0 ∙ ours
    process-list_owner (update_config a cr s p) h ours =
        let (d, _, derived, at) = update_config_found rt tx l l' a cr s p h in
        let apart = ne_list rt laws a.mint a.config a.extra_account_meta_list d.bump derived at in
        let (_, i) = update_config-Updated rt laws.codec laws.accounts tx a cr s p l l' apart h in
        elim (same_or_not list a.extra_account_meta_list) [
          | inl same ↦ rw same (i.list_owner ∙ rw same at ours)
          | inr other ↦
              rw (i.others list (list_ne_config a.mint a.config d.bump derived) other) ours
        ]
    process-list_owner (add_to_whitelist a w) h ours =
        let (_, i) = add_to_whitelist-Added rt laws.codec laws.accounts tx a w l l' h in
        let seeds = whitelist_seeds rt a.mint w in
        let apart =
          list_ne_entry a.mint w a.whitelist_entry _
            (derived_at rt laws.derivation seeds a.whitelist_entry i.at) in
        (i.others list apart).0 ∙ ours
    process-list_owner (remove_from_whitelist a w) h ours =
        let (_, e, i) = remove_from_whitelist-Removed rt laws.codec laws.accounts tx a w l l' h in
        (i.others list (list_ne_entry a.mint w a.whitelist_entry e.bump i.at)).0 ∙ ours
    process-list_owner (transfer_authority a) h ours =
        let (c, i) = transfer_authority-Named rt laws.codec laws.accounts tx a l l' h in
        (i.others list (list_ne_config a.mint a.config c.bump i.derived)).0 ∙ ours
    process-list_owner (accept_authority a) h ours =
        let (c, i) = accept_authority-Accepted rt laws.codec laws.accounts tx a l l' h in
        rw (i.others list (list_ne_config a.mint a.config c.bump i.derived)) ours
    process-list_owner (initialize_extra_account_meta_list a) h ours =
        let (d, _, derived, at) = meta_list_found rt tx l l' a h in
        let apart = ne_list rt laws a.mint a.config a.extra_account_meta_list d.bump derived at in
        let (_, i) =
          initialize_extra_account_meta_list-Listed rt laws.codec laws.accounts tx a l l' apart h in
        elim (same_or_not list a.extra_account_meta_list) [
          | inl same ↦
              rw same (elim i.list_owner [ inl made ↦ made | inr kept ↦ kept ∙ rw same at ours ])
          | inr other ↦ (i.others list other).0 ∙ ours
        ]
    process-list_owner (transfer_hook a amount) h ours =
        let (_, _, unchanged) = ok_of_bind (TransferHook.execute rt tx a amount l) _ h in
        let no_change : l ≡ l' = cc unchanged in rw (← no_change) ours

    process-IsServed :
        (i : Instruction) → process rt tx i l ≡ ok l' → IsSane rt l → IsServed l → IsServed l'
    process-IsServed i h sane s =
        let only = IsSane-IsOnlyConfig l s.baked.current sane s.baked.loaded in
        record {
          ours = process-list_owner i h s.ours;
          baked =
              process-IsBaked rt laws.derivation.finds laws.codec laws.accounts mint
                (config_at rt mint) s.baked.current (Derivation-Separate rt laws.derivation mint) tx
                l l' only s.baked i h;
        }

  -- Once a mint's list is the program's and holds the metas of the mint's config, in a ledger where
  -- every config and entry stands in its place, it does so ever after, whatever instructions of this
  -- program run and whatever other programs write to their accounts.
  pub Reach-IsServed :
      {allowed : Invocation → Type 0} {l l' : Ledger}
      → IsSane rt l
      → IsServed l
      → Reach rt allowed (Foreign rt) l l'
      → IsServed l'
  Reach-IsServed sane s here = s
  Reach-IsServed {allowed} {l} {l'} sane s (next {m} r (instruction tx i may h)) =
      let (there, _, _, _) = Reach-refines rt laws mint sane r in
      process-IsServed tx m l' i h there (Reach-IsServed sane s r)
  Reach-IsServed {allowed} {l} {l'} sane s (next {m} r (elsewhere f)) =
      Foreign-IsServed m l' f (Reach-IsServed sane s r)
