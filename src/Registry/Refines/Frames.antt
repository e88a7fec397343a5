-- ===== src/Registry/Refines/Frames.antt =====
-- What a write to one account does to the registry of a mint.
use solana_sas_extension.Prelude.{◌≡◌, ◌≢◌, sym, fun_ext, Bool, some, inl, inr, arith}
use solana_sas_extension.Result.{ok}
use solana_sas_extension.Solana.{Pubkey, Ledger}
use solana_sas_extension.State.{HookConfig}
use solana_sas_extension.Seeds.{config_seeds, meta_list_seeds, whitelist_seeds}
use solana_sas_extension.Runtime.{Runtime}
use solana_sas_extension.Runtime.Laws.{Unchanged}
use solana_sas_extension.Accounts.{load_config}
use solana_sas_extension.Addresses.Unique.{
  address-IsDerived, derived_at, config_unique, entry_unique, config_ne_list, config_ne_entry,
  entry_ne_list,
}
use solana_sas_extension.Admin.Checks.{address}
use solana_sas_extension.History.Evolution.{same_or_not}
use solana_sas_extension.Registry.{mark}
use solana_sas_extension.Registry.Sane.{Laws}
use solana_sas_extension.Registry.View.{
  summary, config_at, entry_at, whitelisted_of, registry_of, settings_of_changed,
  settings_of-Unchanged, whitelisted_of-Unchanged,
}

module _ (rt : Runtime) (laws : Laws rt) where
  pub config_at_inj : (m m' : Pubkey) → config_at rt m ≡ config_at rt m' → m ≡ m'
  config_at_inj m m' e =
      (config_unique rt laws.derivation m m' (config_at rt m) _ _
        (address-IsDerived rt laws.derivation (config_seeds rt m))
        (derived_at rt laws.derivation (config_seeds rt m') (config_at rt m) e)).0

  pub entry_at_inj :
      (m m' w w' : Pubkey) → entry_at rt m w ≡ entry_at rt m' w' → (m ≡ m') × (w ≡ w')
  entry_at_inj m m' w w' e =
      let (mints, wallets, _) =
        entry_unique rt laws.derivation m m' w w' (entry_at rt m w) _ _
          (address-IsDerived rt laws.derivation (whitelist_seeds rt m w))
          (derived_at rt laws.derivation (whitelist_seeds rt m' w') (entry_at rt m w) e) in
      (mints, wallets)

  pub config_at-ne-entry_at : (m m' w : Pubkey) → config_at rt m ≢ entry_at rt m' w
  config_at-ne-entry_at m m' w =
      config_ne_entry rt laws.derivation m m' w (config_at rt m) _
        (address-IsDerived rt laws.derivation (config_seeds rt m))

  abbrev pub list_at : Pubkey → Pubkey
  list_at m = address rt (meta_list_seeds rt m)

  pub config_at-ne-list_at : (m m' : Pubkey) → config_at rt m ≢ list_at m'
  config_at-ne-list_at m m' =
      config_ne_list rt laws.derivation m m' (config_at rt m) _
        (address-IsDerived rt laws.derivation (config_seeds rt m))

  pub entry_at-ne-list_at : (m w m' : Pubkey) → entry_at rt m w ≢ list_at m'
  entry_at-ne-list_at m w m' =
      entry_ne_list rt laws.derivation m w m' (entry_at rt m w) _
        (address-IsDerived rt laws.derivation (whitelist_seeds rt m w))

  module _ (mint : Pubkey) (l l' : Ledger) where
    -- The registry depends on the config and the entries of the mint alone.
    pub registry_of-Unchanged :
        Unchanged l l' (config_at rt mint)
        → ((w : Pubkey) → Unchanged l l' (entry_at rt mint w))
        → registry_of rt mint l' ≡ registry_of rt mint l
    registry_of-Unchanged config entries =
        let settings = settings_of-Unchanged rt mint l l' laws.accounts.program_ne_system config in
        let whitelisted : whitelisted_of rt mint l' ≡ whitelisted_of rt mint l =
          fun_ext (λ w. whitelisted_of-Unchanged rt mint l l' w (entries w)) in
        rw (settings, whitelisted)

    module _ (m : Pubkey)
        (others : (k : Pubkey) → k ≢ config_at rt m → k ≢ list_at m → Unchanged l l' k) where
      -- A write to the config and the list of another mint, or of this one.
      pub config_of_other : m ≢ mint → registry_of rt mint l' ≡ registry_of rt mint l
      config_of_other other =
          registry_of-Unchanged
            (others (config_at rt mint) (λ e. other (sym (config_at_inj mint m e)))
              (config_at-ne-list_at mint m))
            (λ w.
              others (entry_at rt mint w) (λ e. config_at-ne-entry_at m mint w (sym e))
                (entry_at-ne-list_at mint w m))

      pub config_of_this :
          (c : HookConfig)
          → m ≡ mint
          → load_config rt l' (config_at rt m) ≡ ok c
          → registry_of rt mint l' ≡ record (registry_of rt mint l) { settings = some (summary c) }
      config_of_this c this loaded =
          let settings = settings_of_changed rt mint l' l c (rw (← this) loaded) in
          let whitelisted : whitelisted_of rt mint l' ≡ whitelisted_of rt mint l = fun_ext (λ w.
            whitelisted_of-Unchanged rt mint l l' w (
              others (entry_at rt mint w) (λ e. config_at-ne-entry_at m mint w (sym e))
                (entry_at-ne-list_at mint w m))) in
          rw (settings, whitelisted)

    module _ (m wallet : Pubkey)
        (others : (k : Pubkey) → k ≢ entry_at rt m wallet → Unchanged l l' k) where
      pub entry_of_other : m ≢ mint → registry_of rt mint l' ≡ registry_of rt mint l
      entry_of_other other =
          registry_of-Unchanged (others (config_at rt mint) (config_at-ne-entry_at mint m wallet))
            (λ w. others (entry_at rt mint w) (λ e. other (sym (entry_at_inj mint m w wallet e).0)))

      pub entry_of_this :
          (b : Bool)
          → m ≡ mint
          → whitelisted_of rt m l' wallet ≡ b
          → registry_of rt mint l' ≡ record (registry_of rt mint l) {
            whitelisted = mark (whitelisted_of rt mint l) wallet b;
          }
      entry_of_this b this marked =
          let settings =
            settings_of-Unchanged rt mint l l' laws.accounts.program_ne_system
              (others (config_at rt mint) (config_at-ne-entry_at mint m wallet)) in
          let whitelisted : whitelisted_of rt mint l' ≡ mark (whitelisted_of rt mint l) wallet b =
            fun_ext (λ w. elim (same_or_not w wallet) [
              | inl at ↦ let here = rw (this, ← at) at marked in ground (arith, here)
              | inr not_it ↦
                  let kept = whitelisted_of-Unchanged rt mint l l' w (
                    others (entry_at rt mint w) (λ e. not_it (entry_at_inj mint m w wallet e).1)) in
                  ground (arith, kept)
            ]) in
          rw (settings, whitelisted)
