-- ===== src/History/Lasting.antt =====
-- What initialize_config sets up lasts: no instruction removes the config or moves its bump.
use solana_sas_extension.Prelude.{◌≡◌, ◌≢◌, refl, sym, ◌∙◌}
use solana_sas_extension.Result.{ok}
use solana_sas_extension.Solana.{Pubkey, Ledger, Invocation}
use solana_sas_extension.State.{HookConfig}
use solana_sas_extension.Seeds.{config_seeds, meta_list_seeds}
use solana_sas_extension.Runtime.{Runtime}
use solana_sas_extension.Runtime.Laws.{AddressLaws, CodecLaws, AccountLaws}
use solana_sas_extension.Accounts.{load_config}
use solana_sas_extension.Accounts.Laws.{load_config-HoldsConfig}
use solana_sas_extension.Admin.Checks.{address}
use solana_sas_extension.Admin.Config.{initialize_config-Initialized}
use solana_sas_extension.Instructions.InitializeConfig
use solana_sas_extension.History.{Reach, Anyone, Keeps}
use solana_sas_extension.History.Evolution.{
  Evolves, same, updated, named, accepted, Evolution, none_yet, and_then, Reach-Evolution,
}

Evolves-bump : (tx : Invocation) (c d : HookConfig) → Evolves tx c d → d.bump ≡ c.bump
Evolves-bump tx c d same = refl
Evolves-bump tx c d (updated cr s p signed) = refl
Evolves-bump tx c d (named n signed) = refl
Evolves-bump tx c d (accepted pending signed) = refl

Evolution-bump :
    {allowed : Invocation → Type 0} (c d : HookConfig) → Evolution allowed c d → d.bump ≡ c.bump
Evolution-bump c d none_yet = refl
Evolution-bump c d (and_then before tx may change) =
    Evolves-bump tx _ d change ∙ Evolution-bump c _ before

module _ (rt : Runtime) (address_laws : AddressLaws rt) (codec : CodecLaws rt)
    (accounts : AccountLaws rt) (tx : Invocation) (a : InitializeConfig.InitializeConfig)
    (credential schema sas_program : Pubkey) (l l' l'' : Ledger)
    (apart : (m : Pubkey) → address rt (meta_list_seeds rt m) ≢ a.config)
    (h : InitializeConfig.execute rt tx a credential schema sas_program l ≡ ok l')
    (r : Reach rt Anyone (Keeps rt) l' l'') where
  -- Once initialize_config has succeeded, at a key that is no list address, then after any
  -- instructions of this program, by anyone, and any writes of other programs to their accounts the
  -- config still stands at the address of the mint's config seeds, with the bump that
  -- was found for it.
  pub config_lasts :
      (a.config ≡ address rt (config_seeds rt a.mint))
      × (d : HookConfig) × (load_config rt l'' a.config ≡ ok d)
      × (d.bump ≡ (rt.find_program_address (config_seeds rt a.mint) rt.program_id).1)
  config_lasts =
      let (mint, i) =
        initialize_config-Initialized rt address_laws codec accounts tx a credential schema
          sas_program l l' h in
      let (d, found, changes) =
        Reach-Evolution rt address_laws codec accounts a.config apart _ i.written r in
      (i.at, d, found, Evolution-bump _ d changes)

  -- Once initialize_config has succeeded for a mint, its config at a key that is no list address,
  -- then after any instructions of this program, by anyone, and any writes of other programs to their
  -- accounts no initialize_config for that mint succeeds.
  pub initialize_config_once :
      (tx' : Invocation) (b : InitializeConfig.InitializeConfig)
      (credential' schema' sas_program' : Pubkey) (m : Ledger)
      → b.mint ≡ a.mint
      → InitializeConfig.execute rt tx' b credential' schema' sas_program' l'' ≢ ok m
  initialize_config_once tx' b credential' schema' sas_program' m mint again =
      let (at, d, found, _) = config_lasts in
      let (_, i) =
        initialize_config-Initialized rt address_laws codec accounts tx' b credential' schema'
          sas_program' l'' m again in
      let same_key : b.config ≡ a.config = rw (i.at, mint) (sym at) in
      let held = load_config-HoldsConfig rt l'' a.config d found in
      accounts.program_ne_system (sym held.0 ∙ rw (← same_key) i.fresh)
