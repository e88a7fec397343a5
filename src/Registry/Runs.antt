-- ===== src/Registry/Runs.antt =====
-- Runs of the program, between writes of other programs, are runs of the registry.
use solana_sas_extension.Prelude.{
  ◌≡◌, ◌≢◌, refl, none, some, List, [], ◌++◌, inl, inr, fun_ext, arith,
}
use solana_sas_extension.Solana.{Pubkey, Bytes, Ledger, Invocation}
use solana_sas_extension.Seeds.{config_seeds, whitelist_seeds}
use solana_sas_extension.Runtime.{Runtime}
use solana_sas_extension.Addresses.Unique.{address-IsDerived}
use solana_sas_extension.History.{instruction, elsewhere, Reach, here, next, Silent, Keeps}
use solana_sas_extension.History.Evolution.{same_or_not}
use solana_sas_extension.Registry.{Settings}
use solana_sas_extension.Registry.Calls.{
  Call, All, replay, replay-append, All-append, perform_calls, replay_locked,
}
use solana_sas_extension.Registry.Refines.{op_of}
use solana_sas_extension.Registry.Refines.Simulation.{process-refines}
use solana_sas_extension.Registry.Sane.{
  Laws, IsSane, IsSaneAt-Unchanged, IsSaneAt-blank, IsSaneAt-foreign,
}
use solana_sas_extension.Registry.Sane.Steps.{process-IsSane}
use solana_sas_extension.Registry.View.{
  config_at, entry_at, settings_of, whitelisted_of, registry_of, settings_of_foreign,
  settings_of-Unchanged, whitelisted_of-Unchanged,
}

-- What other programs can do to the ledger: they leave the program's accounts alone, they cannot
-- sign for a derived address and so create none of the program's there, and an account that they
-- create for the program is blank.
pub record Foreign (rt : Runtime) (l l' : Ledger) : Type 0 where
  pub kept : Keeps rt l l'
  pub derived :
      (s : List Bytes) (k : Pubkey)
      → rt.create_program_address s rt.program_id ≡ some k
      → (l' k).owner ≡ rt.program_id
      → (l k).owner ≡ rt.program_id
  pub blank :
      (k : Pubkey)
      → (l' k).owner ≡ rt.program_id
      → (l k).owner ≢ rt.program_id
      → (rt.read_config (l' k).bytes ≡ none) × (rt.read_entry (l' k).bytes ≡ none)

module _ (rt : Runtime) (laws : Laws rt) where
  Foreign-IsSane : (l l' : Ledger) → Foreign rt l l' → IsSane rt l → IsSane rt l'
  Foreign-IsSane l l' f sane k = elim (same_or_not (l k).owner rt.program_id) [
    | inl ours ↦ IsSaneAt-Unchanged rt laws l l' k (f.kept k ours) (sane k)
    | inr other ↦ elim (same_or_not (l' k).owner rt.program_id) [
      | inl ours' ↦
          let (no_config, no_entry) = f.blank k ours' other in
          IsSaneAt-blank rt laws l' k no_config no_entry
      | inr other' ↦ IsSaneAt-foreign rt laws l' k other'
    ]
  ]

  module _ (mint : Pubkey) where
    Foreign-settings :
        (l l' : Ledger) → Foreign rt l l' → settings_of rt mint l' ≡ settings_of rt mint l
    Foreign-settings l l' f =
        let k = config_at rt mint in
        let derived = address-IsDerived rt laws.derivation (config_seeds rt mint) in
        elim (same_or_not (l k).owner rt.program_id) [
          | inl ours ↦
              settings_of-Unchanged rt mint l l' laws.accounts.program_ne_system (f.kept k ours)
          | inr other ↦
              let before = settings_of_foreign rt mint l l' other in
              let after' =
                settings_of_foreign rt mint l' l (λ ours. other (f.derived _ k derived ours)) in
              rw (before, after')
        ]

    pub Foreign-whitelisted :
        (l l' : Ledger) (w : Pubkey)
        → Foreign rt l l'
        → whitelisted_of rt mint l' w ≡ whitelisted_of rt mint l w
    Foreign-whitelisted l l' w f =
        let k = entry_at rt mint w in
        let derived = address-IsDerived rt laws.derivation (whitelist_seeds rt mint w) in
        elim (same_or_not (l k).owner rt.program_id) [
          | inl ours ↦ whitelisted_of-Unchanged rt mint l l' w (f.kept k ours)
          | inr other ↦
              let other' : (l' k).owner ≢ rt.program_id =
                λ ours. other (f.derived _ k derived ours) in
              ground arith
        ]

    Foreign-registry :
        (l l' : Ledger) → Foreign rt l l' → registry_of rt mint l' ≡ registry_of rt mint l
    Foreign-registry l l' f =
        let settings = Foreign-settings l l' f in
        let whitelisted : whitelisted_of rt mint l' ≡ whitelisted_of rt mint l =
          fun_ext (λ w. Foreign-whitelisted l l' w f) in
        rw (settings, whitelisted)

    -- From a ledger where every config and entry stands in its place, any run, whoever signs and
    -- whatever other programs write, leads to such a ledger, and there is a sequence of operations, each
    -- in an invocation of the kind that is allowed, that the registry of the mint accepts one by one and
    -- that leads from its registry before to its registry after.
    pub Reach-refines :
        {allowed : Invocation → Type 0} {l l' : Ledger}
        → IsSane rt l
        → Reach rt allowed (Foreign rt) l l'
        → IsSane rt l'
          × (cs : List Call) × All (λ c. allowed c.tx) cs
          × (replay cs (registry_of rt mint l) ≡ some (registry_of rt mint l'))
    unfolding replay
    Reach-refines sane here = (sane, [], tt, refl)
    Reach-refines {allowed} {l} {l'} sane (next {m} r (instruction tx i may h)) =
        let (there, cs, all, done) = Reach-refines sane r in
        let (ds, all', step) =
          perform_calls allowed tx (op_of mint i) _ _ may
            (process-refines rt laws mint tx m l' there i h) in
        (
          process-IsSane rt laws tx m l' there i h,
          cs ++ ds,
          All-append (λ c. allowed c.tx) cs ds all all',
          rw (replay-append cs ds (registry_of rt mint l), done) step,
        )
    Reach-refines {allowed} {l} {l'} sane (next {m} r (elsewhere f)) =
        let (there, cs, all, done) = Reach-refines sane r in
        (Foreign-IsSane m l' f there, cs, all, rw (Foreign-registry m l' f) done)

    -- From a ledger where every config and entry stands in its place: while the authority of a mint
    -- signs nothing and nobody is pending, nothing that anyone does changes the mint's settings or
    -- whitelist.
    pub registry_locked :
        {l l' : Ledger} (s : Settings)
        → IsSane rt l
        → settings_of rt mint l ≡ some s
        → s.pending ≡ none
        → Reach rt (Silent s.authority) (Foreign rt) l l'
        → registry_of rt mint l' ≡ registry_of rt mint l
    registry_locked {l} {l'} s sane settings nobody r =
        let (_, cs, silent, done) = Reach-refines sane r in
        replay_locked s (registry_of rt mint l) (registry_of rt mint l') cs
          (record { settings = settings; nobody = nobody }) silent done
