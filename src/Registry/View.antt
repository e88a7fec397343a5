-- ===== src/Registry/View.antt =====
-- The registry of a mint, as the ledger stands.
use solana_sas_extension.Prelude.{◌≡◌, ◌≢◌, ap, Bool, Option, none, some, inl, inr, ◌==◌, arith}
use solana_sas_extension.Result.{Result, ok, err, Result-cases}
use solana_sas_extension.Solana.{Pubkey, Ledger, system_program_id}
use solana_sas_extension.State.{HookConfig}
use solana_sas_extension.Seeds.{config_seeds, whitelist_seeds}
use solana_sas_extension.Runtime.{Runtime}
use solana_sas_extension.Runtime.Laws.{Unchanged}
use solana_sas_extension.Accounts.{load_config}
use solana_sas_extension.Accounts.Laws.{load_config-HoldsConfig}
use solana_sas_extension.Admin.Checks.{address}
use solana_sas_extension.Registry.{Settings, Registry, named}

abbrev pub summary : HookConfig → Settings
summary c = record {
  authority = c.authority;
  pending = named c.pending_authority;
  credential = c.credential;
  schema = c.schema;
  sas_program = c.sas_program;
}

abbrev pub view : Result HookConfig → Option Settings
view (ok c) = some (summary c)
view (err e) = none

module _ (rt : Runtime) (mint : Pubkey) where
  abbrev pub config_at : Pubkey
  config_at = address rt (config_seeds rt mint)

  abbrev pub entry_at : Pubkey → Pubkey
  entry_at wallet = address rt (whitelist_seeds rt mint wallet)

  -- The config at its address, if there is one.
  abbrev pub settings_of : Ledger → Option Settings
  settings_of l = view (load_config rt l config_at)

  -- The wallets at whose whitelist address the program owns an account.
  abbrev pub whitelisted_of : Ledger → Pubkey → Bool
  whitelisted_of l wallet = (l (entry_at wallet)).owner == rt.program_id

  abbrev pub registry_of : Ledger → Registry
  registry_of l = record { settings = settings_of l; whitelisted = whitelisted_of l }

  module _ (l l' : Ledger) where
    pub settings_of_foreign : (l config_at).owner ≢ rt.program_id → settings_of l ≡ none
    settings_of_foreign other = elim (Result-cases (load_config rt l config_at)) [
      | inl (e, p) ↦ rw p
      | inr (c, p) ↦ absurd (other (load_config-HoldsConfig rt l config_at c p).0)
    ]

    pub settings_of_changed :
        (c : HookConfig) → load_config rt l config_at ≡ ok c → settings_of l ≡ some (summary c)
    settings_of_changed c p = rw p

    pub settings_of-Unchanged :
        rt.program_id ≢ system_program_id
        → Unchanged l l' config_at
        → settings_of l' ≡ settings_of l
    unfolding load_config
    settings_of-Unchanged ne (owner, bytes) = ground arith

    pub whitelisted_of-Unchanged :
        (w : Pubkey) → Unchanged l l' (entry_at w) → whitelisted_of l' w ≡ whitelisted_of l w
    whitelisted_of-Unchanged w u = ap (λ (o : Pubkey). o == rt.program_id) u.0
