-- ===== src/Registry/Sane.antt =====
-- The invariant of the program's accounts: every config and every whitelist entry stands at the
-- address of its seeds, with the bump that was found for it.
pub mod Steps
use solana_sas_extension.Prelude.{
  ℕ, ◌≡◌, ◌≢◌, refl, sym, ap, ◌∙◌, true, none, some, inl, inr, arith,
}
use solana_sas_extension.Result.{ok}
use solana_sas_extension.Solana.{Pubkey, Ledger}
use solana_sas_extension.State.{HookConfig, WhitelistEntry}
use solana_sas_extension.Seeds.{config_seeds, whitelist_seeds}
use solana_sas_extension.Runtime.{Runtime}
use solana_sas_extension.Runtime.Laws.{CodecLaws, AccountLaws, MetaListLaws, Unchanged}
use solana_sas_extension.Accounts.{load_config, load_entry}
use solana_sas_extension.Accounts.Laws.{
  load_config-HoldsConfig, load_config-Unchanged, load_entry-HoldsEntry, HoldsEntry-load_entry,
}
use solana_sas_extension.Addresses.Unique.{Derivation, derived_at, config_unique, entry_unique}
use solana_sas_extension.Admin.Checks.{address, IsDerived}

-- The documented behaviour of everything that the program calls.
pub record Laws (rt : Runtime) : Type 0 where
  pub derivation : Derivation rt
  pub codec : CodecLaws rt
  pub accounts : AccountLaws rt
  pub metas : MetaListLaws rt

module _ (rt : Runtime) where
  pub record AtConfig (k : Pubkey) (c : HookConfig) : Type 0 where
    pub mint : Pubkey
    pub at : k ≡ address rt (config_seeds rt mint)
    pub found : c.bump ≡ (rt.find_program_address (config_seeds rt mint) rt.program_id).1

  pub record AtEntry (k : Pubkey) (e : WhitelistEntry) : Type 0 where
    pub mint : Pubkey
    pub at : k ≡ address rt (whitelist_seeds rt mint e.wallet)
    pub found :
        e.bump ≡ (rt.find_program_address (whitelist_seeds rt mint e.wallet) rt.program_id).1

  pub record IsSaneAt (l : Ledger) (k : Pubkey) : Type 0 where
    pub configs : (c : HookConfig) → load_config rt l k ≡ ok c → AtConfig k c
    pub entries : (e : WhitelistEntry) → load_entry rt l k ≡ ok e → AtEntry k e

  abbrev pub IsSane : Ledger → Type 0
  IsSane l = (k : Pubkey) → IsSaneAt l k

  module _ (laws : Laws rt) where
    pub load_entry-Unchanged :
        (l l' : Ledger) (k : Pubkey) (e : WhitelistEntry)
        → Unchanged l l' k
        → load_entry rt l k ≡ ok e
        → load_entry rt l' k ≡ ok e
    load_entry-Unchanged l l' k e u h =
        let held = load_entry-HoldsEntry rt l k e h in
        HoldsEntry-load_entry rt l' k e laws.accounts.program_ne_system
          (u.0 ∙ held.0, rw u.1 held.1)

    pub IsSaneAt-Unchanged :
        (l l' : Ledger) (k : Pubkey) → Unchanged l l' k → IsSaneAt l k → IsSaneAt l' k
    IsSaneAt-Unchanged l l' k (owner, bytes) s = record {
      configs = λ c h. s.configs c (
          load_config-Unchanged rt l' l k c laws.accounts.program_ne_system (sym owner, sym bytes)
            h);
      entries = λ e h. s.entries e (load_entry-Unchanged l' l k e (sym owner, sym bytes) h);
    }

    pub IsSaneAt-config :
        (l : Ledger) (k : Pubkey) (c : HookConfig)
        → load_config rt l k ≡ ok c
        → AtConfig k c
        → IsSaneAt l k
    IsSaneAt-config l k c loaded at = record {
      configs = λ d h. let same : c ≡ d = cc (loaded, h) in rw (← same) at;
      entries = λ e h.
          let no_entry =
            laws.codec.config_not_entry (l k).bytes c (load_config-HoldsConfig rt l k c loaded).1 in
          absurd (cc ((load_entry-HoldsEntry rt l k e h).1, no_entry));
    }

    pub IsSaneAt-entry :
        (l : Ledger) (k : Pubkey) (e : WhitelistEntry)
        → load_entry rt l k ≡ ok e
        → AtEntry k e
        → IsSaneAt l k
    IsSaneAt-entry l k e loaded at = record {
      configs = λ c h.
          let no_entry =
            laws.codec.config_not_entry (l k).bytes c (load_config-HoldsConfig rt l k c h).1 in
          absurd (cc ((load_entry-HoldsEntry rt l k e loaded).1, no_entry));
      entries = λ d h. let same : e ≡ d = cc (loaded, h) in rw (← same) at;
    }

    pub IsSaneAt-blank :
        (l : Ledger) (k : Pubkey)
        → rt.read_config (l k).bytes ≡ none
        → rt.read_entry (l k).bytes ≡ none
        → IsSaneAt l k
    IsSaneAt-blank l k p q = record {
      configs = λ c h. absurd (cc ((load_config-HoldsConfig rt l k c h).1, p));
      entries = λ e h. absurd (cc ((load_entry-HoldsEntry rt l k e h).1, q));
    }

    pub IsSaneAt-foreign : (l : Ledger) (k : Pubkey) → (l k).owner ≢ rt.program_id → IsSaneAt l k
    IsSaneAt-foreign l k other = record {
      configs = λ c h. absurd (other (load_config-HoldsConfig rt l k c h).0);
      entries = λ e h. absurd (other (load_entry-HoldsEntry rt l k e h).0);
    }

    -- A config that an instruction accepts for a mint is the one at the mint's address.
    pub config_canonical :
        (l : Ledger) (k m : Pubkey) (c : HookConfig)
        → IsSaneAt l k
        → load_config rt l k ≡ ok c
        → IsDerived rt (config_seeds rt m) c.bump k
        → k ≡ address rt (config_seeds rt m)
    config_canonical l k m c s loaded derived =
        let at = s.configs c loaded in
        let found : IsDerived rt (config_seeds rt at.mint) c.bump k =
          rw at.found (derived_at rt laws.derivation (config_seeds rt at.mint) k at.at) in
        let same = config_unique rt laws.derivation at.mint m k c.bump c.bump found derived in
        rw (← same.0) at.at

    pub entry_canonical :
        (l : Ledger) (k m w : Pubkey) (e : WhitelistEntry)
        → IsSaneAt l k
        → load_entry rt l k ≡ ok e
        → IsDerived rt (whitelist_seeds rt m w) e.bump k
        → k ≡ address rt (whitelist_seeds rt m w)
    entry_canonical l k m w e s loaded derived =
        let at = s.entries e loaded in
        let found : IsDerived rt (whitelist_seeds rt at.mint e.wallet) e.bump k =
          rw at.found
            (derived_at rt laws.derivation (whitelist_seeds rt at.mint e.wallet) k at.at) in
        let (mints, wallets, _) =
          entry_unique rt laws.derivation at.mint m e.wallet w k e.bump e.bump found derived in
        rw (← mints, ← wallets) at.at
