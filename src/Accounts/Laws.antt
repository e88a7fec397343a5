-- ===== src/Accounts/Laws.antt =====
-- What loading and saving the program's accounts does to the ledger.
use solana_sas_extension.Prelude.{
  ◌≡◌, ◌≢◌, ◌≤◌, some, sym, ap, ◌∙◌, inl, inr, arith, Option-cases, length,
}
use solana_sas_extension.Result.{ok}
use solana_sas_extension.Solana.{
  Pubkey, Bytes, Ledger, update, update_self, update_ne, system_program_id,
}
use solana_sas_extension.State.{HookConfig, WhitelistEntry, hook_config_len, whitelist_entry_len}
use solana_sas_extension.Runtime.{Runtime}
use solana_sas_extension.Runtime.Laws.{CodecLaws, Unchanged}
use solana_sas_extension.Accounts.{load_config, save_config, load_entry, save_entry}

module _ (rt : Runtime) (l : Ledger) (k : Pubkey) where
  -- The account at the key is the program's and holds this config, or this whitelist entry.
  abbrev pub HoldsConfig : HookConfig → Type 0
  HoldsConfig c = ((l k).owner ≡ rt.program_id) × (rt.read_config (l k).bytes ≡ some c)

  abbrev pub HoldsEntry : WhitelistEntry → Type 0
  HoldsEntry e = ((l k).owner ≡ rt.program_id) × (rt.read_entry (l k).bytes ≡ some e)

  pub load_config-HoldsConfig : (c : HookConfig) → load_config rt l k ≡ ok c → HoldsConfig c
  unfolding load_config
  load_config-HoldsConfig c h = (ground arith, ground arith)

  pub HoldsConfig-load_config :
      (c : HookConfig)
      → rt.program_id ≢ system_program_id
      → HoldsConfig c
      → load_config rt l k ≡ ok c
  unfolding load_config
  HoldsConfig-load_config c ne h = ground arith

  pub load_entry-HoldsEntry : (e : WhitelistEntry) → load_entry rt l k ≡ ok e → HoldsEntry e
  unfolding load_entry
  load_entry-HoldsEntry e h = (ground arith, ground arith)

  pub HoldsEntry-load_entry :
      (e : WhitelistEntry)
      → rt.program_id ≢ system_program_id
      → HoldsEntry e
      → load_entry rt l k ≡ ok e
  unfolding load_entry
  HoldsEntry-load_entry e ne h = ground arith

  -- Saving writes the data of one account.
  save_config-inv :
      (c : HookConfig) (l' : Ledger)
      → save_config rt l k c ≡ ok l'
      → (b : Bytes) × (rt.write_config c (l k).bytes ≡ some b)
        × (l' ≡ update l k (record (l k) { bytes = b }))
  unfolding save_config
  save_config-inv c l' h = elim (Option-cases (rt.write_config c (l k).bytes)) [
    | inl full ↦ absurd (cc (rw full at h))
    | inr (b, p) ↦ let saved = rw p at h in (b, p, sym (cc saved))
  ]

  save_entry-inv :
      (e : WhitelistEntry) (l' : Ledger)
      → save_entry rt l k e ≡ ok l'
      → (b : Bytes) × (rt.write_entry e (l k).bytes ≡ some b)
        × (l' ≡ update l k (record (l k) { bytes = b }))
  unfolding save_entry
  save_entry-inv e l' h = elim (Option-cases (rt.write_entry e (l k).bytes)) [
    | inl full ↦ absurd (cc (rw full at h))
    | inr (b, p) ↦ let saved = rw p at h in (b, p, sym (cc saved))
  ]

  pub save_config_other :
      (c : HookConfig) (l' : Ledger) (j : Pubkey)
      → save_config rt l k c ≡ ok l'
      → j ≢ k
      → l' j ≡ l j
  save_config_other c l' j h ne =
      let (b, _, e) = save_config-inv c l' h in rw e (update_ne l k j _ ne)

  pub save_entry_other :
      (e : WhitelistEntry) (l' : Ledger) (j : Pubkey)
      → save_entry rt l k e ≡ ok l'
      → j ≢ k
      → l' j ≡ l j
  save_entry_other e l' j h ne =
      let (b, _, p) = save_entry-inv e l' h in rw p (update_ne l k j _ ne)

  module _ (codec : CodecLaws rt) (ours : (l k).owner ≡ rt.program_id) where
    pub save_config-HoldsConfig :
        (c : HookConfig) (l' : Ledger)
        → save_config rt l k c ≡ ok l'
        → ((l' k).owner ≡ rt.program_id) × (rt.read_config (l' k).bytes ≡ some c)
    save_config-HoldsConfig c l' h =
        let (b, p, e) = save_config-inv c l' h in
        let here = ap (λ (m : Ledger). m k) e ∙ update_self l k (record (l k) { bytes = b }) in
        rw here (ours, (codec.config_back c (l k).bytes b p).0)

    pub save_entry-HoldsEntry :
        (e : WhitelistEntry) (l' : Ledger)
        → save_entry rt l k e ≡ ok l'
        → ((l' k).owner ≡ rt.program_id) × (rt.read_entry (l' k).bytes ≡ some e)
    save_entry-HoldsEntry e l' h =
        let (b, p, q) = save_entry-inv e l' h in
        let here = ap (λ (m : Ledger). m k) q ∙ update_self l k (record (l k) { bytes = b }) in
        rw here (ours, (codec.entry_back e (l k).bytes b p).0)

    pub length-save_config :
        (c : HookConfig) (l' : Ledger)
        → save_config rt l k c ≡ ok l'
        → length (l' k).bytes ≡ length (l k).bytes
    length-save_config c l' h =
        let (b, p, e) = save_config-inv c l' h in
        let here = ap (λ (m : Ledger). m k) e ∙ update_self l k (record (l k) { bytes = b }) in
        rw here (codec.config_back c (l k).bytes b p).1

    -- An account with room for the type is saved without an error.
    pub save_config_total :
        (c : HookConfig)
        → hook_config_len ≤ length (l k).bytes
        → (l' : Ledger) × (save_config rt l k c ≡ ok l')
    unfolding save_config
    save_config_total c room = elim (Option-cases (rt.write_config c (l k).bytes)) [
      | inl full ↦ absurd (codec.config_fits c (l k).bytes room full)
      | inr (b, p) ↦ (update l k (record (l k) { bytes = b }), rw p)
    ]

    pub save_entry_total :
        (e : WhitelistEntry)
        → whitelist_entry_len ≤ length (l k).bytes
        → (l' : Ledger) × (save_entry rt l k e ≡ ok l')
    unfolding save_entry
    save_entry_total e room = elim (Option-cases (rt.write_entry e (l k).bytes)) [
      | inl full ↦ absurd (codec.entry_fits e (l k).bytes room full)
      | inr (b, p) ↦ (update l k (record (l k) { bytes = b }), rw p)
    ]

-- Lamports do not count once the program owns the account.
pub load_config-Unchanged :
    (rt : Runtime) (l l' : Ledger) (k : Pubkey) (c : HookConfig)
    → rt.program_id ≢ system_program_id
    → Unchanged l l' k
    → load_config rt l k ≡ ok c
    → load_config rt l' k ≡ ok c
load_config-Unchanged rt l l' k c ne same h =
    let held = load_config-HoldsConfig rt l k c h in
    HoldsConfig-load_config rt l' k c ne (same.0 ∙ held.0, rw same.1 held.1)
