-- ===== src/Registry/Requests/Succeed.antt =====
-- A request that the registry consents to succeeds.
use solana_sas_extension.Prelude.{
  ℕ, ◌≡◌, ◌≢◌, ◌≤◌, ap, ◌∙◌, true, arith, length, length-replicate, replicate,
}
use solana_sas_extension.Result.{ok}
use solana_sas_extension.Solana.{Pubkey, Bytes, Ledger, Invocation, default, update, update_ne}
use solana_sas_extension.State.{
  HookConfig, zeroed_config, zeroed_entry, hook_config_len, whitelist_entry_len,
}
use solana_sas_extension.Seeds.{config_seeds, meta_list_seeds, whitelist_seeds}
use solana_sas_extension.Runtime.{Runtime}
use solana_sas_extension.Accounts.{load_entry}
use solana_sas_extension.Accounts.Laws.{
  load_config-HoldsConfig, save_config_total, save_entry_total,
}
use solana_sas_extension.Addresses.Unique.{address-IsDerived}
use solana_sas_extension.Admin.Checks.{address}
use solana_sas_extension.Instructions.InitializeConfig
use solana_sas_extension.Instructions.UpdateConfig
use solana_sas_extension.Instructions.TransferAuthority
use solana_sas_extension.Instructions.AcceptAuthority
use solana_sas_extension.Instructions.AddToWhitelist
use solana_sas_extension.Instructions.RemoveFromWhitelist
use solana_sas_extension.History.InStep.{IsOnlyConfig}
use solana_sas_extension.Program.{process}
use solana_sas_extension.Registry.{Op, configure, reconfigure, name_next, accept, enlist, delist}
use solana_sas_extension.Registry.Filled.{entry_of}
use solana_sas_extension.Registry.Refines.Frames.{config_at-ne-list_at}
use solana_sas_extension.Registry.Requests.{request, IsReady}
use solana_sas_extension.Registry.Sane.{Laws}
use solana_sas_extension.Registry.View.{config_at, entry_at}

new_room : (n : ℕ) (b : Bytes) → b ≡ replicate n 0 → n ≤ length b
new_room n b blank = let len = ap length blank ∙ length-replicate {A = ℕ} n 0 in omega (arith, len)

module _ (rt : Runtime) (laws : Laws rt) (mint signer : Pubkey) (tx : Invocation) (l : Ledger) where
  abbrev pub Runs : Op → Type 0
  Runs op = (l' : Ledger) × (process rt tx (request rt mint signer op) l ≡ ok l')

  pub configure-Runs :
      (k c s p : Pubkey)
      → tx.is_signer k ≡ true
      → IsReady rt mint signer tx l (configure k c s p)
      → Runs (configure k c s p)
  unfolding process InitializeConfig.execute InitializeConfig.handler
  configure-Runs k c s p signed (system, pays, writes, m, minted, authority, l₁, made) =
      let key = config_at rt mint in
      let new = laws.accounts.init_new l l₁ k key hook_config_len made in
      let room : hook_config_len ≤ length (l₁ key).bytes =
        new_room hook_config_len (l₁ key).bytes new.1 in
      let bump = (rt.find_program_address (config_seeds rt mint) rt.program_id).1 in
      let (l₂, saved) =
        save_config_total rt l₁ key laws.codec new.0
          (InitializeConfig.handler k bump c s p zeroed_config) room in
      (l₂, ground (arith, made, saved))

  module _ (c : HookConfig) (here : IsOnlyConfig rt mint (config_at rt mint) c l) where
    pub accept-Runs :
        (k : Pubkey)
        → c.pending_authority ≡ k
        → k ≢ default
        → tx.is_signer k ≡ true
        → IsReady rt mint signer tx l (accept k)
        → Runs (accept k)
    unfolding process AcceptAuthority.execute
    accept-Runs k pending ne signed ((writes, room), m, minted) =
        let key = config_at rt mint in
        let held = load_config-HoldsConfig rt l key c here.found in
        let c' : HookConfig = record c {
          authority = c.pending_authority;
          pending_authority = default;
        } in
        let (l', saved) = save_config_total rt l key laws.codec held.0 c' room in
        (l', ground (arith, here.found, here.derived, saved))

    pub reconfigure-Runs :
        (k s p : Pubkey)
        → tx.is_signer signer ≡ true
        → c.authority ≡ signer
        → IsReady rt mint signer tx l (reconfigure k s p)
        → Runs (reconfigure k s p)
    unfolding process UpdateConfig.execute UpdateConfig.validate UpdateConfig.rewrite_meta_list
        UpdateConfig.handler
    reconfigure-Runs k s p signed mine ((writes, room), lists, m, minted, metas, built, b, baked) =
        let key = config_at rt mint in
        let list = address rt (meta_list_seeds rt mint) in
        let held = load_config-HoldsConfig rt l key c here.found in
        let l₁ = update l list (record (l list) { bytes = b }) in
        let same : l₁ key ≡ l key =
          update_ne l list key (record (l list) { bytes = b })
            (config_at-ne-list_at rt laws mint mint) in
        let (l', saved) =
          save_config_total rt l₁ key laws.codec (rw same held.0) (UpdateConfig.handler k s p c)
            (rw same room) in
        (l', ground (arith, here.found, here.derived, saved))

    pub name_next-Runs :
        (k : Pubkey)
        → tx.is_signer signer ≡ true
        → c.authority ≡ signer
        → IsReady rt mint signer tx l (name_next k)
        → Runs (name_next k)
    unfolding process TransferAuthority.execute TransferAuthority.handler
    name_next-Runs k signed mine (system, pays, writes, m, minted, l₁, grown) =
        let key = config_at rt mint in
        let held = load_config-HoldsConfig rt l key c here.found in
        let ours = laws.accounts.realloc_owner l l₁ signer key hook_config_len grown ∙ held.0 in
        let len = laws.accounts.realloc_length l l₁ signer key hook_config_len grown in
        let (l', saved) =
          save_config_total rt l₁ key laws.codec ours (TransferAuthority.handler k c)
            (rw len (omega arith)) in
        (l', ground (arith, here.found, here.derived, grown, saved))

    pub enlist-Runs :
        (w : Pubkey)
        → tx.is_signer signer ≡ true
        → c.authority ≡ signer
        → IsReady rt mint signer tx l (enlist w)
        → Runs (enlist w)
    unfolding process AddToWhitelist.execute AddToWhitelist.handler
    enlist-Runs w signed mine (system, pays, writes, m, minted, l₁, made) =
        let key = entry_at rt mint w in
        let new = laws.accounts.init_new l l₁ signer key whitelist_entry_len made in
        let room = new_room whitelist_entry_len (l₁ key).bytes new.1 in
        let bump = (rt.find_program_address (whitelist_seeds rt mint w) rt.program_id).1 in
        let (l', saved) =
          save_entry_total rt l₁ key laws.codec new.0 (AddToWhitelist.handler w bump zeroed_entry)
            room in
        (l', ground (arith, here.found, here.derived, made, saved))

    pub delist-Runs :
        (w : Pubkey)
        → tx.is_signer signer ≡ true
        → c.authority ≡ signer
        → load_entry rt l (entry_at rt mint w) ≡ ok (entry_of rt mint w)
        → IsReady rt mint signer tx l (delist w)
        → Runs (delist w)
    unfolding process RemoveFromWhitelist.execute
    delist-Runs w signed mine entry (system, writes, apart, m, minted, l', closed) =
        let derived = address-IsDerived rt laws.derivation (whitelist_seeds rt mint w) in
        (l', ground (arith, here.found, here.derived, entry, derived, closed))
