-- ===== src/History/Guarded.antt =====
-- Who can change a whitelist entry: the authority of a config of its mint, and nobody else.
use solana_sas_extension.Prelude.{◌≡◌, ◌≢◌, ◌⊎◌, inl, inr, refl, sym, ◌∙◌, true}
use solana_sas_extension.Result.{ok, ok_of_bind}
use solana_sas_extension.Solana.{Pubkey, Ledger, Invocation}
use solana_sas_extension.State.{HookConfig, WhitelistEntry}
use solana_sas_extension.Seeds.{config_seeds, meta_list_seeds, whitelist_seeds}
use solana_sas_extension.Runtime.{Runtime}
use solana_sas_extension.Runtime.Laws.{AddressLaws, CodecLaws, AccountLaws, Unchanged}
use solana_sas_extension.Accounts.{load_config, load_entry}
use solana_sas_extension.Instructions.TransferHook
use solana_sas_extension.Admin.Checks.{address, IsDerived}
use solana_sas_extension.Admin.Authority.{transfer_authority-Named, accept_authority-Accepted}
use solana_sas_extension.Admin.Config.{initialize_config-Initialized}
use solana_sas_extension.Admin.Whitelist.{add_to_whitelist-Added, remove_from_whitelist-Removed}
use solana_sas_extension.Program.{
  Instruction, initialize_config, update_config, add_to_whitelist, remove_from_whitelist,
  transfer_authority, accept_authority, initialize_extra_account_meta_list, transfer_hook, process,
}
use solana_sas_extension.History.Effects.{update_config_effect, meta_list_effect}
use solana_sas_extension.History.Evolution.{same_or_not}

-- A config of the mint whose authority signed, and the key as a whitelist address of that mint:
-- the one that is found for a wallet, or the one that the bump in the entry there derives.
pub record Guarded (rt : Runtime) (tx : Invocation) (l : Ledger) (k : Pubkey) : Type 0 where
  pub mint : Pubkey
  pub wallet : Pubkey
  pub config : Pubkey
  pub current : HookConfig
  pub loaded : load_config rt l config ≡ ok current
  pub derived : IsDerived rt (config_seeds rt mint) current.bump config
  pub signed : tx.is_signer current.authority ≡ true
  pub entry :
      (k ≡ address rt (whitelist_seeds rt mint wallet))
      ⊎ ((e : WhitelistEntry) × (load_entry rt l k ≡ ok e)
          × IsDerived rt (whitelist_seeds rt mint wallet) e.bump k)

module _ (rt : Runtime) (address_laws : AddressLaws rt) (codec : CodecLaws rt)
    (accounts : AccountLaws rt) (tx : Invocation) (l l' : Ledger) (k : Pubkey)
    (no_list : (m : Pubkey) → address rt (meta_list_seeds rt m) ≢ k)
    (no_config : (m : Pubkey) → address rt (config_seeds rt m) ≢ k)
    (empty : (c : HookConfig) → load_config rt l k ≢ ok c) where
  not_config : (j : Pubkey) (c : HookConfig) → load_config rt l j ≡ ok c → k ≢ j
  not_config j c loaded p = empty c (rw p loaded)

  -- At a key that is no list or config address of any mint and where no config stands, no successful
  -- instruction changes the owner or the data of the account, unless the key is a whitelist address
  -- of a mint and the authority of a config of that mint signed.
  pub process-Guarded :
      (i : Instruction) → process rt tx i l ≡ ok l' → Unchanged l l' k ⊎ Guarded rt tx l k
  unfolding process
  process-Guarded (initialize_config a cr s p) h =
      let (mint, i) =
        initialize_config-Initialized rt address_laws codec accounts tx a cr s p l l' h in
      inl (i.others k (λ q. no_config a.mint (sym (q ∙ i.at))))
  process-Guarded (update_config a cr s p) h =
      let (c, loaded, signed, others) =
        update_config_effect rt codec accounts tx l l' k no_list a cr s p h in
      inl (rw (others (not_config a.config c loaded)) (refl, refl))
  process-Guarded (add_to_whitelist a w) h =
      let (c, i) = add_to_whitelist-Added rt codec accounts tx a w l l' h in
      elim (same_or_not k a.whitelist_entry) [
        | inl at ↦ inr (record {
          mint = a.mint;
          wallet = w;
          config = a.config;
          current = c;
          loaded = i.found;
          derived = i.derived;
          signed = i.signed;
          entry = inl (at ∙ i.at);
        })
        | inr other ↦ inl (i.others k other)
      ]
  process-Guarded (remove_from_whitelist a w) h =
      let (c, e, i) = remove_from_whitelist-Removed rt codec accounts tx a w l l' h in
      elim (same_or_not k a.whitelist_entry) [
        | inl at ↦ inr (record {
          mint = a.mint;
          wallet = w;
          config = a.config;
          current = c;
          loaded = i.found;
          derived = i.derived;
          signed = i.signed;
          entry = inr (e, rw at i.entry, rw at i.at);
        })
        | inr other ↦ inl (i.others k other)
      ]
  process-Guarded (transfer_authority a) h =
      let (c, i) = transfer_authority-Named rt codec accounts tx a l l' h in
      inl (i.others k (not_config a.config c i.found))
  process-Guarded (accept_authority a) h =
      let (c, i) = accept_authority-Accepted rt codec accounts tx a l l' h in
      inl (rw (i.others k (not_config a.config c i.found)) (refl, refl))
  process-Guarded (initialize_extra_account_meta_list a) h =
      inl (meta_list_effect rt codec accounts tx l l' k no_list a h)
  process-Guarded (transfer_hook a amount) h =
      let (_, _, unchanged) = ok_of_bind (TransferHook.execute rt tx a amount l) _ h in
      let no_change : l ≡ l' = cc unchanged in inl (rw (← no_change) (refl, refl))
