-- ===== src/Admin/Whitelist.antt =====
-- add_to_whitelist.rs and remove_from_whitelist.rs: what they do to the ledger.
use solana_sas_extension.Prelude.{◌≡◌, ◌≢◌, true}
use solana_sas_extension.Result.{ok, ok_of_bind}
use solana_sas_extension.Solana.{Pubkey, Ledger, Invocation, system_program_id}
use solana_sas_extension.State.{HookConfig, WhitelistEntry, whitelist_entry_len}
use solana_sas_extension.Seeds.{config_seeds, whitelist_seeds}
use solana_sas_extension.Runtime.{Runtime}
use solana_sas_extension.Runtime.Laws.{CodecLaws, AccountLaws, Unchanged}
use solana_sas_extension.Accounts.{load_config, load_entry}
use solana_sas_extension.Accounts.Laws.{
  HoldsEntry-load_entry, save_entry-HoldsEntry, save_entry_other,
}
use solana_sas_extension.Instructions.AddToWhitelist
use solana_sas_extension.Instructions.RemoveFromWhitelist
use solana_sas_extension.Admin.Checks.{
  IsDerived, address, add_to_whitelist_checks, remove_from_whitelist_checks,
}

module _ (rt : Runtime) (codec : CodecLaws rt) (accounts : AccountLaws rt) (tx : Invocation) where
  -- What a successful add_to_whitelist has done: `c` is the config that it found.
  pub record Added (a : AddToWhitelist.AddToWhitelist) (wallet : Pubkey) (l l' : Ledger)
      (c : HookConfig) : Type 0 where
    pub found : load_config rt l a.config ≡ ok c
    pub signed : tx.is_signer c.authority ≡ true
    pub derived : IsDerived rt (config_seeds rt a.mint) c.bump a.config
    pub at : a.whitelist_entry ≡ address rt (whitelist_seeds rt a.mint wallet)
    pub fresh : (l a.whitelist_entry).owner ≡ system_program_id
    pub ours : (l' a.whitelist_entry).owner ≡ rt.program_id
    pub written :
        load_entry rt l' a.whitelist_entry
        ≡ ok (record {
          wallet = wallet;
          bump = (rt.find_program_address (whitelist_seeds rt a.mint wallet) rt.program_id).1;
        })
    pub others : (k : Pubkey) → k ≢ a.whitelist_entry → Unchanged l l' k

  -- What a successful remove_from_whitelist has done.
  pub record Removed (a : RemoveFromWhitelist.RemoveFromWhitelist) (wallet : Pubkey) (l l' : Ledger)
      (c : HookConfig) (e : WhitelistEntry) : Type 0 where
    pub found : load_config rt l a.config ≡ ok c
    pub signed : tx.is_signer c.authority ≡ true
    pub derived : IsDerived rt (config_seeds rt a.mint) c.bump a.config
    pub entry : load_entry rt l a.whitelist_entry ≡ ok e
    pub at : IsDerived rt (whitelist_seeds rt a.mint wallet) e.bump a.whitelist_entry
    pub closed : (l' a.whitelist_entry).owner ≡ system_program_id
    pub others : (k : Pubkey) → k ≢ a.whitelist_entry → Unchanged l l' k

  -- A successful add_to_whitelist was signed by the authority of a config at an address that the
  -- mint's config seeds derive, used the whitelist address of the mint and the wallet, which the
  -- System Program owned until then, leaves there the program's entry for the wallet, and changes the owner or data of no other
  -- account.
  pub add_to_whitelist-Added :
      (a : AddToWhitelist.AddToWhitelist) (wallet : Pubkey) (l l' : Ledger)
      → AddToWhitelist.execute rt tx a wallet l ≡ ok l'
      → (c : HookConfig) × Added a wallet l l' c
  unfolding AddToWhitelist.execute
  add_to_whitelist-Added a wallet l l' h =
      let ((m, bump), valid, saved) = ok_of_bind (AddToWhitelist.validate rt tx a wallet l) _ h in
      let (c, checks) = add_to_whitelist_checks rt tx l a wallet m bump valid in
      let new =
        accounts.init_new l m a.authority a.whitelist_entry whitelist_entry_len checks.created in
      let kept = save_entry-HoldsEntry rt m a.whitelist_entry codec new.0 _ l' saved in
      let written =
        HoldsEntry-load_entry rt l' a.whitelist_entry _ accounts.program_ne_system kept in
      (
        c,
        record {
          found = checks.loaded;
          signed = rw checks.authority at checks.signed;
          derived = checks.derived;
          at = checks.entry;
          fresh =
              accounts.init_old l m a.authority a.whitelist_entry whitelist_entry_len
                checks.created;
          ours = kept.0;
          written = rw checks.found at written;
          others = λ k ne. rw (save_entry_other rt m a.whitelist_entry _ l' k saved ne) (
              accounts.init_other l m a.authority a.whitelist_entry k whitelist_entry_len
                checks.created ne);
        },
      )

  -- A successful remove_from_whitelist was signed by the authority of a config at an address that the
  -- mint's config seeds derive, found the program's entry at an address that the whitelist seeds of
  -- the mint and the wallet derive, hands that account back to the System Program, and changes the
  -- owner or data of no other account.
  pub remove_from_whitelist-Removed :
      (a : RemoveFromWhitelist.RemoveFromWhitelist) (wallet : Pubkey) (l l' : Ledger)
      → RemoveFromWhitelist.execute rt tx a wallet l ≡ ok l'
      → (c : HookConfig) × (e : WhitelistEntry) × Removed a wallet l l' c e
  unfolding RemoveFromWhitelist.execute
  remove_from_whitelist-Removed a wallet l l' h =
      let (_, valid, closed) = ok_of_bind (RemoveFromWhitelist.validate rt tx a wallet l) _ h in
      let (c, e, checks) = remove_from_whitelist_checks rt tx l a wallet valid in
      (
        c,
        e,
        record {
          found = checks.loaded;
          signed = rw checks.authority at checks.signed;
          derived = checks.derived;
          entry = checks.entry;
          at = checks.address;
          closed = (accounts.close_closed tx l l' a.whitelist_entry a.authority closed).0;
          others = λ k ne. accounts.close_other tx l l' a.whitelist_entry a.authority k closed ne;
        },
      )
