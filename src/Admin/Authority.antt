-- ===== src/Admin/Authority.antt =====
-- The two-step change of the authority: transfer_authority.rs names a pending authority, and
-- accept_authority.rs makes it the authority.
use solana_sas_extension.Prelude.{◌≡◌, ◌≢◌, ◌∙◌, true, arith, length}
use solana_sas_extension.Result.{ok, ok_of_bind}
use solana_sas_extension.Solana.{Pubkey, Ledger, Invocation, default}
use solana_sas_extension.State.{HookConfig, hook_config_len}
use solana_sas_extension.Seeds.{config_seeds}
use solana_sas_extension.Runtime.{Runtime, Mint}
use solana_sas_extension.Runtime.Laws.{CodecLaws, AccountLaws, Unchanged}
use solana_sas_extension.Accounts.{load_config}
use solana_sas_extension.Accounts.Laws.{
  load_config-HoldsConfig, HoldsConfig-load_config, save_config-HoldsConfig, save_config_other,
  length-save_config, save_config_total,
}
use solana_sas_extension.Instructions.TransferAuthority
use solana_sas_extension.Instructions.AcceptAuthority
use solana_sas_extension.Admin.Checks.{
  IsDerived, transfer_authority_checks, accept_authority_checks,
}

module _ (rt : Runtime) (codec : CodecLaws rt) (accounts : AccountLaws rt) (tx : Invocation) where
  -- What a successful transfer_authority has done: `c` is the config that it found.
  pub record Named (a : TransferAuthority.TransferAuthority) (l l' : Ledger) (c : HookConfig)
      : Type 0 where
    pub found : load_config rt l a.config ≡ ok c
    pub signed : tx.is_signer c.authority ≡ true
    pub derived : IsDerived rt (config_seeds rt a.mint) c.bump a.config
    pub written : load_config rt l' a.config ≡ ok (record c { pending_authority = a.new_authority })
    pub room : length (l' a.config).bytes ≡ hook_config_len
    pub others : (k : Pubkey) → k ≢ a.config → Unchanged l l' k

  -- What a successful accept_authority has done.
  pub record Accepted (a : AcceptAuthority.AcceptAuthority) (l l' : Ledger) (c : HookConfig)
      : Type 0 where
    pub found : load_config rt l a.config ≡ ok c
    pub by : a.pending_authority ≡ c.pending_authority
    pub pending : c.pending_authority ≢ default
    pub signed : tx.is_signer c.pending_authority ≡ true
    pub derived : IsDerived rt (config_seeds rt a.mint) c.bump a.config
    pub written :
        load_config rt l' a.config
        ≡ ok (record c { authority = c.pending_authority; pending_authority = default })
    pub others : (k : Pubkey) → k ≢ a.config → l' k ≡ l k

  -- A successful transfer_authority was signed by the config's authority, stands at the address that
  -- the config's bump derives, changes nothing of the config but its pending authority, leaves the
  -- config account at its full length, and changes the owner or data of no other account.
  pub transfer_authority-Named :
      (a : TransferAuthority.TransferAuthority) (l l' : Ledger)
      → TransferAuthority.execute rt tx a l ≡ ok l'
      → (c : HookConfig) × Named a l l' c
  unfolding TransferAuthority.execute
  transfer_authority-Named a l l' h =
      let ((m, c), valid, saved) = ok_of_bind (TransferAuthority.validate rt tx a l) _ h in
      let checks = transfer_authority_checks rt tx l a m c valid in
      let held = load_config-HoldsConfig rt l a.config c checks.loaded in
      let ours =
        accounts.realloc_owner l m a.authority a.config hook_config_len checks.resized ∙ held.0 in
      let kept = save_config-HoldsConfig rt m a.config codec ours _ l' saved in
      (
        c,
        record {
          found = checks.loaded;
          signed = rw checks.authority at checks.signed;
          derived = checks.derived;
          written = HoldsConfig-load_config rt l' a.config _ accounts.program_ne_system kept;
          room =
              length-save_config rt m a.config codec ours _ l' saved
              ∙ accounts.realloc_length l m a.authority a.config hook_config_len checks.resized;
          others = λ k ne.
              rw (save_config_other rt m a.config _ l' k saved ne) (
                accounts.realloc_other l m a.authority a.config k hook_config_len checks.resized
                  ne);
        },
      )

  -- A successful accept_authority found a pending authority that is not the default key and that
  -- signed; it makes that key the authority, clears the pending one, keeps the rest of the config,
  -- and changes no other account.
  pub accept_authority-Accepted :
      (a : AcceptAuthority.AcceptAuthority) (l l' : Ledger)
      → AcceptAuthority.execute rt tx a l ≡ ok l'
      → (c : HookConfig) × Accepted a l l' c
  unfolding AcceptAuthority.execute
  accept_authority-Accepted a l l' h =
      let (c, valid, rest) = ok_of_bind (AcceptAuthority.validate rt tx a l) _ h in
      let (c', handled, saved) = ok_of_bind (AcceptAuthority.handler c) _ rest in
      let checks = accept_authority_checks rt tx l a c valid in
      let held = load_config-HoldsConfig rt l a.config c checks.loaded in
      let kept = save_config-HoldsConfig rt l a.config codec held.0 c' l' saved in
      let written = HoldsConfig-load_config rt l' a.config c' accounts.program_ne_system kept in
      let pending : c.pending_authority ≢ default = ground arith in
      let result : c' ≡ record c { authority = c.pending_authority; pending_authority = default } =
        ground arith in
      (
        c,
        record {
          found = checks.loaded;
          by = checks.pending;
          pending = pending;
          signed = rw checks.pending at checks.signed;
          derived = checks.derived;
          written = rw result at written;
          others = λ k ne. save_config_other rt l a.config c' l' k saved ne;
        },
      )

  -- Where the config has nobody pending, no accept_authority succeeds, whoever signs.
  pub accept_authority_nobody :
      (a : AcceptAuthority.AcceptAuthority) (l l' : Ledger) (c : HookConfig)
      → load_config rt l a.config ≡ ok c
      → c.pending_authority ≡ default
      → AcceptAuthority.execute rt tx a l ≢ ok l'
  accept_authority_nobody a l l' c loaded none_pending h =
      let (d, accepted) = accept_authority-Accepted a l l' h in
      accepted.pending (ground (arith, accepted.found))

-- The change of authority in two invocations, `tx` of the old one and `tx'` of the new one.
module _ (rt : Runtime) (codec : CodecLaws rt) (accounts : AccountLaws rt)
    (tx tx' : Invocation) where
  -- After a successful transfer_authority to a key that is not the default one, that key can accept at
  -- once: given its signature, a writable config account and a readable mint, accept_authority
  -- succeeds, and the config is the old one with that key as authority and nobody pending.
  pub handover :
      (a : TransferAuthority.TransferAuthority) (l l' : Ledger) (mint : Mint)
      → a.new_authority ≢ default
      → TransferAuthority.execute rt tx a l ≡ ok l'
      → tx'.is_signer a.new_authority ≡ true
      → tx'.is_writable a.config ≡ true
      → rt.read_mint (l' a.mint) ≡ ok mint
      → let b : AcceptAuthority.AcceptAuthority = record {
        pending_authority = a.new_authority;
        config = a.config;
        mint = a.mint;
      } in
        (c : HookConfig) × (l'' : Ledger) × (load_config rt l a.config ≡ ok c)
        × (AcceptAuthority.execute rt tx' b l' ≡ ok l'')
        × (load_config rt l'' a.config
            ≡ ok (record c { authority = a.new_authority; pending_authority = default }))
  unfolding AcceptAuthority.execute
  handover a l l' mint named h signs writes mints =
      let (c, n) = transfer_authority-Named rt codec accounts tx a l l' h in
      let held = load_config-HoldsConfig rt l' a.config _ n.written in
      let c' : HookConfig = record c { authority = a.new_authority; pending_authority = default } in
      let (l'', saved) = save_config_total rt l' a.config codec held.0 c' (omega (arith, n.room)) in
      let kept = save_config-HoldsConfig rt l' a.config codec held.0 c' l'' saved in
      (
        c,
        l'',
        n.found,
        ground (arith, n.written, n.derived, saved),
        HoldsConfig-load_config rt l'' a.config c' accounts.program_ne_system kept,
      )
