-- ===== src/History/Evolution.antt =====
-- How a config changes: only by its authority's signature, or by that of the pending authority.
use solana_sas_extension.Prelude.{
  ◌≡◌, ◌≢◌, ◌⊎◌, inl, inr, refl, sym, ◌∙◌, true, ◌==◌, arith, Bool-cases,
}
use solana_sas_extension.Result.{ok, ok_of_bind}
use solana_sas_extension.Solana.{Pubkey, Ledger, Invocation, default, system_program_id}
use solana_sas_extension.State.{HookConfig, WhitelistEntry}
use solana_sas_extension.Seeds.{meta_list_seeds}
use solana_sas_extension.Runtime.{Runtime}
use solana_sas_extension.Runtime.Laws.{AddressLaws, CodecLaws, AccountLaws, Unchanged}
use solana_sas_extension.Accounts.{load_config, load_entry}
use solana_sas_extension.Accounts.Laws.{
  load_config-HoldsConfig, load_config-Unchanged, load_entry-HoldsEntry,
}
use solana_sas_extension.Instructions.TransferHook
use solana_sas_extension.Admin.Checks.{address}
use solana_sas_extension.Admin.Authority.{transfer_authority-Named, accept_authority-Accepted}
use solana_sas_extension.Admin.Config.{initialize_config-Initialized}
use solana_sas_extension.Admin.MetaList.{update_config-Updated}
use solana_sas_extension.Admin.Whitelist.{add_to_whitelist-Added, remove_from_whitelist-Removed}
use solana_sas_extension.Program.{
  Instruction, initialize_config, update_config, add_to_whitelist, remove_from_whitelist,
  transfer_authority, accept_authority, initialize_extra_account_meta_list, transfer_hook, process,
}
use solana_sas_extension.History.{Step, instruction, elsewhere, Reach, here, next, Keeps}
use solana_sas_extension.History.Effects.{
  update_config_effect, meta_list_effect, update_config_found,
}

-- What one invocation may do to a config.
pub data Evolves (tx : Invocation) (c : HookConfig) : HookConfig → Type 0 where
  same : Evolves tx c c
  updated :
      (credential schema sas_program : Pubkey)
      → tx.is_signer c.authority ≡ true
      → Evolves tx c
          (record c { credential = credential; schema = schema; sas_program = sas_program })
  named :
      (new_authority : Pubkey)
      → tx.is_signer c.authority ≡ true
      → Evolves tx c (record c { pending_authority = new_authority })
  accepted :
      c.pending_authority ≢ default
      → tx.is_signer c.pending_authority ≡ true
      → Evolves tx c (record c { authority = c.pending_authority; pending_authority = default })

-- Any number of such changes, each in an invocation of the kind that is allowed.
pub data Evolution (allowed : Invocation → Type 0) (c : HookConfig) : HookConfig → Type 0 where
  none_yet : Evolution allowed c c
  and_then :
      {d e : HookConfig}
      → Evolution allowed c d
      → (tx : Invocation) → allowed tx
      → Evolves tx d e
      → Evolution allowed c e

pub same_or_not : (k j : Pubkey) → (k ≡ j) ⊎ (k ≢ j)
same_or_not k j = elim (Bool-cases (k == j)) [
  | inl equal ↦ inl (ground arith)
  | inr unequal ↦ inr (λ p. ground arith)
]

module _ (rt : Runtime) (address_laws : AddressLaws rt) (codec : CodecLaws rt)
    (accounts : AccountLaws rt) (k : Pubkey)
    (apart : (m : Pubkey) → address rt (meta_list_seeds rt m) ≢ k) where
  module _ (c : HookConfig) (l l' : Ledger) (found : load_config rt l k ≡ ok c) where
    pub not_fresh : (j : Pubkey) → (l j).owner ≡ system_program_id → k ≢ j
    not_fresh j fresh p =
        let held = load_config-HoldsConfig rt l k c found in
        accounts.program_ne_system (sym held.0 ∙ rw p fresh)

    pub not_entry : (j : Pubkey) (e : WhitelistEntry) → load_entry rt l j ≡ ok e → k ≢ j
    not_entry j e entry p =
        let held = load_config-HoldsConfig rt l k c found in
        let held' = load_entry-HoldsEntry rt l j e entry in
        let none_here = codec.config_not_entry (l k).bytes c held.1 in
        cc (rw (← p) at held'.1, none_here)

    pub same_config : (j : Pubkey) (d : HookConfig) → load_config rt l j ≡ ok d → k ≡ j → d ≡ c
    same_config j d other p = let there : load_config rt l k ≡ ok d = rw p other in cc

    -- What is stored at `k` afterwards.
    abbrev Next : Invocation → Type 0
    Next tx = (d : HookConfig) × (load_config rt l' k ≡ ok d) × Evolves tx c d

    kept : (tx : Invocation) → Unchanged l l' k → Next tx
    kept tx u = (c, load_config-Unchanged rt l l' k c accounts.program_ne_system u found, same)

    process-Evolves : (tx : Invocation) (i : Instruction) → process rt tx i l ≡ ok l' → Next tx
    unfolding process
    process-Evolves tx (initialize_config a cr s p) h =
        let (mint, i) =
          initialize_config-Initialized rt address_laws codec accounts tx a cr s p l l' h in
        kept tx (i.others k (not_fresh a.config i.fresh))
    process-Evolves tx (update_config a cr s p) h = elim (same_or_not k a.config) [
      | inl at ↦
          let (_, _, _, list) = update_config_found rt tx l l' a cr s p h in
          let (d, i) =
            update_config-Updated rt codec accounts tx a cr s p l l'
              (λ e. apart a.mint (sym list ∙ sym e ∙ sym at)) h in
          let found_it = same_config a.config d i.found at in
          (_, rw (at, ← found_it) i.written, updated cr s p (rw found_it at i.signed))
      | inr other ↦
          let (d, loaded, signed, others) =
            update_config_effect rt codec accounts tx l l' k apart a cr s p h in
          kept tx (rw (others other) (refl, refl))
    ]
    process-Evolves tx (add_to_whitelist a w) h =
        let (d, i) = add_to_whitelist-Added rt codec accounts tx a w l l' h in
        kept tx (i.others k (not_fresh a.whitelist_entry i.fresh))
    process-Evolves tx (remove_from_whitelist a w) h =
        let (d, e, i) = remove_from_whitelist-Removed rt codec accounts tx a w l l' h in
        kept tx (i.others k (not_entry a.whitelist_entry e i.entry))
    process-Evolves tx (transfer_authority a) h =
        let (d, i) = transfer_authority-Named rt codec accounts tx a l l' h in
        elim (same_or_not k a.config) [
          | inl at ↦
              let found_it = same_config a.config d i.found at in
              (_, rw (at, ← found_it) i.written, named a.new_authority (rw found_it at i.signed))
          | inr other ↦ kept tx (i.others k other)
        ]
    process-Evolves tx (accept_authority a) h =
        let (d, i) = accept_authority-Accepted rt codec accounts tx a l l' h in
        elim (same_or_not k a.config) [
          | inl at ↦
              let found_it = same_config a.config d i.found at in
              (
                _,
                rw (at, ← found_it) i.written,
                accepted (rw found_it at i.pending) (rw found_it at i.signed),
              )
          | inr other ↦ kept tx (rw (i.others k other) (refl, refl))
        ]
    process-Evolves tx (initialize_extra_account_meta_list a) h =
        kept tx (meta_list_effect rt codec accounts tx l l' k apart a h)
    process-Evolves tx (transfer_hook a amount) h =
        let (_, _, unchanged) = ok_of_bind (TransferHook.execute rt tx a amount l) _ h in
        let no_change : l ≡ l' = cc unchanged in kept tx (rw (← no_change) (refl, refl))

  Step-Evolves :
      {allowed : Invocation → Type 0} (c d : HookConfig) (m n : Ledger)
      → load_config rt m k ≡ ok d
      → Evolution allowed c d
      → Step rt allowed (Keeps rt) m n
      → (e : HookConfig) × (load_config rt n k ≡ ok e) × Evolution allowed c e
  Step-Evolves c d m n found before (instruction tx i may h) =
      let (e, found', change) = process-Evolves d m n found tx i h in
      (e, found', and_then before tx may change)
  Step-Evolves c d m n found before (elsewhere keeps) =
      let u = keeps k (load_config-HoldsConfig rt m k d found).0 in
      (d, load_config-Unchanged rt m n k d accounts.program_ne_system u found, before)

  -- Whatever instructions of this program run, in invocations of any kind, and whatever other programs
  -- write to their accounts, a config at a key that is no list address stays a config, and what it then is has come
  -- about by changes that its authority of the time signed, or that its pending authority of the time
  -- signed to become the authority.
  pub Reach-Evolution :
      {allowed : Invocation → Type 0} (c : HookConfig) {l l' : Ledger}
      → load_config rt l k ≡ ok c
      → Reach rt allowed (Keeps rt) l l'
      → (d : HookConfig) × (load_config rt l' k ≡ ok d) × Evolution allowed c d
  Reach-Evolution c found here = (c, found, none_yet)
  Reach-Evolution c found (next r s) =
      let (d, found', before) = Reach-Evolution c found r in Step-Evolves c d _ _ found' before s
