-- ===== src/Registry/Refines/Entries.antt =====
-- The instructions that write a whitelist entry are steps of the registry of its mint.
use solana_sas_extension.Prelude.{◌≡◌, ◌≢◌, true, false, inl, inr, arith}
use solana_sas_extension.Result.{ok}
use solana_sas_extension.Solana.{Pubkey, Ledger, Invocation}
use solana_sas_extension.Runtime.{Runtime}
use solana_sas_extension.Runtime.Laws.{Unchanged}
use solana_sas_extension.Accounts.Laws.{load_entry-HoldsEntry}
use solana_sas_extension.Instructions.AddToWhitelist
use solana_sas_extension.Instructions.RemoveFromWhitelist
use solana_sas_extension.Admin.Whitelist.{add_to_whitelist-Added, remove_from_whitelist-Removed}
use solana_sas_extension.Program.{add_to_whitelist, remove_from_whitelist}
use solana_sas_extension.History.Evolution.{same_or_not}
use solana_sas_extension.Registry.{enlist, delist, perform-enlist, perform-delist}
use solana_sas_extension.Registry.Refines.{op_of}
use solana_sas_extension.Registry.Refines.Configs.{this_step, other_step, Refines}
use solana_sas_extension.Registry.Refines.Frames.{entry_of_other, entry_of_this}
use solana_sas_extension.Registry.Sane.{Laws, IsSane, config_canonical, entry_canonical}
use solana_sas_extension.Registry.View.{summary, entry_at, whitelisted_of, settings_of_changed}

module _ (rt : Runtime) (laws : Laws rt) (mint : Pubkey) (tx : Invocation) (l l' : Ledger)
    (sane : IsSane rt l) where
  pub add_to_whitelist-Refines :
      (a : AddToWhitelist.AddToWhitelist) (w : Pubkey)
      → AddToWhitelist.execute rt tx a w l ≡ ok l'
      → Refines rt laws mint tx l l' sane (add_to_whitelist a w)
  unfolding op_of
  add_to_whitelist-Refines a w h =
      let (c, i) = add_to_whitelist-Added rt laws.codec laws.accounts tx a w l l' h in
      let at = config_canonical rt laws l a.config a.mint c (sane a.config) i.found i.derived in
      let others : (k : Pubkey) → k ≢ entry_at rt a.mint w → Unchanged l l' k =
        λ k ne. i.others k (rw i.at ne) in
      elim (same_or_not a.mint mint) [
        | inl this ↦
            let fresh = rw (i.at, this) at i.fresh in
            let ours = rw i.at at i.ours in
            let out : whitelisted_of rt mint l w ≡ false =
              ground (arith, fresh, laws.accounts.program_ne_system) in
            let in_it : whitelisted_of rt a.mint l' w ≡ true = ground (arith, ours) in
            let here = settings_of_changed rt mint l l' c (rw (← this, ← at) i.found) in
            this_step rt laws mint tx l l' sane a.mint (enlist w) _ this
              (perform-enlist _ _ (summary c) here w i.signed out)
              (entry_of_this rt laws mint l l' a.mint w others true this in_it)
        | inr other ↦
            other_step rt laws mint tx l l' sane a.mint (enlist w) other
              (entry_of_other rt laws mint l l' a.mint w others other)
      ]

  pub remove_from_whitelist-Refines :
      (a : RemoveFromWhitelist.RemoveFromWhitelist) (w : Pubkey)
      → RemoveFromWhitelist.execute rt tx a w l ≡ ok l'
      → Refines rt laws mint tx l l' sane (remove_from_whitelist a w)
  unfolding op_of
  remove_from_whitelist-Refines a w h =
      let (c, e, i) = remove_from_whitelist-Removed rt laws.codec laws.accounts tx a w l l' h in
      let at = config_canonical rt laws l a.config a.mint c (sane a.config) i.found i.derived in
      let entry =
        entry_canonical rt laws l a.whitelist_entry a.mint w e (sane a.whitelist_entry) i.entry
          i.at in
      let others : (k : Pubkey) → k ≢ entry_at rt a.mint w → Unchanged l l' k =
        λ k ne. i.others k (rw entry ne) in
      elim (same_or_not a.mint mint) [
        | inl this ↦
            let held = load_entry-HoldsEntry rt l a.whitelist_entry e i.entry in
            let ours = rw (entry, this) at held.0 in
            let closed = rw entry at i.closed in
            let in_it : whitelisted_of rt mint l w ≡ true = ground (arith, ours) in
            let out : whitelisted_of rt a.mint l' w ≡ false =
              ground (arith, closed, laws.accounts.program_ne_system) in
            let here = settings_of_changed rt mint l l' c (rw (← this, ← at) i.found) in
            this_step rt laws mint tx l l' sane a.mint (delist w) _ this
              (perform-delist _ _ (summary c) here w i.signed in_it)
              (entry_of_this rt laws mint l l' a.mint w others false this out)
        | inr other ↦
            other_step rt laws mint tx l l' sane a.mint (delist w) other
              (entry_of_other rt laws mint l l' a.mint w others other)
      ]
