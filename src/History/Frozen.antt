-- ===== src/History/Frozen.antt =====
-- A config does not change while its authority signs nothing and nobody is pending.
use solana_sas_extension.Prelude.{◌≡◌, ◌≢◌, refl}
use solana_sas_extension.Result.{ok}
use solana_sas_extension.Solana.{Pubkey, Ledger, Invocation, default}
use solana_sas_extension.State.{HookConfig}
use solana_sas_extension.Seeds.{meta_list_seeds}
use solana_sas_extension.Runtime.{Runtime}
use solana_sas_extension.Runtime.Laws.{AddressLaws, CodecLaws, AccountLaws}
use solana_sas_extension.Accounts.{load_config}
use solana_sas_extension.Admin.Checks.{address}
use solana_sas_extension.History.{Reach, Silent, Keeps}
use solana_sas_extension.History.Evolution.{
  Evolves, same, updated, named, accepted, Evolution, none_yet, and_then, Reach-Evolution,
}

module _ (c : HookConfig) (nobody : c.pending_authority ≡ default) where
  Evolves-frozen :
      (tx : Invocation) (d e : HookConfig) → d ≡ c → Silent c.authority tx → Evolves tx d e → e ≡ c
  Evolves-frozen tx d e at silent same = at
  Evolves-frozen tx d e at silent (updated cr s p signed) = absurd (cc (rw at at signed, silent))
  Evolves-frozen tx d e at silent (named n signed) = absurd (cc (rw at at signed, silent))
  Evolves-frozen tx d e at silent (accepted pending signed) = absurd ((rw at at pending) nobody)

  Evolution-frozen : (d : HookConfig) → Evolution (Silent c.authority) c d → d ≡ c
  Evolution-frozen d none_yet = refl
  Evolution-frozen d (and_then before tx silent change) =
      Evolves-frozen tx _ d (Evolution-frozen _ before) silent change

module _ (rt : Runtime) (address_laws : AddressLaws rt) (codec : CodecLaws rt)
    (accounts : AccountLaws rt) (k : Pubkey) (c : HookConfig)
    (apart : (m : Pubkey) → address rt (meta_list_seeds rt m) ≢ k)
    (nobody : c.pending_authority ≡ default) where
  -- Whatever instructions anybody runs, and whatever other programs write to their accounts, a
  -- config with nobody pending, at a key that is no list address, reads the same after any number
  -- of steps that its authority did not sign.
  pub Reach-frozen :
      {l l' : Ledger}
      → load_config rt l k ≡ ok c
      → Reach rt (Silent c.authority) (Keeps rt) l l'
      → load_config rt l' k ≡ ok c
  Reach-frozen found r =
      let (d, found', changes) = Reach-Evolution rt address_laws codec accounts k apart c found r in
      let unchanged = Evolution-frozen c nobody d changes in rw unchanged at found'
