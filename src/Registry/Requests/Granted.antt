-- ===== src/Registry/Requests/Granted.antt =====
-- What the registry consents to, the program does.
use solana_sas_extension.Prelude.{◌≡◌, ◌≢◌, true, none, some, inl, inr, arith}
use solana_sas_extension.Result.{ok, Result-cases}
use solana_sas_extension.Solana.{Pubkey, Ledger, Invocation, default}
use solana_sas_extension.State.{HookConfig}
use solana_sas_extension.Runtime.{Runtime}
use solana_sas_extension.Accounts.{load_config}
use solana_sas_extension.Program.{process}
use solana_sas_extension.Registry.{
  Registry, Op, configure, reconfigure, name_next, accept, enlist, delist, perform, named,
}
use solana_sas_extension.Registry.Enabled.{Requires, perform-Requires}
use solana_sas_extension.Registry.Filled.{IsFilled}
use solana_sas_extension.Registry.Lists.{IsSane-IsOnlyConfig}
use solana_sas_extension.Registry.Refines.{op_of}
use solana_sas_extension.Registry.Refines.Simulation.{process-refines}
use solana_sas_extension.Registry.Requests.{request, IsReady}
use solana_sas_extension.Registry.Requests.Succeed.{
  Runs, configure-Runs, reconfigure-Runs, name_next-Runs, accept-Runs, enlist-Runs, delist-Runs,
}
use solana_sas_extension.Registry.Sane.{Laws, IsSane}
use solana_sas_extension.Registry.View.{config_at, summary, whitelisted_of, registry_of}

op_of-request :
    (rt : Runtime) (mint signer : Pubkey) (op : Op)
    → op_of mint (request rt mint signer op) ≡ some op
unfolding op_of
op_of-request rt mint signer (configure k c s p) = ground arith
op_of-request rt mint signer (reconfigure c s p) = ground arith
op_of-request rt mint signer (name_next k) = ground arith
op_of-request rt mint signer (accept k) = ground arith
op_of-request rt mint signer (enlist w) = ground arith
op_of-request rt mint signer (delist w) = ground arith

named-some : (p k : Pubkey) → named p ≡ some k → (p ≡ k) × (k ≢ default)
named-some p k h = (ground arith, λ e. ground arith)

module _ (rt : Runtime) (laws : Laws rt) (mint signer : Pubkey) (tx : Invocation) (l : Ledger)
    (sane : IsSane rt l) (filled : IsFilled rt l)
    (only : (k : Pubkey) → tx.is_signer k ≡ true → k ≡ signer) where
  signed_by : (c : HookConfig) → tx.is_signer c.authority ≡ true → tx.is_signer signer ≡ true
  signed_by c signed = rw (← only c.authority signed) signed

  Requires-Runs :
      (op : Op) (c : HookConfig)
      → load_config rt l (config_at rt mint) ≡ ok c
      → Requires tx.is_signer op (some (summary c)) (whitelisted_of rt mint l)
      → IsReady rt mint signer tx l op
      → Runs rt laws mint signer tx l op
  Requires-Runs (configure k d s p) c loaded required ready = absurd required
  Requires-Runs (reconfigure d s p) c loaded signed ready =
      reconfigure-Runs rt laws mint signer tx l c (IsSane-IsOnlyConfig rt laws mint l c sane loaded)
        d s p (signed_by c signed) (only c.authority signed) ready
  Requires-Runs (name_next k) c loaded signed ready =
      name_next-Runs rt laws mint signer tx l c (IsSane-IsOnlyConfig rt laws mint l c sane loaded) k
        (signed_by c signed) (only c.authority signed) ready
  Requires-Runs (accept k) c loaded (pending, signed) ready =
      let (is_k, ne) = named-some c.pending_authority k pending in
      accept-Runs rt laws mint signer tx l c (IsSane-IsOnlyConfig rt laws mint l c sane loaded) k
        is_k ne signed ready
  Requires-Runs (enlist w) c loaded (signed, out) ready =
      enlist-Runs rt laws mint signer tx l c (IsSane-IsOnlyConfig rt laws mint l c sane loaded) w
        (signed_by c signed) (only c.authority signed) ready
  Requires-Runs (delist w) c loaded (signed, listed) ready =
      delist-Runs rt laws mint signer tx l c (IsSane-IsOnlyConfig rt laws mint l c sane loaded) w
        (signed_by c signed) (only c.authority signed) (filled mint w (ground arith)) ready

  Requires-Runs-unset :
      (op : Op)
      → Requires tx.is_signer op none (whitelisted_of rt mint l)
      → IsReady rt mint signer tx l op
      → Runs rt laws mint signer tx l op
  Requires-Runs-unset (configure k c s p) signed ready =
      configure-Runs rt laws mint signer tx l k c s p signed ready
  Requires-Runs-unset (reconfigure c s p) required ready = absurd required
  Requires-Runs-unset (name_next k) required ready = absurd required
  Requires-Runs-unset (accept k) required ready = absurd required
  Requires-Runs-unset (enlist w) required ready = absurd required
  Requires-Runs-unset (delist w) required ready = absurd required

  module _ (op : Op) (r : Registry)
      (consent : perform tx.is_signer (some op) (registry_of rt mint l) ≡ some r)
      (ready : IsReady rt mint signer tx l op) where
    perform-Runs : Runs rt laws mint signer tx l op
    perform-Runs =
        let required = perform-Requires tx.is_signer op (registry_of rt mint l) r consent in
        elim (Result-cases (load_config rt l (config_at rt mint))) [
          | inl (e, p) ↦ Requires-Runs-unset op (rw p at required) ready
          | inr (c, p) ↦ Requires-Runs op c p (rw p at required) ready
        ]

    -- On a ledger where every config and entry stands in its place and every account of the program
    -- at a whitelist address is the entry that belongs there, in a transaction that one key alone
    -- signs: what the registry of a mint consents to, given the signatures, the program does. If the
    -- accounts and the libraries are ready for the operation, the instruction that asks for it
    -- succeeds, and the registry is then what the operation makes of it.
    pub request_granted :
        (l' : Ledger) × (process rt tx (request rt mint signer op) l ≡ ok l')
        × (registry_of rt mint l' ≡ r)
    request_granted =
        let (l', done) = perform-Runs in
        let i = request rt mint signer op in
        let step = process-refines rt laws mint tx l l' sane i done in
        let same = rw (op_of-request rt mint signer op) at step in
        let results : registry_of rt mint l' ≡ r = cc (same, consent) in (l', done, results)
