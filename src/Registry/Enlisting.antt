-- ===== src/Registry/Enlisting.antt =====
-- How a wallet comes onto the whitelist in a run.
use solana_sas_extension.Prelude.{◌≡◌, sym, ◌∙◌, Bool-cases, true, false, some, inl, inr}
use solana_sas_extension.Result.{ok}
use solana_sas_extension.Solana.{Pubkey, Ledger, Invocation}
use solana_sas_extension.Runtime.{Runtime}
use solana_sas_extension.History.{Step, instruction, elsewhere, Reach, here, next}
use solana_sas_extension.Program.{Instruction, process}
use solana_sas_extension.Registry.{Settings, enlist}
use solana_sas_extension.Registry.Calls.{perform_enlists}
use solana_sas_extension.Registry.Refines.{op_of}
use solana_sas_extension.Registry.Refines.Simulation.{process-refines}
use solana_sas_extension.Registry.Runs.{Foreign, Foreign-whitelisted, Reach-refines}
use solana_sas_extension.Registry.Sane.{Laws, IsSane}
use solana_sas_extension.Registry.View.{settings_of, whitelisted_of, registry_of}

module _ (rt : Runtime) (laws : Laws rt) (mint : Pubkey) where
  -- The step of a run from `l` to `l'` that put a wallet onto the whitelist: the run before it, the
  -- instruction that succeeds, and the run after it.
  pub record Enlisted (allowed : Invocation → Type 0) (w : Pubkey) (l l' : Ledger) : Type 0 where
    pub before : Ledger
    pub after : Ledger
    pub reached : Reach rt allowed (Foreign rt) l before
    pub out : whitelisted_of rt mint before w ≡ false
    pub tx : Invocation
    pub may : allowed tx
    pub call : Instruction
    pub enlists : op_of mint call ≡ some (enlist w)
    pub succeeded : process rt tx call before ≡ ok after
    pub settings : Settings
    pub current : settings_of rt mint before ≡ some settings
    pub signed : tx.is_signer settings.authority ≡ true
    pub listed : whitelisted_of rt mint after w ≡ true
    pub onward : Reach rt allowed (Foreign rt) after l'

  Enlisted-next :
      {allowed : Invocation → Type 0} {l m l' : Ledger} (w : Pubkey)
      → Enlisted allowed w l m
      → Step rt allowed (Foreign rt) m l'
      → Enlisted allowed w l l'
  Enlisted-next w e s = record {
    before = e.before;
    after = e.after;
    reached = e.reached;
    out = e.out;
    tx = e.tx;
    may = e.may;
    call = e.call;
    enlists = e.enlists;
    succeeded = e.succeeded;
    settings = e.settings;
    current = e.current;
    signed = e.signed;
    listed = e.listed;
    onward = next e.onward s;
  }

  -- From a ledger where every config and entry stands in its place: where a wallet was not on the
  -- whitelist and after a run is, some step of that run put it there: before the step it was not
  -- on the whitelist and after it it is, and the step is a successful add_to_whitelist of this mint
  -- and wallet that the authority at that time signed.
  pub Reach-Enlisted :
      {allowed : Invocation → Type 0} {l l' : Ledger} (w : Pubkey)
      → IsSane rt l
      → Reach rt allowed (Foreign rt) l l'
      → whitelisted_of rt mint l w ≡ false
      → whitelisted_of rt mint l' w ≡ true
      → Enlisted allowed w l l'
  Reach-Enlisted w sane here out in_it = absurd (cc (out, in_it))
  Reach-Enlisted {allowed} {l} {l'} w sane (next {m} r (instruction tx i may h)) out in_it =
      elim (Bool-cases (whitelisted_of rt mint m w)) [
        | inl listed ↦ Enlisted-next w (Reach-Enlisted w sane r out listed) (instruction tx i may h)
        | inr out' ↦
            let (there, _, _, _) = Reach-refines rt laws mint sane r in
            let (it, s, current, signed) =
              perform_enlists tx.is_signer (op_of mint i) (registry_of rt mint m)
                (registry_of rt mint l') w (process-refines rt laws mint tx m l' there i h) out'
                in_it in
            record {
              before = m;
              after = l';
              reached = r;
              out = out';
              tx = tx;
              may = may;
              call = i;
              enlists = it;
              succeeded = h;
              settings = s;
              current = current;
              signed = signed;
              listed = in_it;
              onward = here;
            }
      ]
  Reach-Enlisted {allowed} {l} {l'} w sane (next {m} r (elsewhere f)) out in_it =
      let listed = sym (Foreign-whitelisted rt laws mint m l' w f) ∙ in_it in
      Enlisted-next w (Reach-Enlisted w sane r out listed) (elsewhere f)
