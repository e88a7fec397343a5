-- ===== src/Cli/Printed.antt =====
-- A run of the tool: what it prints, and how it ends.
use Prim.Native.String.{String}
use solana_sas_extension.Prelude.{List, [], ◌∷◌, ◌++◌}
use solana_sas_extension.Result
use solana_sas_extension.Result.{Result, ok, err}

pub record Printed {ℓ} (A : Type ℓ) : Type ℓ where
  -- the texts of the `println!`s, in their order
  pub lines : List String
  pub result : Result A

abbrev pub println : String → Printed {0} Unit
println s = record { lines = s ∷ []; result = ok tt }

module _ {ℓ} {A : Type ℓ} where
  -- a step that prints nothing
  abbrev pub quiet : Result A → Printed A
  quiet r = record { lines = []; result = r }

  abbrev pub done : A → Printed A
  done a = quiet (ok a)

module _ {ℓ κ} {A : Type ℓ} {B : Type κ} where
  abbrev pub lines_after : Result A → (A → Printed B) → List String
  lines_after (err e) next = []
  lines_after (ok a) next = (next a).lines

  infixl 5 ◌>>=◌ ◌>>◌
  -- `?`: a failure ends the run, and what is printed stays printed.
  abbrev pub ◌>>=◌ : Printed A → (A → Printed B) → Printed B
  first >>= next = record {
    lines = first.lines ++ lines_after first.result next;
    result = Result.◌>>=◌ first.result (λ a. (next a).result);
  }

  abbrev pub ◌>>◌ : Printed A → Printed B → Printed B
  ◌>>◌ first second = first >>= λ _. second
