-- ===== src/History.antt =====
-- Histories of the ledger: runs of the program's instructions by anyone, between writes of other
-- programs.
pub mod Effects
pub mod Evolution
pub mod Frozen
pub mod Guarded
pub mod InStep
pub mod Lasting
use solana_sas_extension.Prelude.{◌≡◌, false}
use solana_sas_extension.Result.{ok}
use solana_sas_extension.Solana.{Pubkey, Ledger, Invocation}
use solana_sas_extension.Runtime.{Runtime}
use solana_sas_extension.Runtime.Laws.{Unchanged}
use solana_sas_extension.Program.{Instruction, process}

-- A step: an instruction of the program that succeeds, in an invocation of the kind that is
-- allowed, or a change of the ledger by other programs, of the kind that they can make.
pub data Step (rt : Runtime) (allowed : Invocation → Type 0) (other : Ledger → Ledger → Type 0)
    (l l' : Ledger) : Type 0 where
  instruction :
      (tx : Invocation) (i : Instruction)
      → allowed tx
      → process rt tx i l ≡ ok l'
      → Step rt allowed other l l'
  elsewhere : other l l' → Step rt allowed other l l'

pub data Reach (rt : Runtime) (allowed : Invocation → Type 0) (other : Ledger → Ledger → Type 0)
    (l : Ledger) : Ledger → Type 0 where
  here : Reach rt allowed other l l
  next :
      {m n : Ledger}
      → Reach rt allowed other l m
      → Step rt allowed other m n
      → Reach rt allowed other l n

-- The key signs nothing.
abbrev pub Silent : Pubkey → Invocation → Type 0
Silent key tx = tx.is_signer key ≡ false

-- Any invocation at all.
abbrev pub Anyone : Invocation → Type 0
Anyone tx = Unit

-- Only the owner of an account writes its data or gives it away.
abbrev pub Keeps : Runtime → Ledger → Ledger → Type 0
Keeps rt l l' = (k : Pubkey) → (l k).owner ≡ rt.program_id → Unchanged l l' k
