-- ===== src/Tests/World.antt =====
-- A small world for the tests: concrete functions in place of the libraries, which meet the laws
-- that the theorems ask for.
pub mod Laws
use solana_sas_extension.Prelude.{
  ℕ, zero, suc, ◌+◌, ◌*◌, false, Bool, Option, none, some, List, [], ◌∷◌, ◌++◌, replicate, map,
  ◌==◌, if◌then◌else◌,
}
use solana_sas_extension.HookError.{external}
use solana_sas_extension.Result.{Result, ok, err}
use solana_sas_extension.Solana.{Pubkey, Bytes, Account, Ledger, update}
use solana_sas_extension.State.{HookConfig, WhitelistEntry}
use solana_sas_extension.Runtime.{Runtime, Mint, TokenAccount, Seed, literal, account_key}
use solana_sas_extension.Addresses.{joined}

abbrev as_ref : Pubkey → Bytes
as_ref k = k ∷ replicate 31 0

-- 2 ^ b * (2 * n + 1)
unfoldable pub shift : ℕ → ℕ → ℕ
shift zero n = 2 * n + 1
shift (suc b) n = 2 * shift b n

-- Different bytes have different digests.
unfoldable pub digest : Bytes → ℕ
unfolding shift
digest [] = 0
digest (b ∷ bs) = shift b (digest bs)

abbrev pub address_of : List Bytes → Pubkey → Pubkey
address_of seeds program = 1000 * digest (joined seeds) + program

abbrev pub read_config : Bytes → Option HookConfig
read_config (d ∷ a ∷ c ∷ s ∷ p ∷ b ∷ q ∷ rest) =
    if d == 1
    then some (record {
      authority = a;
      credential = c;
      schema = s;
      sas_program = p;
      bump = b;
      pending_authority = q;
    })
    else none
read_config _ = none

abbrev pub write_config : HookConfig → Bytes → Option Bytes
write_config k (x₁ ∷ x₂ ∷ x₃ ∷ x₄ ∷ x₅ ∷ x₆ ∷ x₇ ∷ rest) = some (
    1 ∷ k.authority ∷ k.credential ∷ k.schema ∷ k.sas_program ∷ k.bump ∷ k.pending_authority ∷ rest)
write_config k _ = none

abbrev pub read_entry : Bytes → Option WhitelistEntry
read_entry (d ∷ w ∷ b ∷ rest) = if d == 2 then some (record { wallet = w; bump = b }) else none
read_entry _ = none

abbrev pub write_entry : WhitelistEntry → Bytes → Option Bytes
write_entry e (x₁ ∷ x₂ ∷ x₃ ∷ rest) = some (2 ∷ e.wallet ∷ e.bump ∷ rest)
write_entry e _ = none

-- A mint is 9, its authority; a token account is 8, its mint, its owner, the flag.
abbrev read_mint : Bytes → Result Mint
read_mint (d ∷ a ∷ []) = if d == 9 then ok (record { mint_authority = some a }) else err external
read_mint _ = err external

abbrev read_token : Bytes → Result TokenAccount
read_token (d ∷ m ∷ o ∷ f ∷ []) =
    if d == 8
    then ok (record { mint = m; owner = o; delegate = none; delegated_amount = 0 })
    else err external
read_token _ = err external

abbrev flag_of : Bytes → Result Bool
flag_of (d ∷ m ∷ o ∷ f ∷ []) = ok (f == 1)
flag_of _ = err external

abbrev pub new_account : Pubkey → ℕ → Account
new_account owner space = record {
  lamports = 1;
  owner = owner;
  bytes = replicate space 0;
  executable = false;
}

abbrev pub create : Ledger → Pubkey → ℕ → Pubkey → Result Ledger
create l key space owner =
    if (l key).owner == 0 then ok (update l key (new_account owner space)) else err external

abbrev pub fit : ℕ → Bytes → Bytes
fit zero bs = []
fit (suc n) [] = 0 ∷ fit n []
fit (suc n) (b ∷ bs) = b ∷ fit n bs

abbrev pub closed : Account
closed = record { lamports = 0; owner = 0; bytes = []; executable = false }

abbrev pub encode_literal : Bytes → Bytes → Bytes
encode_literal [] rest = 1 ∷ 0 ∷ rest
encode_literal (b ∷ bs) rest = 0 ∷ b ∷ encode_literal bs rest

abbrev pub encode_seeds : List Seed → Bytes
encode_seeds [] = []
encode_seeds (literal b ∷ ss) = encode_literal b (encode_seeds ss)
encode_seeds (account_key i ∷ ss) = 2 ∷ i ∷ encode_seeds ss

abbrev pub world : Runtime
world = record {
  program_id = 7;
  as_ref = as_ref;
  find_program_address = λ seeds program. (address_of (seeds ++ (255 ∷ []) ∷ []) program, 255);
  create_program_address = λ seeds program. some (address_of seeds program);
  read_config = read_config;
  write_config = write_config;
  read_entry = read_entry;
  write_entry = write_entry;
  read_mint = λ a. read_mint a.bytes;
  read_token = λ a. read_token a.bytes;
  transferring = flag_of;
  init_account = λ l payer key space. create l key space 7;
  realloc_account =
      λ l payer key space. ok (update l key (record (l key) { bytes = fit space (l key).bytes }));
  close_account = λ tx l key destination. ok (update l key closed);
  minimum_balance = λ n. ok (2 * n);
  create_account = λ l payer key lamports space owner seeds. create l key space owner;
  new_with_seeds = λ ss s w. ok (1 ∷ encode_seeds ss);
  new_with_pubkey = λ k s w. ok (0 ∷ k ∷ []);
  new_external_pda_with_seeds = λ i ss s w. ok (2 ∷ i ∷ encode_seeds ss);
  size_of = λ n. ok (35 * n + 16);
  init_meta_list = λ blank metas. ok (3 ∷ encode_seeds (map literal metas));
}
