-- ===== src/Tests/World/Laws.antt =====
-- The small world meets the laws of the libraries.
use solana_sas_extension.Prelude.{
  List, ap₂, ℕ, zero, suc, ◌≤◌, ◌≡◌, ◌≢◌, refl, ap, none, some, [], ◌∷◌, length, replicate, map,
  sym, ◌∙◌, inl, inr, Bool-cases, arith, ◌==◌,
}
use solana_sas_extension.Result.{ok}
use solana_sas_extension.Solana.{Pubkey, Bytes, Account, Ledger, update, update_self, update_ne}
use solana_sas_extension.State.{HookConfig, WhitelistEntry, hook_config_len, whitelist_entry_len}
use solana_sas_extension.Runtime.Laws.{AddressLaws, CodecLaws, AccountLaws, Unchanged}
use solana_sas_extension.Addresses.{joined, KeyLaws}
use solana_sas_extension.Addresses.Unique.{Derivation}
use solana_sas_extension.Registry.Sane.{Laws}
use solana_sas_extension.Runtime.{ExtraAccountMeta, literal}
use solana_sas_extension.Tests.World.{
  write_config, read_config, write_entry, read_entry, create, new_account, fit, closed, world,
  shift, digest, encode_seeds, address_of,
}

shift_injective : (a x b y : ℕ) → shift a x ≡ shift b y → (a ≡ b) × (x ≡ y)
unfolding shift
shift_injective zero x zero y e = omega arith
shift_injective zero x (suc b) y e = absurd (omega arith)
shift_injective (suc a) x zero y e = absurd (omega arith)
shift_injective (suc a) x (suc b) y e =
    let (same, rest) = shift_injective a x b y (omega arith) in (ap suc same, rest)

shift-ne-zero : (a x : ℕ) → shift a x ≢ 0
unfolding shift
shift-ne-zero zero x e = omega arith
shift-ne-zero (suc a) x e = shift-ne-zero a x (omega arith)

digest_injective : (b c : Bytes) → digest b ≡ digest c → b ≡ c
unfolding digest
digest_injective [] [] e = refl
digest_injective [] (y ∷ c) e = absurd (shift-ne-zero y (digest c) (sym e))
digest_injective (x ∷ b) [] e = absurd (shift-ne-zero x (digest b) e)
digest_injective (x ∷ b) (y ∷ c) e =
    let (heads, rest) = shift_injective x (digest b) y (digest c) e in
    ap₂ ◌∷◌ heads (digest_injective b c rest)

pub world_addresses : AddressLaws world
world_addresses = record { create-find = λ seeds program. refl }

pub world_keys : KeyLaws world
world_keys = record { width = λ k. refl; injective = λ k j e. cc }

one_preimage :
    (s s' : List Bytes) (k : Pubkey)
    → world.create_program_address s 7 ≡ some k
    → world.create_program_address s' 7 ≡ some k
    → joined s ≡ joined s'
one_preimage s s' k p q =
    let first : address_of s 7 ≡ k = cc p in
    let second : address_of s' 7 ≡ k = cc q in digest_injective (joined s) (joined s') (omega arith)

pub world-Derivation : Derivation world
world-Derivation = record {
  finds = world_addresses;
  keys = world_keys;
  hashes = record { one_preimage = one_preimage };
}

config_fits : (c : HookConfig) (b : Bytes) → hook_config_len ≤ length b → write_config c b ≢ none
config_fits c (x₁ ∷ x₂ ∷ x₃ ∷ x₄ ∷ x₅ ∷ x₆ ∷ x₇ ∷ rest) h e = cc
config_fits c _ h e = absurd (omega arith)

config_back :
    (c : HookConfig) (b b' : Bytes)
    → write_config c b ≡ some b'
    → (read_config b' ≡ some c) × (length b' ≡ length b)
config_back c (x₁ ∷ x₂ ∷ x₃ ∷ x₄ ∷ x₅ ∷ x₆ ∷ x₇ ∷ rest) b' e = ground arith
config_back c _ b' e = absurd (cc e)

entry_fits :
    (c : WhitelistEntry) (b : Bytes) → whitelist_entry_len ≤ length b → write_entry c b ≢ none
entry_fits c (x₁ ∷ x₂ ∷ x₃ ∷ rest) h e = cc
entry_fits c _ h e = absurd (omega arith)

entry_back :
    (c : WhitelistEntry) (b b' : Bytes)
    → write_entry c b ≡ some b'
    → (read_entry b' ≡ some c) × (length b' ≡ length b)
entry_back c (x₁ ∷ x₂ ∷ x₃ ∷ rest) b' e = ground arith
entry_back c _ b' e = absurd (cc e)

config_not_entry : (b : Bytes) (c : HookConfig) → read_config b ≡ some c → read_entry b ≡ none
config_not_entry (x₁ ∷ x₂ ∷ x₃ ∷ x₄ ∷ x₅ ∷ x₆ ∷ x₇ ∷ rest) c e = ground arith
config_not_entry _ c e = absurd (cc e)

pub world_codec : CodecLaws world
world_codec = record {
  config_fits = config_fits;
  config_back = config_back;
  entry_fits = entry_fits;
  entry_back = entry_back;
  config_not_entry = config_not_entry;
}

returned : (l m : Ledger) → ok m ≡ ok l → l ≡ m
returned l m h = sym (cc h)

create_inv :
    (l l' : Ledger) (key : Pubkey) (space : ℕ) (owner : Pubkey)
    → create l key space owner ≡ ok l'
    → ((l key).owner ≡ 0) × (l' ≡ update l key (new_account owner space))
create_inv l l' key space owner h = elim (Bool-cases ((l key).owner == 0)) [
  | inl free ↦ let made = rw free at h in (ground arith, sym (cc made))
  | inr taken ↦ absurd (cc (rw taken at h))
]

module _ (l l' : Ledger) (key : Pubkey) (a : Account) (e : l' ≡ update l key a) where
  after_self : l' key ≡ a
  after_self = ap (λ (m : Ledger). m key) e ∙ update_self l key a

  after_ne : (k : Pubkey) → k ≢ key → Unchanged l l' k
  after_ne k ne =
      let same = ap (λ (m : Ledger). m k) e ∙ update_ne l key k a ne in rw same (refl, refl)

length-fit : (n : ℕ) (b : Bytes) → length (fit n b) ≡ n
length-fit zero b = refl
length-fit (suc n) [] = ap suc (length-fit n [])
length-fit (suc n) (x ∷ b) = ap suc (length-fit n b)

created_fields :
    (l l' : Ledger) (key : Pubkey) (space : ℕ) (owner : Pubkey)
    → create l key space owner ≡ ok l'
    → ((l' key).owner ≡ owner) × ((l' key).bytes ≡ replicate space 0)
created_fields l l' key space owner h =
    rw (after_self l l' key _ (create_inv l l' key space owner h).1) (refl, refl)

pub world_accounts : AccountLaws world
world_accounts = record {
  program_ne_system = omega arith;
  init_old = λ l l' payer key space h. (create_inv l l' key space 7 h).0;
  init_new = λ l l' payer key space h. created_fields l l' key space 7 h;
  init_other =
      λ l l' payer key k space h ne. after_ne l l' key _ (create_inv l l' key space 7 h).1 k ne;
  create_old = λ l l' payer key lamports space owner seeds h. (create_inv l l' key space owner h).0;
  create_new = λ l l' payer key lamports space owner seeds h. created_fields l l' key space owner h;
  create_other = λ l l' payer key k lamports space owner seeds h ne.
      after_ne l l' key _ (create_inv l l' key space owner h).1 k ne;
  realloc_owner = λ l l' payer key space h. rw (after_self l l' key _ (returned _ _ h));
  realloc_length = λ l l' payer key space h.
      rw (after_self l l' key _ (returned _ _ h)) (length-fit space (l key).bytes);
  realloc_other = λ l l' payer key k space h ne. after_ne l l' key _ (returned _ _ h) k ne;
  close_closed =
      λ tx l l' key destination h. rw (after_self l l' key closed (returned _ _ h)) (refl, refl);
  close_other = λ tx l l' key destination k h ne. after_ne l l' key closed (returned _ _ h) k ne;
}

three_config : (r : Bytes) → read_config (3 ∷ r) ≡ none
three_config (a ∷ c ∷ s ∷ p ∷ b ∷ q ∷ rest) = refl
three_config _ = refl

three_entry : (r : Bytes) → read_entry (3 ∷ r) ≡ none
three_entry (w ∷ b ∷ rest) = refl
three_entry _ = refl

zero_config : (r : Bytes) → read_config (0 ∷ r) ≡ none
zero_config (a ∷ c ∷ s ∷ p ∷ b ∷ q ∷ rest) = refl
zero_config _ = refl

zero_entry : (r : Bytes) → read_entry (0 ∷ r) ≡ none
zero_entry (w ∷ b ∷ rest) = refl
zero_entry _ = refl

no_account_type :
    (blank b : Bytes) (metas : List ExtraAccountMeta)
    → (read_config blank ≡ none) × (read_entry blank ≡ none)
    → world.init_meta_list blank metas ≡ ok b
    → (read_config b ≡ none) × (read_entry b ≡ none)
no_account_type blank b metas neither h =
    let written = encode_seeds (map literal metas) in
    let made : b ≡ 3 ∷ written = cc h in rw made (three_config written, three_entry written)

no_zero_type : (n : ℕ) → (read_config (replicate n 0) ≡ none) × (read_entry (replicate n 0) ≡ none)
no_zero_type zero = (refl, refl)
no_zero_type (suc n) = (zero_config (replicate n 0), zero_entry (replicate n 0))

pub world_laws : Laws world
world_laws = record {
  derivation = world-Derivation;
  codec = world_codec;
  accounts = world_accounts;
  metas = record { no_account_type = no_account_type; no_zero_type = no_zero_type };
}
