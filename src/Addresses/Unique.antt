-- ===== src/Addresses/Unique.antt =====
-- Derived addresses stand for their seeds: one address, one kind of account, one mint, one wallet.
use solana_sas_extension.Prelude.{
  ℕ, ◌≡◌, ◌≢◌, some, sym, ap, ◌∙◌, List, [], ◌∷◌, ◌++◌, length, arith, length-append, take, drop,
  take-append, drop-append,
}
use solana_sas_extension.Solana.{Pubkey, Bytes}
use solana_sas_extension.Seeds.{config_seeds, meta_list_seeds, whitelist_seeds}
use solana_sas_extension.Runtime.{Runtime}
use solana_sas_extension.Runtime.Laws.{AddressLaws}
use solana_sas_extension.Addresses.{joined, KeyLaws}
use solana_sas_extension.Admin.Checks.{IsDerived, address}

-- Two lists of seeds that derive one address of the program are the same bytes: no two inputs of
-- the hash collide.
pub record HashLaws (rt : Runtime) : Type 0 where
  pub one_preimage :
      (s s' : List Bytes) (k : Pubkey)
      → rt.create_program_address s rt.program_id ≡ some k
      → rt.create_program_address s' rt.program_id ≡ some k
      → joined s ≡ joined s'

-- All that the theorems about addresses rely on.
pub record Derivation (rt : Runtime) : Type 0 where
  pub finds : AddressLaws rt
  pub keys : KeyLaws rt
  pub hashes : HashLaws rt

module _ (rt : Runtime) (d : Derivation rt) where
  pub address-IsDerived :
      (s : List Bytes) → IsDerived rt s (rt.find_program_address s rt.program_id).1 (address rt s)
  address-IsDerived s = d.finds.create-find s rt.program_id

  pub derived_at :
      (s : List Bytes) (k : Pubkey)
      → k ≡ address rt s
      → IsDerived rt s (rt.find_program_address s rt.program_id).1 k
  derived_at s k e = rw e (address-IsDerived s)

  split_key :
      (m m' : Pubkey) (t t' : Bytes) → rt.as_ref m ++ t ≡ rt.as_ref m' ++ t' → (m ≡ m') × (t ≡ t')
  split_key m m' t t' e = (
    d.keys.injective m m' (
        sym (take-append 32 (rt.as_ref m) t (d.keys.width m))
        ∙ ap (λ (b : Bytes). take 32 b) e
        ∙ take-append 32 (rt.as_ref m') t' (d.keys.width m')),
    sym (drop-append 32 (rt.as_ref m) t (d.keys.width m))
        ∙ ap (λ (b : Bytes). drop 32 b) e
        ∙ drop-append 32 (rt.as_ref m') t' (d.keys.width m'),
  )

  pub config_unique :
      (m m' k : Pubkey) (b b' : ℕ)
      → IsDerived rt (config_seeds rt m) b k
      → IsDerived rt (config_seeds rt m') b' k
      → (m ≡ m') × (b ≡ b')
  config_unique m m' k b b' p q =
      let e = ap (λ (x : Bytes). drop 6 x) (d.hashes.one_preimage _ _ k p q) in
      let (same, bumps) = split_key m m' (b ∷ []) (b' ∷ []) e in (same, cc)

  pub list_unique :
      (m m' k : Pubkey) (b b' : ℕ)
      → IsDerived rt (meta_list_seeds rt m) b k
      → IsDerived rt (meta_list_seeds rt m') b' k
      → m ≡ m'
  list_unique m m' k b b' p q =
      let e = ap (λ (x : Bytes). drop 19 x) (d.hashes.one_preimage _ _ k p q) in
      (split_key m m' (b ∷ []) (b' ∷ []) e).0

  pub entry_unique :
      (m m' w w' k : Pubkey) (b b' : ℕ)
      → IsDerived rt (whitelist_seeds rt m w) b k
      → IsDerived rt (whitelist_seeds rt m' w') b' k
      → (m ≡ m') × (w ≡ w') × (b ≡ b')
  entry_unique m m' w w' k b b' p q =
      let e = ap (λ (x : Bytes). drop 9 x) (d.hashes.one_preimage _ _ k p q) in
      let (mints, rest) = split_key m m' (rt.as_ref w ++ (b ∷ [])) (rt.as_ref w' ++ (b' ∷ [])) e in
      let (wallets, bumps) = split_key w w' (b ∷ []) (b' ∷ []) rest in (mints, wallets, cc)

  length-config : (m : Pubkey) (b : ℕ) → length (joined (config_seeds rt m ++ (b ∷ []) ∷ [])) ≡ 39
  length-config m b = omega (arith, d.keys.width m, length-append (rt.as_ref m) (b ∷ []))

  length-list : (m : Pubkey) (b : ℕ) → length (joined (meta_list_seeds rt m ++ (b ∷ []) ∷ [])) ≡ 52
  length-list m b = omega (arith, d.keys.width m, length-append (rt.as_ref m) (b ∷ []))

  length-entry :
      (m w : Pubkey) (b : ℕ) → length (joined (whitelist_seeds rt m w ++ (b ∷ []) ∷ [])) ≡ 74
  length-entry m w b = omega (
    arith,
    d.keys.width m,
    d.keys.width w,
    length-append (rt.as_ref m) (rt.as_ref w ++ (b ∷ [])),
    length-append (rt.as_ref w) (b ∷ []),
  )

  same_length :
      (s s' : List Bytes) (b b' : ℕ) (k : Pubkey)
      → IsDerived rt s b k
      → IsDerived rt s' b' k
      → length (joined (s ++ (b ∷ []) ∷ [])) ≡ length (joined (s' ++ (b' ∷ []) ∷ []))
  same_length s s' b b' k p q = ap (λ (x : Bytes). length x) (d.hashes.one_preimage _ _ k p q)

  pub config_not_list :
      (m m' k : Pubkey) (b b' : ℕ)
      → IsDerived rt (config_seeds rt m) b k
      → ¬ IsDerived rt (meta_list_seeds rt m') b' k
  config_not_list m m' k b b' p q = omega (
    arith,
    length-config m b,
    length-list m' b',
    same_length (config_seeds rt m) (meta_list_seeds rt m') b b' k p q,
  )

  pub config_not_entry :
      (m m' w k : Pubkey) (b b' : ℕ)
      → IsDerived rt (config_seeds rt m) b k
      → ¬ IsDerived rt (whitelist_seeds rt m' w) b' k
  config_not_entry m m' w k b b' p q = omega (
    arith,
    length-config m b,
    length-entry m' w b',
    same_length (config_seeds rt m) (whitelist_seeds rt m' w) b b' k p q,
  )

  pub entry_not_list :
      (m w m' k : Pubkey) (b b' : ℕ)
      → IsDerived rt (whitelist_seeds rt m w) b k
      → ¬ IsDerived rt (meta_list_seeds rt m') b' k
  entry_not_list m w m' k b b' p q = omega (
    arith,
    length-entry m w b,
    length-list m' b',
    same_length (whitelist_seeds rt m w) (meta_list_seeds rt m') b b' k p q,
  )

  -- The same of the addresses that are found.
  pub config_ne_list :
      (m m' j : Pubkey) (b : ℕ)
      → IsDerived rt (config_seeds rt m) b j
      → j ≢ address rt (meta_list_seeds rt m')
  config_ne_list m m' j b p e =
      config_not_list m m' j b _ p (derived_at (meta_list_seeds rt m') j e)

  pub config_ne_entry :
      (m m' w j : Pubkey) (b : ℕ)
      → IsDerived rt (config_seeds rt m) b j
      → j ≢ address rt (whitelist_seeds rt m' w)
  config_ne_entry m m' w j b p e =
      config_not_entry m m' w j b _ p (derived_at (whitelist_seeds rt m' w) j e)

  pub entry_ne_list :
      (m w m' j : Pubkey) (b : ℕ)
      → IsDerived rt (whitelist_seeds rt m w) b j
      → j ≢ address rt (meta_list_seeds rt m')
  entry_ne_list m w m' j b p e =
      entry_not_list m w m' j b _ p (derived_at (meta_list_seeds rt m') j e)
