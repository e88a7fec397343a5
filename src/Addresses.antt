-- ===== src/Addresses.antt =====
-- The seeds of the derived addresses, as the bytes that are hashed: the kinds of account and the
-- keys inside them are kept apart.
pub mod Unique
use solana_sas_extension.Prelude.{
  ◌≡◌, ◌≢◌, sym, ap, ◌∙◌, List, [], ◌∷◌, ◌++◌, length, arith, length-append, take, drop,
  take-append, drop-append, append-nil,
}
use solana_sas_extension.Solana.{Pubkey, Bytes}
use solana_sas_extension.Seeds.{config_seeds, meta_list_seeds, whitelist_seeds}
use solana_sas_extension.Runtime.{Runtime}

-- What the hash of an address reads of the seeds.
abbrev pub joined : List Bytes → Bytes
joined [] = []
joined (s ∷ ss) = s ++ joined ss

-- A key is its 32 bytes.
pub record KeyLaws (rt : Runtime) : Type 0 where
  pub width : (k : Pubkey) → length (rt.as_ref k) ≡ 32
  pub injective : (k j : Pubkey) → rt.as_ref k ≡ rt.as_ref j → k ≡ j

module _ (rt : Runtime) (keys : KeyLaws rt) where
  length-config_seeds : (m : Pubkey) → length (joined (config_seeds rt m)) ≡ 38
  length-config_seeds m = omega (arith, keys.width m, length-append (rt.as_ref m) [])

  length-meta_list_seeds : (m : Pubkey) → length (joined (meta_list_seeds rt m)) ≡ 51
  length-meta_list_seeds m = omega (arith, keys.width m, length-append (rt.as_ref m) [])

  length-whitelist_seeds : (m w : Pubkey) → length (joined (whitelist_seeds rt m w)) ≡ 73
  length-whitelist_seeds m w = omega (
    arith,
    keys.width m,
    keys.width w,
    length-append (rt.as_ref m) (rt.as_ref w ++ []),
    length-append (rt.as_ref w) [],
  )

  split_keys :
      (m w m' w' : Pubkey)
      → rt.as_ref m ++ (rt.as_ref w ++ []) ≡ rt.as_ref m' ++ (rt.as_ref w' ++ [])
      → (m ≡ m') × (w ≡ w')
  split_keys m w m' w' e =
      let heads =
        sym (take-append 32 (rt.as_ref m) (rt.as_ref w ++ []) (keys.width m))
        ∙ ap (λ (b : Bytes). take 32 b) e
        ∙ take-append 32 (rt.as_ref m') (rt.as_ref w' ++ []) (keys.width m') in
      let tails =
        sym (drop-append 32 (rt.as_ref m) (rt.as_ref w ++ []) (keys.width m))
        ∙ ap (λ (b : Bytes). drop 32 b) e
        ∙ drop-append 32 (rt.as_ref m') (rt.as_ref w' ++ []) (keys.width m') in
      (
        keys.injective m m' heads,
        keys.injective w w' (sym (append-nil (rt.as_ref w)) ∙ tails ∙ append-nil (rt.as_ref w')),
      )

  -- Seeds of different kinds, and the whitelist seeds of different mints or wallets, are different
  -- bytes.
  pub seeds_apart :
      (m w m' w' : Pubkey)
      → (joined (config_seeds rt m) ≢ joined (meta_list_seeds rt m'))
        × (joined (config_seeds rt m) ≢ joined (whitelist_seeds rt m' w'))
        × (joined (meta_list_seeds rt m) ≢ joined (whitelist_seeds rt m' w'))
        × (joined (whitelist_seeds rt m w) ≡ joined (whitelist_seeds rt m' w')
            → (m ≡ m') × (w ≡ w'))
  seeds_apart m w m' w' = (
    λ e.
        omega
          (arith, ap (λ (b : Bytes). length b) e, length-config_seeds m, length-meta_list_seeds m'),
    λ e. omega (
      arith,
      ap (λ (b : Bytes). length b) e,
      length-config_seeds m,
      length-whitelist_seeds m' w',
    ),
    λ e. omega (
      arith,
      ap (λ (b : Bytes). length b) e,
      length-meta_list_seeds m,
      length-whitelist_seeds m' w',
    ),
    λ e. split_keys m w m' w' (ap (λ (b : Bytes). drop 9 b) e),
  )
