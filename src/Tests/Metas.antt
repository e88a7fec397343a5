-- ===== src/Tests/Metas.antt =====
-- Resolving the metas of the small world.
use solana_sas_extension.Prelude.{
  zero, suc, ◌≡◌, refl, ap, ◌∙◌, Option, none, some, List, [], ◌∷◌, ◌++◌, append_assoc, append-nil,
  map,
}
use solana_sas_extension.Result.{ok}
use solana_sas_extension.Solana.{Pubkey, Bytes}
use solana_sas_extension.Runtime.{Seed, literal, account_key, ExtraAccountMeta}
use solana_sas_extension.Resolution.{ResolveLaws, UnpackLaws, seeds_bytes, get_elem?}
use solana_sas_extension.Tests.World.{world, encode_seeds, encode_literal, address_of}

abbrev decode_seeds : Bytes → Bytes → List Seed
decode_seeds acc [] = []
decode_seeds acc (t ∷ []) = []
decode_seeds acc (zero ∷ v ∷ rest) = decode_seeds (acc ++ v ∷ []) rest
decode_seeds acc (suc zero ∷ v ∷ rest) = literal acc ∷ decode_seeds [] rest
decode_seeds acc (suc (suc t) ∷ v ∷ rest) = account_key v ∷ decode_seeds [] rest

decode_literal :
    (b acc rest : Bytes)
    → decode_seeds acc (encode_literal b rest) ≡ literal (acc ++ b) ∷ decode_seeds [] rest
decode_literal [] acc rest = rw append-nil
decode_literal (x ∷ b) acc rest =
    decode_literal b (acc ++ x ∷ []) rest
    ∙ ap (λ (a : Bytes). literal a ∷ decode_seeds [] rest) (append_assoc acc (x ∷ []) b)

decode_encode : (ss : List Seed) → decode_seeds [] (encode_seeds ss) ≡ ss
decode_encode [] = refl
decode_encode (literal b ∷ ss) =
    decode_literal b [] (encode_seeds ss) ∙ ap (λ (r : List Seed). literal b ∷ r) (decode_encode ss)
decode_encode (account_key i ∷ ss) = ap (λ (r : List Seed). account_key i ∷ r) (decode_encode ss)

abbrev derive : Option (List Bytes) → Option Pubkey → Option Pubkey
derive none program = none
derive (some bs) none = none
derive (some bs) (some program) = some (address_of (bs ++ (255 ∷ []) ∷ []) program)

abbrev pub resolve : ExtraAccountMeta → List Pubkey → Option Pubkey
resolve (zero ∷ k ∷ rest) known = some k
resolve (suc zero ∷ rest) known = derive (seeds_bytes world (decode_seeds [] rest) known) (some 7)
resolve (suc (suc t) ∷ i ∷ rest) known =
    derive (seeds_bytes world (decode_seeds [] rest) known) (get_elem? known i)
resolve _ known = none

resolve_seeds :
    (ss : List Seed) (m : ExtraAccountMeta) (known : List Pubkey) (bs : List Bytes)
    → ok (1 ∷ encode_seeds ss) ≡ ok m
    → seeds_bytes world ss known ≡ some bs
    → resolve m known ≡ some (address_of (bs ++ (255 ∷ []) ∷ []) 7)
resolve_seeds ss m known bs h e =
    let made : m ≡ 1 ∷ encode_seeds ss = cc in rw (made, decode_encode ss, e)

pub world_metas : ResolveLaws world resolve
world_metas = record {
  pubkey = λ k s w m known h. let made : m ≡ 0 ∷ k ∷ [] = cc in rw made;
  seeds = λ ss s w m known bs h e. resolve_seeds ss m known bs h e;
  external_seeds = λ i ss s w m known program bs h p e.
      let made : m ≡ 2 ∷ i ∷ encode_seeds ss = cc in rw (made, decode_encode ss, e, p);
}

-- A list of metas stands behind a 3, each meta like a literal seed.
abbrev literals : List Seed → List Bytes
literals [] = []
literals (literal b ∷ ss) = b ∷ literals ss
literals (account_key i ∷ ss) = literals ss

literals-map : (metas : List ExtraAccountMeta) → literals (map literal metas) ≡ metas
literals-map [] = refl
literals-map (m ∷ ms) = ap (λ (r : List Bytes). m ∷ r) (literals-map ms)

abbrev pub unpack : Bytes → List ExtraAccountMeta
unpack [] = []
unpack (x ∷ b) = literals (decode_seeds [] b)

pub world_unpack : UnpackLaws world unpack
world_unpack = record {
  unpack-init = λ blank b metas h.
      let made : b ≡ 3 ∷ encode_seeds (map literal metas) = cc h in
      rw (made, decode_encode (map literal metas)) (literals-map metas);
}
