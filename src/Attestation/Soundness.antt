-- ===== src/Attestation/Soundness.antt =====
-- What the checks accept has the documented layout: its bytes are the encoding of an attestation,
-- with something behind it.
use solana_sas_extension.Prelude.{
  ℕ, ◌+◌, ◌^◌, ◌≤◌, ◌<◌, ◌≡◌, sym, ap, [], ◌∷◌, take, drop, length, arith, append_assoc,
  length-take, length-drop, cut, inl, inr,
}
use solana_sas_extension.Prelude.Int.{ℤ}
use solana_sas_extension.Result.{ok, Result-cases}
use solana_sas_extension.Solana.{Bytes}
use solana_sas_extension.Attestation.{index, slice, add_usize, read_data_len, read_expiry}
use solana_sas_extension.Attestation.Words.{
  AreBytes, to_le_bytes, from_le_bytes, pattern64, signed64, to_le_bytes-from_le_bytes,
  from_le_bytes-lt, AreBytes-take, AreBytes-drop, pattern64-signed64, IsI64-signed64,
}
use solana_sas_extension.Attestation.Layout.{Attestation, IsWellFormed, encode}

-- A read of the length succeeds only where these hold.
pub read_data_len-inv :
    (d : Bytes) (n : ℕ)
    → read_data_len d ≡ ok n
    → (index d 0 ≡ ok 2) × (101 ≤ length d) × (n ≡ from_le_bytes (take 4 (drop 97 d)))
unfolding read_data_len slice
read_data_len-inv d n h = ground arith

pub read_expiry-inv :
    (d : Bytes) (z : ℤ)
    → read_expiry d ≡ ok z
    → (n : ℕ) × (read_data_len d ≡ ok n)
      × (n + 141 ≤ length d)
      × (z ≡ signed64 (from_le_bytes (take 8 (drop (n + 133) d))))
unfolding read_expiry slice add_usize
read_expiry-inv d z h = elim (Result-cases (read_data_len d)) [
  | inl (e, p) ↦ absurd (ground arith)
  | inr (n, p) ↦ (n, p, ground arith, ground arith)
]

-- The fields at their offsets, for a data field of `n` bytes.
abbrev decode : ℕ → Bytes → Attestation
decode n d = record {
  nonce = take 32 (drop 1 d);
  credential = take 32 (drop 33 d);
  schema = take 32 (drop 65 d);
  payload = take n (drop 101 d);
  signer = take 32 (drop (n + 101) d);
  expiry = signed64 (from_le_bytes (take 8 (drop (n + 133) d)));
}

length-piece : (a b : ℕ) (d : Bytes) → a + b ≤ length d → length (take b (drop a d)) ≡ b
length-piece a b d h = length-take b (drop a d) (omega (arith, length-drop a d))

-- A slice of `b` bytes is a number below 256 ^ b.
pub word-lt :
    (d : Bytes) (a b : ℕ)
    → AreBytes d
    → a + b ≤ length d
    → from_le_bytes (take b (drop a d)) < 256 ^ b
word-lt d a b are h =
    rw (length-piece a b d h) at
      (from_le_bytes-lt (take b (drop a d)) (AreBytes-take b (drop a d) (AreBytes-drop a d are)))

first_byte : (d : Bytes) → index d 0 ≡ ok 2 → 2 ∷ drop 1 d ≡ d
unfolding index
first_byte [] h = absurd (ground arith)
first_byte (x ∷ d) h = ap (λ (b : ℕ). b ∷ d) {x = 2} {y = x} (ground arith)

module _ (d : Bytes) (n : ℕ) (are : AreBytes d) (fits : n + 141 ≤ length d) where
  -- A slice of the data is what encodes the number read from it.
  reencode :
      (a b : ℕ)
      → a + b ≤ length d
      → to_le_bytes b (from_le_bytes (take b (drop a d))) ≡ take b (drop a d)
  reencode a b h = rw (length-piece a b d h) at (
      to_le_bytes-from_le_bytes (take b (drop a d))
        (AreBytes-take b (drop a d) (AreBytes-drop a d are)))

  module _ (len : n ≡ from_le_bytes (take 4 (drop 97 d))) where
    decode-IsWellFormed : IsWellFormed (decode n d)
    decode-IsWellFormed = record {
      nonce = length-piece 1 32 d (omega arith);
      credential = length-piece 33 32 d (omega arith);
      schema = length-piece 65 32 d (omega arith);
      payload = omega (arith, length-piece 101 n d, word-lt d 97 4 are (omega arith));
      signer = length-piece (n + 101) 32 d (omega arith);
      expiry = IsI64-signed64 _ (word-lt d (n + 133) 8 are (omega arith));
    }

    len_bytes : to_le_bytes 4 (length (take n (drop 101 d))) ≡ take 4 (drop 97 d)
    len_bytes = rw (length-piece 101 n d (omega arith), len) (reencode 97 4 (omega arith))

    expiry_bytes : to_le_bytes 8 (pattern64 (decode n d).expiry) ≡ take 8 (drop (n + 133) d)
    expiry_bytes =
        rw (pattern64-signed64 _ (word-lt d (n + 133) 8 are (omega arith)))
          (reencode (n + 133) 8 (omega arith))

    encode-decode : index d 0 ≡ ok 2 → encode (decode n d) (drop (n + 141) d) ≡ d
    unfolding encode
    encode-decode first =
        simp (len_bytes, expiry_bytes, append_assoc)
          (rw
            (
              cut (n + 133) 8 (n + 141) d (omega arith),
              cut (n + 101) 32 (n + 133) d (omega arith),
              cut 101 n (n + 101) d (omega arith),
              cut 97 4 101 d (omega arith),
              cut 65 32 97 d (omega arith),
              cut 33 32 65 d (omega arith),
              cut 1 32 33 d (omega arith),
            )
            (first_byte d first))

-- Data whose expiry is read is the encoding of a well-formed attestation with that expiry.
pub read_expiry_sound :
    (d : Bytes) (z : ℤ)
    → AreBytes d
    → read_expiry d ≡ ok z
    → (a : Attestation) × (rest : Bytes) × IsWellFormed a × (d ≡ encode a rest) × (a.expiry ≡ z)
read_expiry_sound d z are h =
    let (n, hn, fits, hz) = read_expiry-inv d z h in
    let (first, _, len) = read_data_len-inv d n hn in
    (
      decode n d,
      drop (n + 141) d,
      decode-IsWellFormed d n are fits len,
      sym (encode-decode d n are fits len first),
      sym hz,
    )
