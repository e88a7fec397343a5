-- ===== src/Attestation/Format.antt =====
-- The checks accept the documented layout: what an account with the fields of an `Attestation`
-- makes the program read.
use solana_sas_extension.Prelude.{◌+◌, ◌≡◌, ◌++◌, length, arith, append_assoc, length-append}
use solana_sas_extension.Result.{ok}
use solana_sas_extension.Solana.{Bytes}
use solana_sas_extension.Seeds.{attestation_discriminator}
use solana_sas_extension.Attestation.{index, slice, read_data_len, read_expiry, base_offset}
use solana_sas_extension.Attestation.Words.{
  to_le_bytes, from_le_bytes, pattern64, signed64, length-to_le_bytes, from_le_bytes-to_le_bytes,
  signed64-pattern64, pattern64-lt,
}
use solana_sas_extension.Attestation.Layout.{Attestation, IsWellFormed, header, encode}
use solana_sas_extension.Attestation.Access.{index-zero, add_usize-eq-ok, slice-append}

module _ (a : Attestation) (rest : Bytes) (wf : IsWellFormed a) where
  length-header : length (header a) ≡ 97
  length-header = omega (
    arith,
    wf.nonce,
    wf.credential,
    wf.schema,
    length-append a.nonce (a.credential ++ a.schema),
    length-append a.credential a.schema,
  )

  -- Everything before the expiry.
  abbrev prefix : Bytes
  prefix = header a ++ (to_le_bytes 4 (length a.payload) ++ (a.payload ++ a.signer))

  length-prefix : length prefix ≡ 133 + length a.payload
  length-prefix = omega (
    arith,
    length-header,
    wf.signer,
    length-to_le_bytes 4 (length a.payload),
    length-append (header a) (to_le_bytes 4 (length a.payload) ++ (a.payload ++ a.signer)),
    length-append (to_le_bytes 4 (length a.payload)) (a.payload ++ a.signer),
    length-append a.payload a.signer,
  )

  encode-eq-prefix : encode a rest ≡ prefix ++ (to_le_bytes 8 (pattern64 a.expiry) ++ rest)
  unfolding encode
  encode-eq-prefix = simp append_assoc

  length-encode : length (encode a rest) ≡ 141 + length a.payload + length rest
  length-encode = rw encode-eq-prefix (
      omega (
        arith,
        length-prefix,
        length-to_le_bytes 8 (pattern64 a.expiry),
        length-append prefix (to_le_bytes 8 (pattern64 a.expiry) ++ rest),
        length-append (to_le_bytes 8 (pattern64 a.expiry)) rest,
      ))

  index-encode : index (encode a rest) 0 ≡ ok attestation_discriminator
  unfolding encode
  index-encode = index-zero attestation_discriminator _

  slice-encode_len :
      slice (encode a rest) base_offset (base_offset + 4) ≡ ok (to_le_bytes 4 (length a.payload))
  unfolding encode
  slice-encode_len =
      slice-append (header a) (to_le_bytes 4 (length a.payload)) _ 97 101 length-header
        (omega (arith, length-to_le_bytes 4 (length a.payload)))

  slice-encode_expiry :
      slice (encode a rest) (133 + length a.payload) (141 + length a.payload)
      ≡ ok (to_le_bytes 8 (pattern64 a.expiry))
  slice-encode_expiry = rw encode-eq-prefix (
      slice-append prefix (to_le_bytes 8 (pattern64 a.expiry)) rest _ _ length-prefix
        (omega (arith, length-to_le_bytes 8 (pattern64 a.expiry))))

  read_data_len-encode : read_data_len (encode a rest) ≡ ok (length a.payload)
  unfolding read_data_len
  read_data_len-encode = ground (
    arith,
    length-encode,
    index-encode,
    slice-encode_len,
    wf.payload,
    from_le_bytes-to_le_bytes 4 (length a.payload),
  )

  expiry_pattern :
      let w = from_le_bytes (to_le_bytes 8 (pattern64 a.expiry)) in signed64 w ≡ a.expiry
  expiry_pattern =
      rw (from_le_bytes-to_le_bytes 8 (pattern64 a.expiry) (pattern64-lt a.expiry wf.expiry))
        (signed64-pattern64 a.expiry wf.expiry)

  -- Whatever the other fields hold, and whatever follows, the expiry is what is read.
  pub read_expiry-encode : read_expiry (encode a rest) ≡ ok a.expiry
  unfolding read_expiry
  read_expiry-encode = ground (
    arith,
    read_data_len-encode,
    length-encode,
    slice-encode_expiry,
    wf.payload,
    expiry_pattern,
    add_usize-eq-ok 101 (length a.payload),
    add_usize-eq-ok (101 + length a.payload) 32,
    add_usize-eq-ok (101 + length a.payload + 32) 8,
  )
