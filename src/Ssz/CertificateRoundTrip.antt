-- ===== src/Ssz/CertificateRoundTrip.antt =====
-- The certificate's round trip, both ways: 180 bytes, eight fields.
use kaysentinel.Base.{
  ltb, fail_if, ◌>>◌, ℕ, ◌<◌, ◌≡◌, refl, ap, ◌∙◌, ok, arith, length, take, slice, slice-append_skip,
  slice-append_front, slice_all, length-append, take_all, subst,
}
use kaysentinel.Base.Classes.{Bytes}
use kaysentinel.Cse.{u32_mod, u64_mod, Word}
use kaysentinel.Builder.Lifecycle.Certificate.{
  CanonicalAccountCertificate, StorageRootState, verified_root, awaiting_derivation,
}
use kaysentinel.Ssz.Integers.{
  to_le_bytes, from_le_bytes, IsBytes, length-to_le_bytes, from-to_le_bytes,
}
use kaysentinel.Ssz.Encode.{
  encode_certificate_with, encode_root, encode_certificate, certificate_encoded_len,
}
use kaysentinel.Ssz.Decode.{
  truncated, trailing_bytes, read_u32_le, read_certificate, decode_certificate,
}
use kaysentinel.Ssz.RoundTrip.{read_u64_le-to_le_bytes}
use kaysentinel.Ssz.Canonical.{write_u64_slice, write_u32_slice, slice_last, join}

abbrev pub RootWidth : StorageRootState → Type 0
RootWidth (verified_root root) = length root ≡ 32
RootWidth awaiting_derivation = Unit

-- The widths that the Rust types of the fields fix.
pub record IsCertificate (c : CanonicalAccountCertificate) : Type 0 where
  pub address_len : length c.address ≡ 20
  pub generation_address_len : length c.generation.key.address ≡ 20
  pub generation_id_u32 : c.generation.key.generation_id < u32_mod
  pub proof_root_len : length c.generation.state_table_proof_root ≡ 32
  pub nonce_u64 : c.nonce < u64_mod
  pub balance_len : length c.balance ≡ 32
  pub code_hash_len : length c.code_hash ≡ 32
  pub root_len : RootWidth c.storage_root

read_u32_le-to_le_bytes :
    (n : ℕ) (bytes : Bytes) → n < u32_mod → bytes ≡ to_le_bytes 4 n → read_u32_le bytes ≡ n
unfolding read_u32_le
read_u32_le-to_le_bytes n bytes h e =
    ap (λ t. from_le_bytes (take 4 t)) e
    ∙ ap from_le_bytes (take_all 4 (to_le_bytes 4 n) (length-to_le_bytes 4 n))
    ∙ from-to_le_bytes 4 n h

encode_root_ok :
    (c : CanonicalAccountCertificate) (root : StorageRootState) (bytes : Bytes)
    → encode_root c root ≡ ok bytes
    → (r : Word) × (root ≡ verified_root r) × (bytes ≡ encode_certificate_with c r)
unfolding encode_root
encode_root_ok c (verified_root r) bytes h = (r, refl, cc)
encode_root_ok c awaiting_derivation bytes h = cc

module _ (c : CanonicalAccountCertificate) (r : Word) (v : IsCertificate c)
    (root_len : length r ≡ 32) where
  address_at : slice 0 20 (encode_certificate_with c r) ≡ c.address
  unfolding encode_certificate_with
  address_at = slice-append_front 20 _ _ v.address_len

  generation_address_at : slice 20 40 (encode_certificate_with c r) ≡ c.generation.key.address
  unfolding encode_certificate_with
  generation_address_at =
      slice-append_skip 20 0 20 _ _ v.address_len
      ∙ slice-append_front 20 _ _ v.generation_address_len

  generation_id_at :
      slice 40 44 (encode_certificate_with c r) ≡ to_le_bytes 4 c.generation.key.generation_id
  unfolding encode_certificate_with
  generation_id_at =
      slice-append_skip 20 20 24 _ _ v.address_len
      ∙ slice-append_skip 20 0 4 _ _ v.generation_address_len
      ∙ slice-append_front 4 _ _ (length-to_le_bytes 4 c.generation.key.generation_id)

  proof_root_at : slice 44 76 (encode_certificate_with c r) ≡ c.generation.state_table_proof_root
  unfolding encode_certificate_with
  proof_root_at =
      slice-append_skip 20 24 56 _ _ v.address_len
      ∙ slice-append_skip 20 4 36 _ _ v.generation_address_len
      ∙ slice-append_skip 4 0 32 _ _ (length-to_le_bytes 4 c.generation.key.generation_id)
      ∙ slice-append_front 32 _ _ v.proof_root_len

  nonce_at : slice 76 84 (encode_certificate_with c r) ≡ to_le_bytes 8 c.nonce
  unfolding encode_certificate_with
  nonce_at =
      slice-append_skip 20 56 64 _ _ v.address_len
      ∙ slice-append_skip 20 36 44 _ _ v.generation_address_len
      ∙ slice-append_skip 4 32 40 _ _ (length-to_le_bytes 4 c.generation.key.generation_id)
      ∙ slice-append_skip 32 0 8 _ _ v.proof_root_len
      ∙ slice-append_front 8 _ _ (length-to_le_bytes 8 c.nonce)

  balance_at : slice 84 116 (encode_certificate_with c r) ≡ c.balance
  unfolding encode_certificate_with
  balance_at =
      slice-append_skip 20 64 96 _ _ v.address_len
      ∙ slice-append_skip 20 44 76 _ _ v.generation_address_len
      ∙ slice-append_skip 4 40 72 _ _ (length-to_le_bytes 4 c.generation.key.generation_id)
      ∙ slice-append_skip 32 8 40 _ _ v.proof_root_len
      ∙ slice-append_skip 8 0 32 _ _ (length-to_le_bytes 8 c.nonce)
      ∙ slice-append_front 32 _ _ v.balance_len

  code_hash_at : slice 116 148 (encode_certificate_with c r) ≡ c.code_hash
  unfolding encode_certificate_with
  code_hash_at =
      slice-append_skip 20 96 128 _ _ v.address_len
      ∙ slice-append_skip 20 76 108 _ _ v.generation_address_len
      ∙ slice-append_skip 4 72 104 _ _ (length-to_le_bytes 4 c.generation.key.generation_id)
      ∙ slice-append_skip 32 40 72 _ _ v.proof_root_len
      ∙ slice-append_skip 8 32 64 _ _ (length-to_le_bytes 8 c.nonce)
      ∙ slice-append_skip 32 0 32 _ _ v.balance_len
      ∙ slice-append_front 32 _ _ v.code_hash_len

  storage_root_at : slice 148 180 (encode_certificate_with c r) ≡ r
  unfolding encode_certificate_with
  storage_root_at =
      slice-append_skip 20 128 160 _ _ v.address_len
      ∙ slice-append_skip 20 108 140 _ _ v.generation_address_len
      ∙ slice-append_skip 4 104 136 _ _ (length-to_le_bytes 4 c.generation.key.generation_id)
      ∙ slice-append_skip 32 72 104 _ _ v.proof_root_len
      ∙ slice-append_skip 8 64 96 _ _ (length-to_le_bytes 8 c.nonce)
      ∙ slice-append_skip 32 32 64 _ _ v.balance_len
      ∙ slice-append_skip 32 0 32 _ _ v.code_hash_len
      ∙ slice_all 32 _ root_len

  length-encode_with : length (encode_certificate_with c r) ≡ certificate_encoded_len
  unfolding encode_certificate_with
  length-encode_with = omega (
    arith,
    v.address_len,
    v.generation_address_len,
    v.proof_root_len,
    v.balance_len,
    v.code_hash_len,
    root_len,
    length-to_le_bytes 4 c.generation.key.generation_id,
    length-to_le_bytes 8 c.nonce,
    length-append {0} {A = ℕ},
  )

  read-encode_with :
      c.storage_root ≡ verified_root r → read_certificate (encode_certificate_with c r) ≡ c
  unfolding read_certificate
  read-encode_with e = ground (
    arith,
    e,
    address_at,
    generation_address_at,
    read_u32_le-to_le_bytes c.generation.key.generation_id _ v.generation_id_u32 generation_id_at,
    proof_root_at,
    read_u64_le-to_le_bytes c.nonce _ v.nonce_u64 nonce_at,
    balance_at,
    code_hash_at,
    storage_root_at,
  )

  decode-encode_with :
      c.storage_root ≡ verified_root r → decode_certificate (encode_certificate_with c r) ≡ ok c
  unfolding decode_certificate
  decode-encode_with e = ground (arith, length-encode_with, read-encode_with e)

-- Decoding the bytes of a certificate whose fields have their Rust widths gives that certificate
-- back.
pub decode-encode_certificate :
    (c : CanonicalAccountCertificate) (bytes : Bytes)
    → IsCertificate c
    → encode_certificate c ≡ ok bytes
    → decode_certificate bytes ≡ ok c
unfolding encode_certificate
decode-encode_certificate c bytes v h =
    let (r, e, made) = encode_root_ok c c.storage_root bytes h in
    let width : length r ≡ 32 = subst RootWidth e v.root_len in
    ap decode_certificate made ∙ decode-encode_with c r v width e

-- The two length checks let exactly 180 bytes through.
length_checks :
    (n : ℕ) (x c : CanonicalAccountCertificate)
    → (do
      fail_if (ltb n certificate_encoded_len) (truncated certificate_encoded_len n)
      fail_if (ltb certificate_encoded_len n) (trailing_bytes certificate_encoded_len n)
      ok x)
      ≡ ok c
    → (n ≡ 180) × (c ≡ x)
length_checks n x c h = ground arith

certificate_decoded :
    (bytes : Bytes) (c : CanonicalAccountCertificate)
    → decode_certificate bytes ≡ ok c
    → (length bytes ≡ 180) × (c ≡ read_certificate bytes)
unfolding decode_certificate
certificate_decoded bytes c h = length_checks (length bytes) (read_certificate bytes) c h

encode-read :
    (bytes : Bytes)
    → IsBytes bytes
    → length bytes ≡ 180
    → encode_certificate (read_certificate bytes) ≡ ok bytes
unfolding encode_certificate encode_certificate_with read_certificate
encode-read bytes v n = ap ok (
    join 0 20 bytes _ _ (omega arith) refl (
      join 20 40 bytes _ _ (omega arith) refl (
        join 40 44 bytes _ _ (omega arith)
          (write_u32_slice 40 44 bytes v (omega arith) (omega (arith, n)) refl)
          (join 44 76 bytes _ _ (omega arith) refl (
            join 76 84 bytes _ _ (omega arith)
              (write_u64_slice 76 84 bytes v (omega arith) (omega (arith, n)) refl)
              (join 84 116 bytes _ _ (omega arith) refl (
                join 116 148 bytes _ _ (omega arith) refl
                  (slice_last 148 180 bytes (omega arith) n))))))))

-- Bytes that decode to a certificate are the encoding of that certificate: there is no second
-- encoding.
pub encode-decode_certificate :
    (bytes : Bytes) (c : CanonicalAccountCertificate)
    → IsBytes bytes
    → decode_certificate bytes ≡ ok c
    → encode_certificate c ≡ ok bytes
encode-decode_certificate bytes c v h =
    let (n, e) = certificate_decoded bytes c h in ap encode_certificate e ∙ encode-read bytes v n
