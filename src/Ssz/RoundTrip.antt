-- ===== src/Ssz/RoundTrip.antt =====
-- Decoding against encoding, for summaries and the bodies of snapshots.
use kaysentinel.Base.{
  ℕ, ◌<◌, ◌≡◌, ap, ◌∙◌, ◌++◌, ok, arith, length, take, slice, slice-append_skip, slice-append_front,
  slice_all, length-append, take_all,
}
use kaysentinel.Base.Classes.{Bytes, nat_eq}
use kaysentinel.Cse.{u64_mod}
use kaysentinel.Ssz.Integers.{
  to_le_bytes, from_le_bytes, IsBytes, length-to_le_bytes, from-to_le_bytes, to-from_le_bytes,
}
use kaysentinel.Ssz.Encode.{CanonicalEventSummary, summary_encoded_len, encode_summary}
use kaysentinel.Ssz.Decode.{read_u64_le, decode_summary}

-- The widths that the Rust types of the fields fix.
pub record IsSummary (s : CanonicalEventSummary) : Type 0 where
  pub timestamp_u64 : s.block_timestamp < u64_mod
  pub nonce_u64 : s.sequence_nonce < u64_mod
  pub address_len : length s.actor_address ≡ 20
  pub digest_len : length s.payload_digest ≡ 32

-- Reading back an integer that was written into a slice of its own.
pub read_u64_le-to_le_bytes :
    (n : ℕ) (bytes : Bytes) → n < u64_mod → bytes ≡ to_le_bytes 8 n → read_u64_le bytes ≡ n
unfolding read_u64_le
read_u64_le-to_le_bytes n bytes h e =
    ap (λ t. from_le_bytes (take 8 t)) e
    ∙ ap from_le_bytes (take_all 8 (to_le_bytes 8 n) (length-to_le_bytes 8 n))
    ∙ from-to_le_bytes 8 n h

-- Writing back an integer that was read from eight bytes.
pub to_le_bytes-read_u64_le :
    (bytes : Bytes) → IsBytes bytes → length bytes ≡ 8 → to_le_bytes 8 (read_u64_le bytes) ≡ bytes
unfolding read_u64_le
to_le_bytes-read_u64_le bytes v h =
    ap (λ t. to_le_bytes 8 (from_le_bytes t)) (take_all 8 bytes h) ∙ to-from_le_bytes 8 bytes v h

pub length-encode_summary :
    (s : CanonicalEventSummary) → IsSummary s → length (encode_summary s) ≡ summary_encoded_len
unfolding encode_summary
length-encode_summary s v = omega (
  arith,
  length-append (to_le_bytes 8 s.block_timestamp)
      (to_le_bytes 8 s.sequence_nonce ++ (s.actor_address ++ s.payload_digest)),
  length-append (to_le_bytes 8 s.sequence_nonce) (s.actor_address ++ s.payload_digest),
  length-append s.actor_address s.payload_digest,
  length-to_le_bytes 8 s.block_timestamp,
  length-to_le_bytes 8 s.sequence_nonce,
  v.address_len,
  v.digest_len,
)

module _ (s : CanonicalEventSummary) (v : IsSummary s) where
  -- Where each field stands in the encoded summary.
  timestamp_at : slice 0 8 (encode_summary s) ≡ to_le_bytes 8 s.block_timestamp
  unfolding encode_summary
  timestamp_at = slice-append_front 8 _ _ (length-to_le_bytes 8 s.block_timestamp)

  nonce_at : slice 8 16 (encode_summary s) ≡ to_le_bytes 8 s.sequence_nonce
  unfolding encode_summary
  nonce_at =
      slice-append_skip 8 0 8 _ _ (length-to_le_bytes 8 s.block_timestamp)
      ∙ slice-append_front 8 _ _ (length-to_le_bytes 8 s.sequence_nonce)

  address_at : slice 16 36 (encode_summary s) ≡ s.actor_address
  unfolding encode_summary
  address_at =
      slice-append_skip 8 8 28 _ _ (length-to_le_bytes 8 s.block_timestamp)
      ∙ slice-append_skip 8 0 20 _ _ (length-to_le_bytes 8 s.sequence_nonce)
      ∙ slice-append_front 20 _ _ v.address_len

  digest_at : slice 36 68 (encode_summary s) ≡ s.payload_digest
  unfolding encode_summary
  digest_at =
      slice-append_skip 8 28 60 _ _ (length-to_le_bytes 8 s.block_timestamp)
      ∙ slice-append_skip 8 20 52 _ _ (length-to_le_bytes 8 s.sequence_nonce)
      ∙ slice-append_skip 20 0 32 _ _ v.address_len
      ∙ slice_all 32 _ v.digest_len

  -- Decoding the bytes of an event summary whose fields have their Rust widths gives that summary
  -- back.
  pub decode-encode_summary : decode_summary (encode_summary s) ≡ ok s
  unfolding decode_summary
  decode-encode_summary = ground (
    arith,
    length-encode_summary s v,
    read_u64_le-to_le_bytes s.block_timestamp _ v.timestamp_u64 timestamp_at,
    read_u64_le-to_le_bytes s.sequence_nonce _ v.nonce_u64 nonce_at,
    address_at,
    digest_at,
  )
