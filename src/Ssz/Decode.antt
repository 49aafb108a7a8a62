-- ===== src/Ssz/Decode.antt =====
-- runtime/ssz/src/decode.rs: the decoders, which refuse what no encoder writes.
use kaysentinel.Base.{
  ℕ, zero, suc, ◌/◌, ◌%◌, not, List, [], ◌∷◌, Result, ok, ◌>>=◌, ◌>>◌, fail_if, length, take, drop,
  slice, ltb,
}
use kaysentinel.Base.Classes.{Bytes, ◌==◌, nat_eq}
use kaysentinel.Builder.Lifecycle.Certificate.{CanonicalAccountCertificate, verified_root}
use kaysentinel.Ssz.Integers.{from_le_bytes}
use kaysentinel.Ssz.Encode.{
  CanonicalEventSummary, summary_encoded_len, EpochStateSnapshot, fixed_header_len,
  max_event_summaries, certificate_encoded_len,
}

pub data SszDecodeError : Type 0 where
  truncated : ℕ → ℕ → SszDecodeError
  trailing_bytes : ℕ → ℕ → SszDecodeError
  invalid_offset : ℕ → ℕ → SszDecodeError
  misaligned_list : ℕ → ℕ → SszDecodeError
  list_too_long : ℕ → ℕ → SszDecodeError

unfoldable pub read_u64_le : Bytes → ℕ
read_u64_le bytes = from_le_bytes (take 8 bytes)

unfoldable pub read_u32_le : Bytes → ℕ
read_u32_le bytes = from_le_bytes (take 4 bytes)

unfoldable pub decode_summary : Bytes → Result SszDecodeError CanonicalEventSummary
decode_summary bytes = do
  fail_if (ltb (length bytes) summary_encoded_len) (truncated summary_encoded_len (length bytes))
  fail_if (ltb summary_encoded_len (length bytes))
      (trailing_bytes summary_encoded_len (length bytes))
  ok (record {
    block_timestamp = read_u64_le (slice 0 8 bytes);
    sequence_nonce = read_u64_le (slice 8 16 bytes);
    actor_address = slice 16 36 bytes;
    payload_digest = slice 36 68 bytes;
  })

-- `for chunk in body.chunks_exact(elem)`, for the number of chunks that the body has.
unfoldable pub decode_chunks : ℕ → Bytes → Result SszDecodeError (List CanonicalEventSummary)
decode_chunks zero body = ok []
decode_chunks (suc count) body = do
  s ← decode_summary (take summary_encoded_len body)
  ss ← decode_chunks count (drop summary_encoded_len body)
  ok (s ∷ ss)

unfoldable pub decode_snapshot : Bytes → Result SszDecodeError EpochStateSnapshot
decode_snapshot bytes = do
  fail_if (ltb (length bytes) fixed_header_len) (truncated fixed_header_len (length bytes))
  let offset = read_u32_le (slice 8 12 bytes)
  fail_if (not (offset == fixed_header_len)) (invalid_offset fixed_header_len offset)
  let body = drop fixed_header_len bytes
  fail_if (not (length body % summary_encoded_len == 0))
      (misaligned_list (length body) summary_encoded_len)
  let count = length body / summary_encoded_len
  fail_if (ltb max_event_summaries count) (list_too_long max_event_summaries count)
  event_summaries ← decode_chunks count body
  ok (record { epoch_index = read_u64_le (slice 0 8 bytes); event_summaries = event_summaries })

-- The certificate in a string of exactly 180 bytes.
unfoldable pub read_certificate : Bytes → CanonicalAccountCertificate
read_certificate bytes = record {
  address = slice 0 20 bytes;
  generation = record {
    key = record { address = slice 20 40 bytes; generation_id = read_u32_le (slice 40 44 bytes) };
    state_table_proof_root = slice 44 76 bytes;
  };
  nonce = read_u64_le (slice 76 84 bytes);
  balance = slice 84 116 bytes;
  code_hash = slice 116 148 bytes;
  storage_root = verified_root (slice 148 180 bytes);
}

unfoldable pub decode_certificate : Bytes → Result SszDecodeError CanonicalAccountCertificate
unfolding read_certificate
decode_certificate bytes = do
  fail_if (ltb (length bytes) certificate_encoded_len)
      (truncated certificate_encoded_len (length bytes))
  fail_if (ltb certificate_encoded_len (length bytes))
      (trailing_bytes certificate_encoded_len (length bytes))
  ok (read_certificate bytes)
