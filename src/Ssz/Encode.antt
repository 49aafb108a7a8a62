-- ===== src/Ssz/Encode.antt =====
-- runtime/ssz/src/lib.rs and certificate.rs: the canonical wire encoding.
use kaysentinel.Base.{ℕ, List, [], ◌∷◌, ◌++◌, Result, ok, err, ◌>>=◌, length, ltb, if◌then◌else◌}
use kaysentinel.Base.Classes.{Bytes}
use kaysentinel.Cse.{Address, Word}
use kaysentinel.Builder.Lifecycle.Certificate.{
  CanonicalAccountCertificate, StorageRootState, verified_root, awaiting_derivation,
}
use kaysentinel.Hash.{Digest, life_cert, derive_commitment}
use kaysentinel.Ssz.Integers.{to_le_bytes}

abbrev pub max_event_summaries : ℕ
max_event_summaries = 16384

pub data SszError : Type 0 where
  list_too_long : ℕ → ℕ → SszError
  unresolved_storage_root : SszError

pub record CanonicalEventSummary : Type 0 where
  pub block_timestamp : ℕ
  pub sequence_nonce : ℕ
  pub actor_address : Address
  pub payload_digest : Word

-- `CanonicalEventSummary::ENCODED_LEN`
abbrev pub summary_encoded_len : ℕ
summary_encoded_len = 68

unfoldable pub encode_summary : CanonicalEventSummary → Bytes
encode_summary s =
    to_le_bytes 8 s.block_timestamp
    ++ (to_le_bytes 8 s.sequence_nonce ++ (s.actor_address ++ s.payload_digest))

pub record EpochStateSnapshot : Type 0 where
  pub epoch_index : ℕ
  pub event_summaries : List CanonicalEventSummary

-- `EpochStateSnapshot::FIXED_HEADER_LEN`
abbrev pub fixed_header_len : ℕ
fixed_header_len = 12

-- The loop that appends the encoded elements.
unfoldable pub encode_summaries : List CanonicalEventSummary → Bytes
encode_summaries [] = []
encode_summaries (s ∷ ss) = encode_summary s ++ encode_summaries ss

unfoldable pub encode_snapshot : EpochStateSnapshot → Result SszError Bytes
encode_snapshot s =
    if ltb max_event_summaries (length s.event_summaries)
    then err (list_too_long max_event_summaries (length s.event_summaries))
    else ok (
        to_le_bytes 8 s.epoch_index
        ++ (to_le_bytes 4 fixed_header_len ++ encode_summaries s.event_summaries))

-- `CERTIFICATE_ENCODED_LEN`
abbrev pub certificate_encoded_len : ℕ
certificate_encoded_len = 180

-- The writes into the 180-byte array, one behind the other, once the storage root is known.
unfoldable pub encode_certificate_with : CanonicalAccountCertificate → Word → Bytes
encode_certificate_with c storage_root =
    c.address
    ++ (c.generation.key.address
        ++ (to_le_bytes 4 c.generation.key.generation_id
            ++ (c.generation.state_table_proof_root
                ++ (to_le_bytes 8 c.nonce ++ (c.balance ++ (c.code_hash ++ storage_root))))))

unfoldable pub encode_root : CanonicalAccountCertificate → StorageRootState → Result SszError Bytes
encode_root c (verified_root root) = ok (encode_certificate_with c root)
encode_root c awaiting_derivation = err unresolved_storage_root

-- `SszEncodeCertificate::ssz_encode`
unfoldable pub encode_certificate : CanonicalAccountCertificate → Result SszError Bytes
unfolding encode_root
encode_certificate c = encode_root c c.storage_root

-- `SszEncodeCertificate::commit_root`
unfoldable pub commit_root : (Bytes → Bytes) → CanonicalAccountCertificate → Result SszError Digest
commit_root blake3 c = do
  bytes ← encode_certificate c
  ok (derive_commitment blake3 life_cert bytes)
