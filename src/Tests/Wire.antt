-- ===== src/Tests/Wire.antt =====
-- The theorems on commitments and on the wire format, at sample objects.
use kaysentinel.Base.{
  ℕ, ◌⊎◌, ◌+◌, ◌*◌, Bool, true, ◌&&◌, ltb, ◌≡◌, ◌≤◌, ◌<◌, refl, some, [], ◌∷◌, ◌++◌, ok, arith,
  replicate,
}
use kaysentinel.Base.Classes.{Bytes}
use kaysentinel.Ssz.Merkle
use kaysentinel.Hash.{ssr_root}
use kaysentinel.Hash.Separation.{hash_input-injective}
use kaysentinel.Merkle.{double_until, merkle_fold, or_zero_leaf}
use kaysentinel.Merkle.Root.{merkle_fold-root, double_until-least, depth, pow2, node, leaf_at}
use kaysentinel.Builder.Lifecycle.Certificate.{CanonicalAccountCertificate, verified_root}
use kaysentinel.Ssz.Integers.{IsBytes, to_le_bytes}
use kaysentinel.Ssz.Encode.{
  CanonicalEventSummary, encode_summary, encode_summaries, encode_root, EpochStateSnapshot,
  encode_snapshot, encode_certificate, encode_certificate_with,
}
use kaysentinel.Ssz.Decode.{decode_snapshot, decode_certificate}
use kaysentinel.Ssz.RoundTrip.{IsSummary}
use kaysentinel.Ssz.Snapshot.{IsSnapshot, decode-encode_snapshot}
use kaysentinel.Ssz.Canonical.{encode-decode_snapshot}
use kaysentinel.Ssz.CertificateRoundTrip.{
  IsCertificate, decode-encode_certificate, encode-decode_certificate,
}
use kaysentinel.Ssz.Merkle.{chunkify, commit_certificate_batch}
use kaysentinel.Ssz.Merkle.Chunks.{IsChunking, chunkify-IsChunking}
use kaysentinel.Ssz.Merkle.Batch.{
  chunk_tree_root, ssr_root-root, batch_chunks, batch_root, commit_certificate_batch-eq,
}
use kaysentinel.Tests.{alice, word}

-- A hash for the tests: it keeps its input.
abbrev same : Bytes → Bytes
same bytes = bytes

-- Whether all numbers are bytes, as a test.
abbrev are_bytes : Bytes → Bool
are_bytes [] = true
are_bytes (b ∷ bs) = ltb b 256 && are_bytes bs

all_bytes : (bs : Bytes) → are_bytes bs ≡ true → IsBytes bs
all_bytes [] h = tt
all_bytes (b ∷ bs) h = (ground arith, all_bytes bs (ground arith))

abbrev summary : CanonicalEventSummary
summary = record {
  block_timestamp = 700;
  sequence_nonce = 3;
  actor_address = alice;
  payload_digest = word 5;
}

summary_valid : IsSummary summary
summary_valid = record {
  timestamp_u64 = omega arith;
  nonce_u64 = omega arith;
  address_len = refl;
  digest_len = refl;
}

abbrev snapshot : EpochStateSnapshot
snapshot = record { epoch_index = 12; event_summaries = summary ∷ [] }

abbrev snapshot_bytes : Bytes
snapshot_bytes =
    (12 ∷ replicate 7 0)
    ++ ((12 ∷ replicate 3 0)
        ++ ((188 ∷ 2 ∷ replicate 6 0) ++ ((3 ∷ replicate 7 0) ++ (alice ++ word 5))))

abbrev certificate : CanonicalAccountCertificate
certificate = record {
  address = alice;
  generation = record {
    key = record { address = alice; generation_id = 1 };
    state_table_proof_root = word 0;
  };
  nonce = 258;
  balance = word 3;
  code_hash = word 4;
  storage_root = verified_root (word 6);
}

abbrev certificate_bytes : Bytes
certificate_bytes =
    alice
    ++ (alice
        ++ ((1 ∷ replicate 3 0)
            ++ (word 0 ++ ((2 ∷ 1 ∷ replicate 6 0) ++ (word 3 ++ (word 4 ++ word 6))))))

snapshot_valid : IsSnapshot snapshot
snapshot_valid = record { epoch_u64 = omega arith; summaries = (summary_valid, tt) }

snapshot_encodes : encode_snapshot snapshot ≡ ok snapshot_bytes
unfolding encode_snapshot encode_summaries encode_summary to_le_bytes
snapshot_encodes = refl

snapshot_decodes : decode_snapshot snapshot_bytes ≡ ok snapshot
snapshot_decodes = decode-encode_snapshot snapshot snapshot_bytes snapshot_valid snapshot_encodes

snapshot_bytes_valid : IsBytes snapshot_bytes
snapshot_bytes_valid = all_bytes snapshot_bytes refl

certificate_valid : IsCertificate certificate
certificate_valid = record {
  address_len = refl;
  generation_address_len = refl;
  generation_id_u32 = omega arith;
  proof_root_len = refl;
  nonce_u64 = omega arith;
  balance_len = refl;
  code_hash_len = refl;
  root_len = refl;
}

certificate_encodes : encode_certificate certificate ≡ ok certificate_bytes
unfolding encode_certificate encode_certificate_with encode_root to_le_bytes
certificate_encodes = refl

certificate_decodes : decode_certificate certificate_bytes ≡ ok certificate
certificate_decodes =
    decode-encode_certificate certificate certificate_bytes certificate_valid certificate_encodes

hash_input-injective_example : (ssr_root ≡ ssr_root) × (word 1 ≡ word 1)
hash_input-injective_example = hash_input-injective ssr_root ssr_root (word 1) (word 1) refl

decode-encode_snapshot_example : decode_snapshot snapshot_bytes ≡ ok snapshot
decode-encode_snapshot_example =
    decode-encode_snapshot snapshot snapshot_bytes snapshot_valid snapshot_encodes

encode-decode_snapshot_example : encode_snapshot snapshot ≡ ok snapshot_bytes
encode-decode_snapshot_example =
    encode-decode_snapshot snapshot_bytes snapshot snapshot_bytes_valid snapshot_decodes

decode-encode_certificate_example : decode_certificate certificate_bytes ≡ ok certificate
decode-encode_certificate_example =
    decode-encode_certificate certificate certificate_bytes certificate_valid certificate_encodes

encode-decode_certificate_example : encode_certificate certificate ≡ ok certificate_bytes
encode-decode_certificate_example =
    encode-decode_certificate certificate_bytes certificate (all_bytes certificate_bytes refl)
      certificate_decodes

merkle_fold-root_example :
    merkle_fold (λ a b. a + 2 * b) 0 (3 ∷ 5 ∷ 7 ∷ [])
    ≡ some (node (λ a b. a + 2 * b) (leaf_at 0 (3 ∷ 5 ∷ 7 ∷ [])) (depth 3) 0)
unfolding or_zero_leaf
merkle_fold-root_example = merkle_fold-root (λ a b. a + 2 * b) 0 (3 ∷ 5 ∷ 7 ∷ [])

double_until-least_example :
    (d : ℕ) × (double_until 6 5 1 ≡ pow2 d)
    × (5 ≤ double_until 6 5 1)
    × (double_until 6 5 1 < 2 * 5)
    × ((pow2 2 < 5) ⊎ (double_until 6 5 1 ≤ pow2 2))
double_until-least_example = double_until-least 6 5 2 (omega arith) (omega arith)

chunkify-IsChunking_example : IsChunking snapshot_bytes (chunkify snapshot_bytes)
chunkify-IsChunking_example = chunkify-IsChunking snapshot_bytes (omega arith)

ssr_root-root_example :
    Merkle.ssr_root same snapshot_bytes ≡ some (chunk_tree_root same (chunkify snapshot_bytes))
ssr_root-root_example = ssr_root-root same snapshot_bytes

commit_certificate_batch-eq_example :
    commit_certificate_batch same ((alice, certificate) ∷ [])
    ≡ some (batch_root same (batch_chunks (certificate ∷ [])))
commit_certificate_batch-eq_example = commit_certificate_batch-eq same ((alice, certificate) ∷ [])
