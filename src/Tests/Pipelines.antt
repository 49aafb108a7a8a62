-- ===== src/Tests/Pipelines.antt =====
-- The pipeline of one transaction, with a snapshot source that knows only fresh accounts.
use kaysentinel.Base.{ℕ, ◌≡◌, ◌↔◌, refl, none, some, List, [], ◌∷◌, ok, map}
use kaysentinel.Base.Classes.{Bytes, nat_eq, bytes_eq, bytes_ord, bytes_cmp, bytes_beq}
use kaysentinel.Base.BTreeMap.{BTreeMap, get, insert, update_entry, values, IsSorted, try_collect}
use kaysentinel.Cse.{Address, CanonicalSemanticEvent, begin_transaction, end_transaction}
use kaysentinel.Merkle.{merkle_fold, or_zero_leaf, fold_padded, double_until, pad_to, fold_layers}
use kaysentinel.Builder.Errors.{EventId}
use kaysentinel.Builder.Ir.{
  reduce, reduce_history, reduce_from, RawIr, ReducedIr, record_id, push, CanonicalKey, key_ord,
  key_cmp, ReducedVariant, ReducedTransactionBucket,
}
use kaysentinel.Builder.Partition
use kaysentinel.Builder.Partition.Histories.{record_all}
use kaysentinel.Builder.Partition.Transactions.{Transaction, stream_of, bucket_of}
use kaysentinel.Builder.Reduce
use kaysentinel.Builder.Lifecycle.Certificate
use kaysentinel.Builder.Lifecycle.Certificate.{
  AccountSnapshotSource, CanonicalAccountCertificate, StorageRootState, verified_root,
  awaiting_derivation, build_canonical_certificates,
}
use kaysentinel.Builder.Lifecycle.Certificate.Built.{BuildsAt, build_canonical_certificates-each}
use kaysentinel.Builder.Lifecycle.Certificate.{GenerationResolutionError}
use kaysentinel.Builder.Lifecycle.Certificate.Failures.{
  HasSources, FailsAt, build_canonical_certificates-ok_iff,
}
use kaysentinel.Base.{err}
use kaysentinel.Builder.Lifecycle.StorageRoot.{
  derive, slot_leaves, resolve_storage_roots, note_slots, note_slot, set_roots,
}
use kaysentinel.Verify
use kaysentinel.Verify.{replay_and_verify}
use kaysentinel.Verify.Pipeline.{payloads}
use kaysentinel.Verify.Pipeline.Accepts.{IsReplayable, replay_and_verify-pipeline}
use kaysentinel.Tests.{alice, word, event_at, paid, counted}

abbrev same : Bytes → Bytes
same bytes = bytes

-- Every identity is its first generation, and every account starts empty.
abbrev fresh_source : AccountSnapshotSource
fresh_source = record {
  resolve_identity_generation = λ a.
      ok (record {
        key = record { address = a; generation_id = 0 };
        state_table_proof_root = word 0;
      });
  recover_account_snapshot = λ a. ok (record { nonce = 0; balance = word 0; code_hash = word 0 });
}

-- A transaction that pays and counts.
abbrev first_payment : Transaction
first_payment = record {
  opening = event_at 0 begin_transaction;
  body = event_at 1 (paid 0 2) ∷ event_at 2 (counted 0 1) ∷ [];
  closing = event_at 3 end_transaction;
}

abbrev stream : List CanonicalSemanticEvent
stream = stream_of (first_payment ∷ [])

abbrev raw : RawIr
raw = record { buckets = map bucket_of (first_payment ∷ []) }

abbrev id : ℕ → EventId
id n = record { id = n }

abbrev table : BTreeMap CanonicalKey ReducedVariant
table =
    (
      CanonicalKey.balance alice,
      ReducedVariant.balance
          (record { initial = word 0; terminal = word 2; provenance = (id 1, tt) ∷ [] }),
    )
    ∷ (
      CanonicalKey.nonce alice,
      ReducedVariant.nonce (record { initial = 0; terminal = 1; provenance = (id 2, tt) ∷ [] }),
    )
    ∷ []

abbrev bucket : ReducedTransactionBucket
bucket = record {
  metadata = record {
    chain_id = 1;
    block_number = 7;
    block_hash = word 9;
    transaction_hash = word 8;
    transaction_index = 0;
  };
  state_table = table;
  lifecycle_table = [];
  log_table = [];
  gas_refund = none;
}

abbrev red : ReducedIr
red = record { buckets = bucket ∷ [] }

abbrev certificate_with : StorageRootState → BTreeMap Address CanonicalAccountCertificate
certificate_with root =
    (
      alice,
      record {
        address = alice;
        generation = record {
          key = record { address = alice; generation_id = 0 };
          state_table_proof_root = word 0;
        };
        nonce = 1;
        balance = word 2;
        code_hash = word 0;
        storage_root = root;
      },
    )
    ∷ []

stream_partitions : Partition.process stream ≡ ok raw
unfolding Partition.process Partition.process_from Partition.step Partition.event_id_of record_all
stream_partitions = refl

raw_reduces : Reduce.process raw ≡ ok red
unfolding Reduce.process Reduce.reduce_buckets Reduce.reduce_bucket Reduce.reduce_table
    Reduce.reduce_variant Reduce.reduce_refund reduce reduce_history reduce_from record_id insert
    record_all Partition.record_payload Partition.open_bucket Partition.push_balance
    Partition.push_nonce Partition.event_id_of update_entry push get key_cmp bytes_cmp bytes_beq
raw_reduces = refl

certificates_built :
    build_canonical_certificates fresh_source [] table ≡ ok (certificate_with awaiting_derivation)
unfolding build_canonical_certificates Certificate.gather_builders Certificate.builder_for
    Certificate.generation_of Certificate.resolve_generation_for_address Certificate.with_address
    Certificate.resolve_matches Certificate.set_field Certificate.finish_certificate
    Certificate.recover_fields get insert bytes_cmp try_collect
certificates_built = refl

roots_resolved :
    resolve_storage_roots (certificate_with awaiting_derivation) table (derive same)
    ≡ some (ok (certificate_with (verified_root (word 0))))
unfolding resolve_storage_roots note_slots note_slot set_roots derive slot_leaves merkle_fold
    or_zero_leaf fold_padded double_until pad_to fold_layers get
roots_resolved = refl

table-IsSorted : IsSorted table
unfolding key_cmp
table-IsSorted = ((refl, tt), (tt, tt))

build_canonical_certificates-each_example :
    IsSorted (certificate_with awaiting_derivation)
    × ((a : Address)
        → BuildsAt fresh_source [] table a (get a (certificate_with awaiting_derivation)))
build_canonical_certificates-each_example =
    build_canonical_certificates-each fresh_source [] table (certificate_with awaiting_derivation)
      table-IsSorted (refl, (refl, tt)) certificates_built

replay_and_verify-pipeline_example :
    (replay_and_verify same (record {
      account_certificates = values (certificate_with (verified_root (word 0)));
      execution_traces = payloads stream;
    })
      ≡ some (ok tt))
    ↔ IsReplayable fresh_source stream
replay_and_verify-pipeline_example =
    replay_and_verify-pipeline same fresh_source [] stream raw red bucket
      (certificate_with awaiting_derivation) (certificate_with (verified_root (word 0)))
      stream_partitions raw_reduces refl certificates_built roots_resolved

-- The replay accepts the certificates of this stream, so the stream is replayable.
accepted :
    replay_and_verify same (record {
      account_certificates = values (certificate_with (verified_root (word 0)));
      execution_traces = payloads stream;
    })
    ≡ some (ok tt)
unfolding replay_and_verify Verify.replay_from Verify.replay_payload Verify.mutate Verify.account
    Verify.verify_state Verify.touched_addresses Verify.certified_addresses Verify.difference_errors
    Verify.verify_certificates Verify.verify_certificate Verify.compare_root Verify.field_mismatches
    Verify.mismatch_errors derive slot_leaves merkle_fold or_zero_leaf fold_padded double_until
    pad_to fold_layers get insert bytes_cmp bytes_beq
accepted = refl

build_canonical_certificates-ok_iff_example :
    (((certificates : BTreeMap Address CanonicalAccountCertificate) × (build_canonical_certificates
            fresh_source [] table
          ≡ ok certificates))
      ↔ HasSources fresh_source [] table)
    × ((e : GenerationResolutionError)
        → build_canonical_certificates fresh_source [] table ≡ err e
        → (a : Address) × FailsAt fresh_source [] table e a)
build_canonical_certificates-ok_iff_example =
    build_canonical_certificates-ok_iff fresh_source [] table table-IsSorted (refl, (refl, tt))
