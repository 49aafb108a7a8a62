-- ===== src/Tests/Streams.antt =====
-- The theorems on streams, histories and tables, at one transaction.
use kaysentinel.Base.{
  ℕ, ◌≡◌, ◌<◌, ◌↔◌, refl, none, false, List, [], ◌∷◌, ok, err, All, length, arith, map,
}
use kaysentinel.Base.Classes.{nat_eq, bytes_eq, bytes_ord, bytes_cmp, bytes_beq}
use kaysentinel.Base.BTreeMap.{get, insert, update_entry}
use kaysentinel.Cse.{CanonicalSemanticEvent, validate, validate_payload, u64_mod}
use kaysentinel.Cse.Validator
use kaysentinel.Cse.Validator.{CseValidator, validate_stream}
use kaysentinel.Cse.Validator.Laws.{IsSequenced, validate_stream-ok_iff}
use kaysentinel.Cse.Validator.Laws
use kaysentinel.Builder.Errors.{EventId, discontinuous_lineage}
use kaysentinel.Builder.Ir.{
  Timeline, ReducedTransition, reduce, reduce_history, reduce_from, RawIr, ReducedIr, record_id,
  push, event_id_ord,
}
use kaysentinel.Builder.Ir.Lineage.{ReducesTo, FailsWith, reduce-ok_iff, reduce-err}
use kaysentinel.Builder.Partition
use kaysentinel.Builder.Partition.Boundaries.{process-ok_iff, process-validate_stream}
use kaysentinel.Builder.Partition.Histories.{record_all}
use kaysentinel.Builder.Partition.Transactions.{
  Transaction, IsTransaction, stream_of, bucket_of, process-ok,
}
use kaysentinel.Builder.Reduce
use kaysentinel.Builder.Reduce.Pipeline.{Summaries, reduce-partition}
use kaysentinel.Builder.Ir.{CanonicalKey, key_cmp, key_ord, ReducedVariant}
use kaysentinel.Tests.{alice, word, payment}

abbrev stream : List CanonicalSemanticEvent
stream = stream_of (payment ∷ [])

abbrev at_end : CseValidator
at_end = record { expected_sequence = 5; in_transaction = false }

abbrev raw : RawIr
raw = record { buckets = map bucket_of (payment ∷ []) }

abbrev ids : ℕ → EventId
ids n = record { id = n }

abbrev counts : Timeline ℕ
counts = record {
  history =
      record { before = 4; after = 5; event_id = ids 2 }
      ∷ record { before = 5; after = 9; event_id = ids 6 }
      ∷ [];
}

abbrev counted_up : ReducedTransition ℕ
counted_up = record { initial = 4; terminal = 9; provenance = (ids 2, tt) ∷ (ids 6, tt) ∷ [] }

abbrev broken : Timeline ℕ
broken = record {
  history =
      record { before = 4; after = 5; event_id = ids 2 }
      ∷ record { before = 6; after = 9; event_id = ids 6 }
      ∷ [];
}

stream_valid : validate_stream Validator.new stream ≡ ok at_end
unfolding Validator.new validate_stream Validator.validate_and_advance Validator.envelope validate
    validate_payload bytes_beq
stream_valid = refl

stream_partitions : Partition.process stream ≡ ok raw
unfolding Partition.process Partition.process_from Partition.step Partition.event_id_of record_all
stream_partitions = refl

counts-reduce : reduce counts ≡ ok counted_up
unfolding reduce reduce_history reduce_from record_id insert
counts-reduce = refl

broken_fails : reduce broken ≡ err (discontinuous_lineage (ids 2) (ids 6))
unfolding reduce reduce_history reduce_from record_id insert
broken_fails = refl

stream_short : length stream < u64_mod
stream_short = omega arith

abbrev red : ReducedIr
red = record {
  buckets =
      record {
        metadata = record {
          chain_id = 1;
          block_number = 7;
          block_hash = word 9;
          transaction_hash = word 8;
          transaction_index = 0;
        };
        state_table =
            (
              CanonicalKey.balance alice,
              ReducedVariant.balance (record {
                initial = word 1;
                terminal = word 3;
                provenance = (ids 1, tt) ∷ (ids 3, tt) ∷ [];
              }),
            )
            ∷ (
              CanonicalKey.nonce alice,
              ReducedVariant.nonce
                  (record { initial = 4; terminal = 5; provenance = (ids 2, tt) ∷ [] }),
            )
            ∷ [];
        lifecycle_table = [];
        log_table = [];
        gas_refund = none;
      }
      ∷ [];
}

raw_reduces : Reduce.process raw ≡ ok red
unfolding Reduce.process Reduce.reduce_buckets Reduce.reduce_bucket Reduce.reduce_table
    Reduce.reduce_variant Reduce.reduce_refund reduce reduce_history reduce_from record_id insert
    record_all Partition.record_payload Partition.open_bucket Partition.push_balance
    Partition.push_nonce Partition.event_id_of update_entry push get key_cmp bytes_cmp bytes_beq
raw_reduces = refl

validate_stream-ok_iff_example : (validate_stream Validator.new stream ≡ ok at_end) ↔ (
    All (λ e. validate e ≡ ok tt) stream
    × IsSequenced 0 stream
    × Laws.IsBracketed false stream false
    × (5 ≡ length stream))
validate_stream-ok_iff_example = validate_stream-ok_iff stream at_end stream_short

process-validate_stream_example :
    (false ≡ false) ↔ ((r : RawIr) × (Partition.process stream ≡ ok r))
process-validate_stream_example = process-validate_stream stream at_end stream_short stream_valid

process-ok_iff_example :
    ((r : RawIr) × (Partition.process stream ≡ ok r)) ↔ Laws.IsBracketed false stream false
process-ok_iff_example = process-ok_iff stream

process-ok_example :
    (ts : List Transaction) × All IsTransaction ts
    × (stream ≡ stream_of ts)
    × (raw.buckets ≡ map bucket_of ts)
process-ok_example = process-ok stream raw stream_partitions

reduce-partition_example :
    (ts : List Transaction) × All IsTransaction ts
    × (stream ≡ stream_of ts)
    × Summaries ts red.buckets
reduce-partition_example = reduce-partition stream raw red stream_partitions raw_reduces

reduce-ok_iff_example : (reduce counts ≡ ok counted_up) ↔ ReducesTo counts.history counted_up
reduce-ok_iff_example = reduce-ok_iff counts counted_up

reduce-err_example : FailsWith (discontinuous_lineage (ids 2) (ids 6)) broken.history
reduce-err_example = reduce-err broken (discontinuous_lineage (ids 2) (ids 6)) broken_fails
