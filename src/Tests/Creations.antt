-- ===== src/Tests/Creations.antt =====
-- The lifecycle pass, at a transaction that creates, destroys and creates again an account.
use kaysentinel.Base.{◌≡◌, refl, false, none, List, [], ◌∷◌, ok, All, map, arith}
use kaysentinel.Base.Classes.{bytes_beq, bytes_ord}
use kaysentinel.Cse.{
  CanonicalSemanticEvent, begin_transaction, end_transaction, contract_created, contract_destroyed,
  validate, validate_payload,
}
use kaysentinel.Cse.Validator
use kaysentinel.Cse.Validator.{CseValidator, validate_stream}
use kaysentinel.Builder.Ir.{RawIr, ReducedIr, ReducedTransactionBucket}
use kaysentinel.Builder.Partition
use kaysentinel.Builder.Partition.Histories.{record_all}
use kaysentinel.Builder.Partition.Transactions.{Transaction, IsTransaction, stream_of, bucket_of}
use kaysentinel.Builder.Reduce
use kaysentinel.Builder.Lifecycle.Process.{process}
use kaysentinel.Builder.Lifecycle.Process.Streams.{Reports, process-report}
use kaysentinel.Tests.{alice, event_at}

abbrev rebirth : Transaction
rebirth = record {
  opening = event_at 0 begin_transaction;
  body =
      event_at 1 (contract_created (record { address = alice; creator = alice }))
      ∷ event_at 2 (contract_destroyed (record { address = alice; refund_target = alice }))
      ∷ event_at 3 (contract_created (record { address = alice; creator = alice }))
      ∷ [];
  closing = event_at 4 end_transaction;
}

abbrev stream : List CanonicalSemanticEvent
stream = stream_of (rebirth ∷ [])

abbrev raw : RawIr
raw = record { buckets = map bucket_of (rebirth ∷ []) }

abbrev reduced : ReducedTransactionBucket
reduced = record {
  metadata = (bucket_of rebirth).metadata;
  state_table = [];
  lifecycle_table = (bucket_of rebirth).lifecycle_table;
  log_table = [];
  gas_refund = none;
}

abbrev red : ReducedIr
red = record { buckets = reduced ∷ [] }

abbrev at_end : CseValidator
at_end = record { expected_sequence = 5; in_transaction = false }

stream_valid : validate_stream Validator.new stream ≡ ok at_end
unfolding Validator.new validate_stream Validator.validate_and_advance Validator.envelope validate
    validate_payload bytes_beq
stream_valid = refl

stream_partitions : Partition.process stream ≡ ok raw
unfolding Partition.process Partition.process_from Partition.step Partition.event_id_of record_all
stream_partitions = refl

raw_reduces : Reduce.process raw ≡ ok red
unfolding Reduce.process Reduce.reduce_buckets Reduce.reduce_bucket Reduce.reduce_table
    Reduce.reduce_refund record_all Partition.record_payload Partition.open_bucket
raw_reduces = refl

process-report_example :
    (ts : List Transaction) × All IsTransaction ts
    × (stream ≡ stream_of ts)
    × Reports [] ts (process red [])
process-report_example =
    process-report [] stream at_end raw red (omega arith) stream_valid stream_partitions raw_reduces
