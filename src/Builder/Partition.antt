-- ===== src/Builder/Partition.antt =====
-- runtime/builder/src/partition.rs: the validated events, cut into transactions and spread over the
-- tables of each.
pub mod Boundaries
pub mod Histories
pub mod Recording
pub mod Slots
pub mod Tables
pub mod Transactions
use kaysentinel.Base.{◌≡◌, Option, none, some, List, [], ◌∷◌, ◌++◌, Result, ok, err, ◌>>=◌, ok_or}
use kaysentinel.Base.Classes.{bytes_ord}
use kaysentinel.Base.BTreeMap.{update_entry, unwrap_or}
use kaysentinel.Cse.{
  ExecutionContext, CsePayload, begin_transaction, end_transaction, balance_changed,
  storage_slot_updated, transient_storage_updated, nonce_updated, contract_created, code_updated,
  contract_destroyed, log_emitted, gas_refund_changed, access_list_touched, CanonicalSemanticEvent,
  BalanceChanged, NonceUpdated, CodeUpdated, StorageSlotUpdated, TransientStorageUpdated,
}
use kaysentinel.Builder.Errors.{
  EventId, BuilderError, event_outside_transaction, unexpected_transaction_boundary,
  duplicate_transaction_boundary,
}
use kaysentinel.Builder.Ir.{
  CanonicalKey, key_ord, TraceProvenance, Timeline, new_timeline, push, created, destroyed,
  TransactionBucket, TimelineVariant, RawIr,
}

-- A field without a source is 0.
unfoldable pub trace_provenance_from : ExecutionContext → TraceProvenance
trace_provenance_from ctx = record {
  trace_ordinal = ctx.normative.sequence_number;
  tx_index = ctx.provisional.transaction_index;
  frame_id = ctx.trace.call_frame_id;
  call_depth = ctx.trace.call_depth;
  frame_ordinal = 0;
}

-- The bucket that `BeginTransaction` opens.
unfoldable pub open_bucket : ExecutionContext → TransactionBucket
open_bucket ctx = record {
  metadata = record {
    chain_id = ctx.provisional.chain_id;
    block_number = ctx.provisional.block_number;
    block_hash = ctx.provisional.block_hash;
    transaction_hash = ctx.provisional.transaction_hash;
    transaction_index = ctx.provisional.transaction_index;
  };
  state_tables = [];
  lifecycle_table = [];
  log_table = [];
  gas_refund_timeline = none;
}

-- `if let TimelineVariant::X(tl) = entry { tl.push(...) }`, for each X.
unfoldable pub push_balance : EventId → BalanceChanged → TimelineVariant → TimelineVariant
push_balance id p (TimelineVariant.balance tl) =
    TimelineVariant.balance (push p.previous_balance p.current_balance id tl)
push_balance id p entry = entry

unfoldable pub push_nonce : EventId → NonceUpdated → TimelineVariant → TimelineVariant
push_nonce id p (TimelineVariant.nonce tl) =
    TimelineVariant.nonce (push p.previous_nonce p.current_nonce id tl)
push_nonce id p entry = entry

unfoldable pub push_code : EventId → CodeUpdated → TimelineVariant → TimelineVariant
push_code id p (TimelineVariant.code tl) =
    TimelineVariant.code (push p.previous_code_hash p.current_code_hash id tl)
push_code id p entry = entry

unfoldable pub push_storage : EventId → StorageSlotUpdated → TimelineVariant → TimelineVariant
push_storage id p (TimelineVariant.storage tl) =
    TimelineVariant.storage (push p.previous_value p.current_value id tl)
push_storage id p entry = entry

unfoldable pub push_transient :
    EventId → TransientStorageUpdated → TimelineVariant → TimelineVariant
push_transient id p (TimelineVariant.transient tl) =
    TimelineVariant.transient (push p.previous_value p.current_value id tl)
push_transient id p entry = entry

-- `match other_payload`: an event inside a transaction. The boundary events are the source's
-- `unreachable!()`; `step` never passes them.
unfoldable pub record_payload :
    ExecutionContext → EventId → CsePayload → TransactionBucket → TransactionBucket
unfolding push_balance push_nonce push_code push_storage push_transient trace_provenance_from
record_payload ctx id (balance_changed p) b = record b {
  state_tables =
      update_entry (CanonicalKey.balance p.address) (TimelineVariant.balance new_timeline)
        (push_balance id p) b.state_tables;
}
record_payload ctx id (nonce_updated p) b = record b {
  state_tables =
      update_entry (CanonicalKey.nonce p.address) (TimelineVariant.nonce new_timeline)
        (push_nonce id p) b.state_tables;
}
record_payload ctx id (code_updated p) b = record b {
  state_tables =
      update_entry (CanonicalKey.code p.address) (TimelineVariant.code new_timeline)
        (push_code id p) b.state_tables;
}
record_payload ctx id (storage_slot_updated p) b = record b {
  state_tables =
      update_entry (CanonicalKey.storage p.address p.slot) (TimelineVariant.storage new_timeline)
        (push_storage id p) b.state_tables;
}
record_payload ctx id (transient_storage_updated p) b = record b {
  state_tables =
      update_entry (CanonicalKey.transient p.address p.slot)
        (TimelineVariant.transient new_timeline) (push_transient id p) b.state_tables;
}
record_payload ctx id (contract_created p) b = record b {
  lifecycle_table =
      update_entry p.address []
        (λ os.
          os
          ++ record {
            payload = created p;
            event_id = id;
            trace_provenance = trace_provenance_from ctx;
          }
            ∷ [])
        b.lifecycle_table;
}
record_payload ctx id (contract_destroyed p) b = record b {
  lifecycle_table =
      update_entry p.address []
        (λ os.
          os
          ++ record {
            payload = destroyed p;
            event_id = id;
            trace_provenance = trace_provenance_from ctx;
          }
            ∷ [])
        b.lifecycle_table;
}
record_payload ctx id (log_emitted p) b = record b {
  log_table =
      update_entry p.address [] (λ os. os ++ record { payload = p; event_id = id } ∷ [])
        b.log_table;
}
record_payload ctx id (gas_refund_changed p) b = record b {
  gas_refund_timeline =
      some
        (push p.previous_refund p.current_refund id (unwrap_or new_timeline b.gas_refund_timeline));
}
record_payload ctx id (access_list_touched p) b = b
record_payload ctx id begin_transaction b = b
record_payload ctx id end_transaction b = b

-- The two variables that the loop changes.
pub record Partitioning : Type 0 where
  pub finished : List TransactionBucket
  pub current_bucket : Option TransactionBucket

unfoldable pub event_id_of : CanonicalSemanticEvent → EventId
event_id_of e = record { id = e.context.normative.sequence_number }

-- One round of the loop, by the payload and the open bucket.
unfoldable pub step :
    Partitioning → ExecutionContext → EventId → CsePayload → Result BuilderError Partitioning
step s ctx id begin_transaction = elim s.current_bucket [
  | some b ↦ err duplicate_transaction_boundary
  | none ↦ ok (record s { current_bucket = some (open_bucket ctx) })
]
step s ctx id end_transaction = do
  bucket ← ok_or s.current_bucket unexpected_transaction_boundary
  ok (record { finished = s.finished ++ bucket ∷ []; current_bucket = none })
step s ctx id payload = do
  bucket ← ok_or s.current_bucket event_outside_transaction
  ok (record s { current_bucket = some (record_payload ctx id payload bucket) })

unfoldable pub process_from : Partitioning → List CanonicalSemanticEvent → Result BuilderError RawIr
process_from s [] = elim s.current_bucket [
  | some b ↦ err unexpected_transaction_boundary
  | none ↦ ok (record { buckets = s.finished })
]
process_from s (e ∷ es) = do s' ← step s e.context (event_id_of e) e.payload; process_from s' es

unfoldable pub process : List CanonicalSemanticEvent → Result BuilderError RawIr
unfolding process_from step event_id_of
process events = process_from (record { finished = []; current_bucket = none }) events
