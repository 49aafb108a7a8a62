-- ===== src/Builder/Ir/Tables.antt =====
-- The tables of runtime/builder/src/ir/timeline.rs and ir/reduced.rs.
use kaysentinel.Base.{ℕ, Option, List}
use kaysentinel.Base.BTreeMap.{BTreeMap}
use kaysentinel.Cse.{Address, Word, ContractCreated, ContractDestroyed, LogEmitted}
use kaysentinel.Builder.Errors.{EventId}
use kaysentinel.Builder.Ir.Keys.{CanonicalKey}
use kaysentinel.Builder.Ir.Histories.{TraceProvenance, Timeline, ReducedTransition}

pub data CseLifecyclePayload : Type 0 where
  created : ContractCreated → CseLifecyclePayload
  destroyed : ContractDestroyed → CseLifecyclePayload

pub record ObservedLifecycle : Type 0 where
  pub payload : CseLifecyclePayload
  pub event_id : EventId
  pub trace_provenance : TraceProvenance

pub record ObservedLog : Type 0 where
  pub payload : LogEmitted
  pub event_id : EventId

pub record TransactionMetadata : Type 0 where
  pub chain_id : ℕ
  pub block_number : ℕ
  pub block_hash : Word
  pub transaction_hash : Word
  pub transaction_index : ℕ

pub data TimelineVariant : Type 0 where
  balance : Timeline Word → TimelineVariant
  nonce : Timeline ℕ → TimelineVariant
  code : Timeline Word → TimelineVariant
  storage : Timeline Word → TimelineVariant
  transient : Timeline Word → TimelineVariant

pub record TransactionBucket : Type 0 where
  pub metadata : TransactionMetadata
  pub state_tables : BTreeMap CanonicalKey TimelineVariant
  pub lifecycle_table : BTreeMap Address (List ObservedLifecycle)
  pub log_table : BTreeMap Address (List ObservedLog)
  pub gas_refund_timeline : Option (Timeline ℕ)

-- `RawIr(Vec<TransactionBucket>)`
pub record RawIr : Type 0 where
  pub buckets : List TransactionBucket

pub data ReducedVariant : Type 0 where
  balance : ReducedTransition Word → ReducedVariant
  nonce : ReducedTransition ℕ → ReducedVariant
  code : ReducedTransition Word → ReducedVariant
  storage : ReducedTransition Word → ReducedVariant
  transient : ReducedTransition Word → ReducedVariant

pub record ReducedTransactionBucket : Type 0 where
  pub metadata : TransactionMetadata
  pub state_table : BTreeMap CanonicalKey ReducedVariant
  pub lifecycle_table : BTreeMap Address (List ObservedLifecycle)
  pub log_table : BTreeMap Address (List ObservedLog)
  pub gas_refund : Option (ReducedTransition ℕ)

-- `ReducedIr(Vec<ReducedTransactionBucket>)`
pub record ReducedIr : Type 0 where
  pub buckets : List ReducedTransactionBucket
