-- ===== src/Builder/Reduce.antt =====
-- runtime/builder/src/reduce.rs: every timeline of the raw tables, reduced to one transition.
pub mod Tables
pub mod Pipeline
use kaysentinel.Base.{ℕ, Option, none, some, List, [], ◌∷◌, ◌++◌, Result, ok, err, ◌>>=◌, map_err}
use kaysentinel.Base.Classes.{nat_eq, bytes_eq}
use kaysentinel.Base.BTreeMap.{BTreeMap, insert}
use kaysentinel.Builder.Errors.{TimelineError, BuilderError, timeline_failure}
use kaysentinel.Builder.Ir.{
  CanonicalKey, key_ord, Timeline, ReducedTransition, reduce, TransactionBucket, TimelineVariant,
  RawIr, ReducedVariant, ReducedTransactionBucket, ReducedIr,
}

unfoldable pub reduce_variant : TimelineVariant → Result TimelineError ReducedVariant
reduce_variant (TimelineVariant.balance tl) = do t ← reduce tl; ok (ReducedVariant.balance t)
reduce_variant (TimelineVariant.nonce tl) = do t ← reduce tl; ok (ReducedVariant.nonce t)
reduce_variant (TimelineVariant.code tl) = do t ← reduce tl; ok (ReducedVariant.code t)
reduce_variant (TimelineVariant.storage tl) = do t ← reduce tl; ok (ReducedVariant.storage t)
reduce_variant (TimelineVariant.transient tl) = do t ← reduce tl; ok (ReducedVariant.transient t)

-- The loop over one state table.
unfoldable pub reduce_table :
    BTreeMap CanonicalKey ReducedVariant
    → BTreeMap CanonicalKey TimelineVariant
    → Result TimelineError (BTreeMap CanonicalKey ReducedVariant)
reduce_table table [] = ok table
reduce_table table ((key, timeline) ∷ rest) = do
  reduced ← reduce_variant timeline
  reduce_table (insert key reduced table) rest

-- `.map(|t| t.reduce()).transpose()`
unfoldable pub reduce_refund :
    Option (Timeline ℕ) → Result TimelineError (Option (ReducedTransition ℕ))
reduce_refund none = ok none
reduce_refund (some t) = do r ← reduce t; ok (some r)

unfoldable pub reduce_bucket : TransactionBucket → Result TimelineError ReducedTransactionBucket
reduce_bucket b = do
  table ← reduce_table [] b.state_tables
  gas_refund ← reduce_refund b.gas_refund_timeline
  ok (record {
    metadata = b.metadata;
    state_table = table;
    lifecycle_table = b.lifecycle_table;
    log_table = b.log_table;
    gas_refund = gas_refund;
  })

-- The loop over the buckets.
unfoldable pub reduce_buckets :
    List ReducedTransactionBucket
    → List TransactionBucket
    → Result TimelineError (List ReducedTransactionBucket)
reduce_buckets reduced [] = ok reduced
reduce_buckets reduced (b ∷ bs) = do r ← reduce_bucket b; reduce_buckets (reduced ++ r ∷ []) bs

unfoldable pub process : RawIr → Result BuilderError ReducedIr
unfolding reduce_buckets reduce_bucket reduce_table reduce_variant reduce_refund
process raw_ir = do
  buckets ← map_err timeline_failure (reduce_buckets [] raw_ir.buckets)
  ok (record { buckets = buckets })
