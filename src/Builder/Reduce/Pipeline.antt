-- ===== src/Builder/Reduce/Pipeline.antt =====
-- Partition and reduction together, against the histories of the events: what a reduced table says
-- of each key.
use kaysentinel.Base.{
  ◌≡◌, refl, sym, ◌∙◌, Option, none, some, List, [], ◌∷◌, ok, All, map, subst, ◌>>=◌, >>=-eq-ok,
}
use kaysentinel.Base.Classes.{PartialEq, bytes_eq, nat_eq, bytes_ord}
use kaysentinel.Base.BTreeMap.{get, update_entry, IsSorted}
use kaysentinel.Base.BTreeMap.Laws.{insert-IsSorted}
use kaysentinel.Cse.{
  CsePayload, CanonicalSemanticEvent, balance_changed, storage_slot_updated, ExecutionContext,
  transient_storage_updated, nonce_updated, code_updated,
}
use kaysentinel.Builder.Errors.{EventId}
use kaysentinel.Builder.Ir.{
  CanonicalKey, key_ord, ObservedTransition, Timeline, ReducedTransition, reduce, TransactionBucket,
  TimelineVariant, RawIr, ReducedVariant, ReducedTransactionBucket, ReducedIr,
}
use kaysentinel.Builder.Ir.Lineage.{ContinuesFrom, summary, reduce-ok_iff}
use kaysentinel.Builder.Partition
use kaysentinel.Builder.Partition.{record_payload, open_bucket, event_id_of}
use kaysentinel.Builder.Partition.Histories.{
  gather, balance_seen, nonce_seen, code_seen, storage_seen, transient_seen, present, expected,
  record_all,
}
use kaysentinel.Builder.Partition.Tables.{get-record_all}
use kaysentinel.Builder.Partition.Transactions.{
  Transaction, IsTransaction, stream_of, bucket_of, process-ok,
}
use kaysentinel.Builder.Reduce
use kaysentinel.Builder.Reduce.{reduce_variant, reduce_table}
use kaysentinel.Builder.Reduce.Tables.{
  EntryReduces, reduce_table-entries, BucketsReduce, process-BucketsReduce,
}

payload-IsSorted :
    (ctx : ExecutionContext) (id : EventId) (p : CsePayload) (b : TransactionBucket)
    → IsSorted b.state_tables
    → IsSorted (record_payload ctx id p b).state_tables
unfolding record_payload update_entry
payload-IsSorted ctx id (balance_changed p) b s = insert-IsSorted _ _ b.state_tables s
payload-IsSorted ctx id (nonce_updated p) b s = insert-IsSorted _ _ b.state_tables s
payload-IsSorted ctx id (code_updated p) b s = insert-IsSorted _ _ b.state_tables s
payload-IsSorted ctx id (storage_slot_updated p) b s = insert-IsSorted _ _ b.state_tables s
payload-IsSorted ctx id (transient_storage_updated p) b s = insert-IsSorted _ _ b.state_tables s
payload-IsSorted ctx id p b s = s

open-IsSorted : (ctx : ExecutionContext) → IsSorted (open_bucket ctx).state_tables
unfolding open_bucket
open-IsSorted ctx = tt

record_all-IsSorted :
    (es : List CanonicalSemanticEvent) (b : TransactionBucket)
    → IsSorted b.state_tables
    → IsSorted (record_all es b).state_tables
unfolding record_all
record_all-IsSorted [] b s = s
record_all-IsSorted (e ∷ es) b s =
    record_all-IsSorted es (record_payload e.context (event_id_of e) e.payload b)
      (payload-IsSorted e.context (event_id_of e) e.payload b s)

-- The entry of a key with this history: none if it is empty, else an unbroken chain's summary.
abbrev pub Summarises :
    {T : Type 0}
    → (ReducedTransition T → ReducedVariant)
    → List (ObservedTransition T)
    → Option ReducedVariant
    → Type 0
Summarises c [] r = r ≡ none
Summarises c (o ∷ os) r = ContinuesFrom o.after os × (r ≡ some (c (summary o os)))

-- What the reduced table of a transaction with these events says at a key.
abbrev pub SummaryAt : CanonicalKey → List CanonicalSemanticEvent → Option ReducedVariant → Type 0
SummaryAt (CanonicalKey.balance a) es r =
    Summarises ReducedVariant.balance (gather (balance_seen a) es) r
SummaryAt (CanonicalKey.nonce a) es r = Summarises ReducedVariant.nonce (gather (nonce_seen a) es) r
SummaryAt (CanonicalKey.code a) es r = Summarises ReducedVariant.code (gather (code_seen a) es) r
SummaryAt (CanonicalKey.storage a s) es r =
    Summarises ReducedVariant.storage (gather (storage_seen a s) es) r
SummaryAt (CanonicalKey.transient a s) es r =
    Summarises ReducedVariant.transient (gather (transient_seen a s) es) r

module _ {T : Type 0} ⦃e : PartialEq T⦄ (c : Timeline T → TimelineVariant)
    (d : ReducedTransition T → ReducedVariant)
    (reads : (tl : Timeline T) → reduce_variant (c tl) ≡ (reduce tl >>= λ t. ok (d t))) where
  Summarises-of :
      (h : List (ObservedTransition T)) (r : Option ReducedVariant)
      → EntryReduces (present c h) r
      → Summarises d h r
  Summarises-of [] r q = q
  Summarises-of (o ∷ os) none q = absurd q
  Summarises-of (o ∷ os) (some r) q =
      let tl : Timeline T = record { history = o ∷ os } in
      let (t, p, x) = >>=-eq-ok (reduce tl) (λ t. ok (d t)) (sym (reads tl) ∙ q) in
      let (chain, y) = (reduce-ok_iff tl t).0 p in (chain, cc (x, y))

summary_of :
    (k : CanonicalKey) (es : List CanonicalSemanticEvent) (r : Option ReducedVariant)
    → EntryReduces (expected k es) r
    → SummaryAt k es r
unfolding reduce_variant
summary_of (CanonicalKey.balance a) es r =
    Summarises-of TimelineVariant.balance ReducedVariant.balance (λ tl. refl) _ r
summary_of (CanonicalKey.nonce a) es r =
    Summarises-of TimelineVariant.nonce ReducedVariant.nonce (λ tl. refl) _ r
summary_of (CanonicalKey.code a) es r =
    Summarises-of TimelineVariant.code ReducedVariant.code (λ tl. refl) _ r
summary_of (CanonicalKey.storage a s) es r =
    Summarises-of TimelineVariant.storage ReducedVariant.storage (λ tl. refl) _ r
summary_of (CanonicalKey.transient a s) es r =
    Summarises-of TimelineVariant.transient ReducedVariant.transient (λ tl. refl) _ r

-- A reduced bucket for each transaction, which says at each key what its events say.
abbrev pub Summaries : List Transaction → List ReducedTransactionBucket → Type 0
Summaries [] [] = Unit
Summaries [] (r ∷ rs) = ⊥
Summaries (t ∷ ts) [] = ⊥
Summaries (t ∷ ts) (r ∷ rs) =
    ((k : CanonicalKey) → SummaryAt k t.body (get k r.state_table)) × Summaries ts rs

Summaries-of :
    (ts : List Transaction) (rs : List ReducedTransactionBucket)
    → BucketsReduce (map bucket_of ts) rs
    → Summaries ts rs
Summaries-of [] [] h = tt
Summaries-of [] (r ∷ rs) h = h
Summaries-of (t ∷ ts) [] h = h
Summaries-of (t ∷ ts) (r ∷ rs) h = (
  λ k. summary_of k t.body (get k r.state_table) (
      subst (λ x. EntryReduces x (get k r.state_table)) (get-record_all t.opening.context k t.body)
        (reduce_table-entries k (bucket_of t).state_tables r.state_table
          (record_all-IsSorted t.body (open_bucket t.opening.context)
            (open-IsSorted t.opening.context))
          h.0.table)),
  Summaries-of ts rs h.1,
)

-- For a stream that partitions into raw tables which reduce: the stream is a sequence of
-- transactions, and the reduced tables are one for each, in order. A key that no event of the
-- transaction touches has no entry. At any other key the events form an unbroken chain of values,
-- and the entry holds the first previous value, the last current value and the set of the events'
-- sequence numbers.
pub reduce-partition :
    (es : List CanonicalSemanticEvent) (raw : RawIr) (red : ReducedIr)
    → Partition.process es ≡ ok raw
    → Reduce.process raw ≡ ok red
    → (ts : List Transaction) × All IsTransaction ts
      × (es ≡ stream_of ts)
      × Summaries ts red.buckets
reduce-partition es raw red p q =
    let (ts, all, cut, made) = process-ok es raw p in
    (
      ts,
      all,
      cut,
      Summaries-of ts red.buckets
          (subst (λ bs. BucketsReduce bs red.buckets) made (process-BucketsReduce raw red q)),
    )
