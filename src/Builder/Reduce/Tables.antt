-- ===== src/Builder/Reduce/Tables.antt =====
-- A reduced table has the keys of the raw one, each with the summary of its history.
use kaysentinel.Base.{
  ◌≡◌, sym, ◌∙◌, inl, inr, Option, none, some, List, [], ◌∷◌, ◌++◌, ok, arith, >>=-eq-ok,
  append-nil, append_assoc, subst,
}
use kaysentinel.Base.Classes.{bytes_eq, nat_eq, Ordering-cases}
use kaysentinel.Base.BTreeMap.{BTreeMap, get, insert, IsSorted}
use kaysentinel.Base.BTreeMap.Laws.{get-insert_other, get-insert_same, get_not-Above}
use kaysentinel.Builder.Ir.{
  CanonicalKey, key_ord, key_cmp, TransactionBucket, TimelineVariant, RawIr, ReducedVariant,
  ReducedTransactionBucket, ReducedIr,
}
use kaysentinel.Builder.Reduce.{
  reduce_variant, reduce_table, reduce_refund, reduce_bucket, reduce_buckets, process,
}

-- The reduced entry at a key, for the raw entry there.
abbrev pub EntryReduces : Option TimelineVariant → Option ReducedVariant → Type 0
EntryReduces none r = r ≡ none
EntryReduces (some v) none = ⊥
EntryReduces (some v) (some r) = reduce_variant v ≡ ok r

-- Over a sorted table: a key of the table reads its reduction, and any other what was there.
abbrev Refines : Option TimelineVariant → Option ReducedVariant → Option ReducedVariant → Type 0
Refines none old r = r ≡ old
Refines (some v) old r = (t : ReducedVariant) × (r ≡ some t) × (reduce_variant v ≡ ok t)

reduce_table-get :
    (k : CanonicalKey) (acc : BTreeMap CanonicalKey ReducedVariant)
    (m : BTreeMap CanonicalKey TimelineVariant) (out : BTreeMap CanonicalKey ReducedVariant)
    → IsSorted m
    → reduce_table acc m ≡ ok out
    → Refines (get k m) (get k acc) (get k out)
unfolding reduce_table get
reduce_table-get k acc [] out s h = ground arith
reduce_table-get k acc ((j, v) ∷ m) out s h =
    let (r, p, q) = >>=-eq-ok (reduce_variant v) (λ t. reduce_table (insert j t acc) m) h in
    let ih = reduce_table-get k (insert j r acc) m out s.1 q in
    elim (Ordering-cases (key_cmp k j)) [
      | inl less ↦
          rw (less, get)
            (rw (get_not-Above k j m (λ g. cc) s.0, get-insert_other k j r acc (λ g. cc)) at ih)
      | inr (inl same) ↦
          rw (same, get)
            (r, rw (get_not-Above k j m (λ g. cc) s.0, get-insert_same k j r acc same) at ih, p)
      | inr (inr more) ↦ rw (more, get) (rw (get-insert_other k j r acc (λ g. cc)) at ih)
    ]

-- The raw entries and the reduced entries agree at every key.
pub reduce_table-entries :
    (k : CanonicalKey) (m : BTreeMap CanonicalKey TimelineVariant)
    (out : BTreeMap CanonicalKey ReducedVariant)
    → IsSorted m
    → reduce_table [] m ≡ ok out
    → EntryReduces (get k m) (get k out)
unfolding get
reduce_table-entries k m out s h = entry_of (get k m) (get k out) (reduce_table-get k [] m out s h)
  where
    entry_of :
        (v : Option TimelineVariant) (r : Option ReducedVariant)
        → Refines v none r
        → EntryReduces v r
    entry_of none r e = e
    entry_of (some v) none (t, e, p) = cc
    entry_of (some v) (some r) (t, e, p) = cc

-- What a reduced bucket is to its raw bucket.
pub record BucketReduces (b : TransactionBucket) (r : ReducedTransactionBucket) : Type 0 where
  pub metadata : r.metadata ≡ b.metadata
  pub lifecycles : r.lifecycle_table ≡ b.lifecycle_table
  pub logs : r.log_table ≡ b.log_table
  pub refund : reduce_refund b.gas_refund_timeline ≡ ok r.gas_refund
  pub table : reduce_table [] b.state_tables ≡ ok r.state_table

reduce_bucket_ok :
    (b : TransactionBucket) (r : ReducedTransactionBucket)
    → reduce_bucket b ≡ ok r
    → BucketReduces b r
unfolding reduce_bucket
reduce_bucket_ok b r h = ground arith

-- One reduced bucket for each raw one, in order.
abbrev pub BucketsReduce : List TransactionBucket → List ReducedTransactionBucket → Type 0
BucketsReduce [] [] = Unit
BucketsReduce [] (r ∷ rs) = ⊥
BucketsReduce (b ∷ bs) [] = ⊥
BucketsReduce (b ∷ bs) (r ∷ rs) = BucketReduces b r × BucketsReduce bs rs

reduce_buckets_ok :
    (acc : List ReducedTransactionBucket) (bs : List TransactionBucket)
    (out : List ReducedTransactionBucket)
    → reduce_buckets acc bs ≡ ok out
    → (rs : List ReducedTransactionBucket) × (out ≡ acc ++ rs) × BucketsReduce bs rs
unfolding reduce_buckets
reduce_buckets_ok acc [] out h = ([], cc (append-nil acc), tt)
reduce_buckets_ok acc (b ∷ bs) out h =
    let (r, p, q) = >>=-eq-ok (reduce_bucket b) (λ t. reduce_buckets (acc ++ t ∷ []) bs) h in
    let (rs, e, all) = reduce_buckets_ok (acc ++ r ∷ []) bs out q in
    (r ∷ rs, e ∙ append_assoc acc (r ∷ []) rs, (reduce_bucket_ok b r p, all))

pub process-BucketsReduce :
    (raw : RawIr) (red : ReducedIr) → process raw ≡ ok red → BucketsReduce raw.buckets red.buckets
unfolding process
process-BucketsReduce raw red h =
    let (rs, e, all) = reduce_buckets_ok [] raw.buckets red.buckets (ground arith) in
    subst (λ t. BucketsReduce raw.buckets t) (sym e) all
