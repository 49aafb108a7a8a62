-- ===== src/Verify/Pipeline/Streams.antt =====
-- The reduced table of a stream of one transaction says of each key what the whole stream says.
use kaysentinel.Base.{
  ◌≡◌, refl, ap, sym, ◌∙◌, subst, Option, List, [], ◌∷◌, ◌++◌, append-nil, append_assoc, All, ok,
  >>=-eq-ok,
}
use kaysentinel.Base.Classes.{bytes_eq, bytes_ord}
use kaysentinel.Base.BTreeMap.{BTreeMap, get, insert, IsSorted}
use kaysentinel.Base.BTreeMap.Laws.{insert-IsSorted}
use kaysentinel.Cse.{CsePayload, CanonicalSemanticEvent, begin_transaction, end_transaction}
use kaysentinel.Builder.Errors.{EventId}
use kaysentinel.Builder.Ir.{
  CanonicalKey, key_ord, ObservedTransition, TransactionBucket, TimelineVariant, ReducedVariant,
  RawIr, ReducedIr, ReducedTransactionBucket,
}
use kaysentinel.Builder.Partition
use kaysentinel.Builder.Partition.{event_id_of}
use kaysentinel.Builder.Partition.Histories.{
  gather, balance_seen, nonce_seen, code_seen, storage_seen, transient_seen,
}
use kaysentinel.Builder.Partition.Transactions.{Transaction, IsTransaction, stream_of}
use kaysentinel.Builder.Reduce
use kaysentinel.Builder.Reduce.{reduce_variant, reduce_table}
use kaysentinel.Builder.Reduce.Tables.{BucketsReduce, process-BucketsReduce}
use kaysentinel.Builder.Reduce.Pipeline.{SummaryAt, Summaries, reduce-partition}

pub reduce_table-IsSorted :
    (acc : BTreeMap CanonicalKey ReducedVariant) (m : BTreeMap CanonicalKey TimelineVariant)
    (out : BTreeMap CanonicalKey ReducedVariant)
    → IsSorted acc
    → reduce_table acc m ≡ ok out
    → IsSorted out
unfolding reduce_table
reduce_table-IsSorted acc [] out s h =
    let e : acc ≡ out = cc h in subst (λ (t : BTreeMap CanonicalKey ReducedVariant). IsSorted t) e s
reduce_table-IsSorted acc ((k, v) ∷ m) out s h =
    let (t, p, q) = >>=-eq-ok (reduce_variant v) (λ t. reduce_table (insert k t acc) m) h in
    reduce_table-IsSorted (insert k t acc) m out (insert-IsSorted k t acc s) q

module _ {T : Type 0} (seen : EventId → CsePayload → List (ObservedTransition T)) where
  gather-append :
      (xs ys : List CanonicalSemanticEvent)
      → gather seen (xs ++ ys) ≡ gather seen xs ++ gather seen ys
  gather-append [] ys = refl
  gather-append (e ∷ xs) ys =
      ap (λ t. seen (event_id_of e) e.payload ++ t) (gather-append xs ys)
      ∙ sym (append_assoc (seen (event_id_of e) e.payload) (gather seen xs) (gather seen ys))

  -- The boundaries of a transaction add nothing to a history.
  gather-stream_of :
      (t : Transaction)
      → IsTransaction t
      → ((id : EventId) → seen id begin_transaction ≡ [])
      → ((id : EventId) → seen id end_transaction ≡ [])
      → gather seen (stream_of (t ∷ [])) ≡ gather seen t.body
  unfolding event_id_of
  gather-stream_of t v opens closes =
      rw
        (
          v.opens,
          opens (event_id_of t.opening),
          gather-append t.body (t.closing ∷ []),
          v.closes,
          closes (event_id_of t.closing),
        )
        (append-nil (gather seen t.body))

SummaryAt-stream_of :
    (t : Transaction) (k : CanonicalKey) (r : Option ReducedVariant)
    → IsTransaction t
    → SummaryAt k t.body r
    → SummaryAt k (stream_of (t ∷ [])) r
SummaryAt-stream_of t (CanonicalKey.balance a) r v s =
    rw (gather-stream_of (balance_seen a) t v (λ id. refl) (λ id. refl)) s
SummaryAt-stream_of t (CanonicalKey.nonce a) r v s =
    rw (gather-stream_of (nonce_seen a) t v (λ id. refl) (λ id. refl)) s
SummaryAt-stream_of t (CanonicalKey.code a) r v s =
    rw (gather-stream_of (code_seen a) t v (λ id. refl) (λ id. refl)) s
SummaryAt-stream_of t (CanonicalKey.storage a w) r v s =
    rw (gather-stream_of (storage_seen a w) t v (λ id. refl) (λ id. refl)) s
SummaryAt-stream_of t (CanonicalKey.transient a w) r v s =
    rw (gather-stream_of (transient_seen a w) t v (λ id. refl) (λ id. refl)) s

one_transaction :
    (ts : List Transaction) (r : ReducedTransactionBucket)
    → All IsTransaction ts
    → Summaries ts (r ∷ [])
    → (k : CanonicalKey) → SummaryAt k (stream_of ts) (get k r.state_table)
unfolding get
one_transaction [] r all s k = absurd s
one_transaction (t ∷ []) r all s k = SummaryAt-stream_of t k (get k r.state_table) all.0 (s.0 k)
one_transaction (t ∷ u ∷ ts) r all s k = absurd s.1

one_table :
    (raw : RawIr) (r : ReducedTransactionBucket)
    → BucketsReduce raw.buckets (r ∷ [])
    → IsSorted r.state_table
one_table raw r h = of raw.buckets h
  where
    of : (bs : List TransactionBucket) → BucketsReduce bs (r ∷ []) → IsSorted r.state_table
    of [] h = absurd h
    of (b ∷ bs) h = reduce_table-IsSorted [] b.state_tables r.state_table tt h.0.table

-- The table of a stream of one transaction is sorted, and says at each key what the stream's events say.
pub one_bucket :
    (es : List CanonicalSemanticEvent) (raw : RawIr) (red : ReducedIr)
    (r : ReducedTransactionBucket)
    → Partition.process es ≡ ok raw
    → Reduce.process raw ≡ ok red
    → red.buckets ≡ r ∷ []
    → IsSorted r.state_table × ((k : CanonicalKey) → SummaryAt k es (get k r.state_table))
unfolding get
one_bucket es raw red r p q e =
    let (ts, all, cut, says) = reduce-partition es raw red p q in
    (
      one_table raw r (subst (BucketsReduce raw.buckets) e (process-BucketsReduce raw red q)),
      λ k. rw cut (one_transaction ts r all (subst (Summaries ts) e says) k),
    )
