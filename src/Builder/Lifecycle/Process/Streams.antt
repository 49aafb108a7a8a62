-- ===== src/Builder/Lifecycle/Process/Streams.antt =====
-- The results of `process` (lifecycle/mod.rs) on a whole stream, in terms of its events.
use kaysentinel.Base.{
  refl, false, arith, ℕ, suc, ◌+◌, ◌<◌, ◌≡◌, ◌↔◌, ap, sym, subst, ◌∙◌, Bool, true, List, [], ◌∷◌,
  length, length-append, map, All, arith, ok,
}
use kaysentinel.Base.Classes.{bytes_eq, bytes_ord}
use kaysentinel.Base.BTreeMap.{BTreeMap, IsSorted}
use kaysentinel.Cse.{Address, CanonicalSemanticEvent, u32_mod}
use kaysentinel.Cse.Validator
use kaysentinel.Cse.Validator.{CseValidator, validate_stream}
use kaysentinel.Cse.Validator.Laws.{IsSequenced, validate_stream-ok_iff}
use kaysentinel.Builder.Ir.{
  ObservedLifecycle, CseLifecyclePayload, TraceProvenance, created, destroyed, RawIr, ReducedIr,
  ReducedTransactionBucket,
}
use kaysentinel.Builder.Partition
use kaysentinel.Builder.Partition.{event_id_of, trace_provenance_from}
use kaysentinel.Builder.Partition.Transactions.{
  Transaction, IsTransaction, stream_of, bucket_of, process-ok,
}
use kaysentinel.Builder.Reduce
use kaysentinel.Builder.Reduce.Tables.{BucketsReduce, BucketReduces, process-BucketsReduce}
use kaysentinel.Builder.Lifecycle.Keys.{CanonicalSemanticIr}
use kaysentinel.Builder.Lifecycle.Resolve.{PassOutput, is_valid}
use kaysentinel.Builder.Lifecycle.Canonicalize.Report.{all_hold}
use kaysentinel.Builder.Lifecycle.Certificate.{
  with_address, resolve_matches, resolve_generation_for_address,
}
use kaysentinel.Builder.Lifecycle.Process.Lives.{resolve-lives}
use kaysentinel.Builder.Lifecycle.Process.Found.{lives_found, with_address-table_lives}
use kaysentinel.Builder.Lifecycle.Process.Identity.{identity_of, resolve_matches-lives_found}
use kaysentinel.Builder.Lifecycle.Process.{process_bucket, process}
use kaysentinel.Builder.Lifecycle.Process.Ordered.{IsAccountTrace}
use kaysentinel.Builder.Lifecycle.Process.Verdict.{Alternates, IsAlternating}
use kaysentinel.Builder.Lifecycle.Process.Reported.{process_bucket-report, process_bucket-is_valid}
use kaysentinel.Builder.Lifecycle.Process.Collisions.{
  is_creation, existed_before, created_first, resolve-no_error,
}
use kaysentinel.Builder.Lifecycle.Process.Traces.{
  IsSequenced-split, lives_seen-IsAccountTrace, HasPairedLives,
}
use kaysentinel.Builder.Lifecycle.Process.Observed.{
  lives_seen, observed, observed-open_bucket, open_bucket-lives-IsSorted, All-observed, HasFilled,
  open_bucket-HasFilled,
}

destroyed_first :
    (p : CseLifecyclePayload) (at : TraceProvenance)
    (os : List (CseLifecyclePayload × TraceProvenance))
    → Alternates false ((p, at) ∷ os)
    → is_creation p ≡ false
    → ⊥
destroyed_first (created p) at os h c = ground (arith, c)
destroyed_first (destroyed p) at os h c = ground (arith, h.0)

-- Observations that alternate and do not begin with a creation are none.
nothing_seen : (os : List ObservedLifecycle) → IsAlternating os → created_first os ≡ false → os ≡ []
nothing_seen [] h c = refl
nothing_seen (o ∷ os) h c = absurd (destroyed_first o.payload _ _ h c)

-- What a transaction with these events asks of its lifecycle result.
pub record IsReportOf (pre_states : BTreeMap Address Bool) (es : List CanonicalSemanticEvent)
    (o : PassOutput CanonicalSemanticIr) : Type 0 where
  pub flags : (all_hold o.invariant_report ≡ true) ↔ HasPairedLives es
  pub valid : (is_valid o ≡ true) ↔ (
      HasPairedLives es
      × ((a : Address) → existed_before pre_states a ≡ true → lives_seen a es ≡ []))
  pub identities :
      (a : Address)
      → resolve_generation_for_address o.value.generations a ≡ identity_of a (lives_seen a es)

transaction-report :
    (pre_states : BTreeMap Address Bool) (n : ℕ) (t : Transaction) (r : ReducedTransactionBucket)
    → length t.body < u32_mod
    → IsSequenced n t.body
    → BucketReduces (bucket_of t) r
    → IsReportOf pre_states t.body (process_bucket pre_states r)
unfolding resolve_generation_for_address
transaction-report pre_states n t r b s v =
    let table = r.lifecycle_table in
    let sorted : IsSorted table =
      rw v.lifecycles (open_bucket-lives-IsSorted t.opening.context t.body) in
    let filled : HasFilled table =
      rw v.lifecycles (open_bucket-HasFilled t.opening.context t.body) in
    let seen : (a : Address) → observed a table ≡ lives_seen a t.body =
      λ a. ap (observed a) v.lifecycles ∙ observed-open_bucket a t.opening.context t.body in
    let trace : (a : Address) → IsAccountTrace (lives_seen a t.body) =
      λ a. lives_seen-IsAccountTrace n t.body a b s in
    let traces =
      (All-observed (λ a. IsAccountTrace) table sorted (λ a. (omega arith, tt))).1
        (λ a. subst IsAccountTrace (sym (seen a)) (trace a)) in
    let (kept, report) = process_bucket-report pre_states r sorted traces in
    let paired = All-observed (λ a. IsAlternating) table sorted (λ a. tt) in
    let flags : (all_hold (process_bucket pre_states r).invariant_report ≡ true)
        ↔ HasPairedLives t.body =
      (
        λ h a. subst IsAlternating (seen a) (paired.0 (report.0 h) a),
        λ h. report.1 (paired.1 (λ a. subst IsAlternating (sym (seen a)) (h a))),
      ) in
    let calm =
      All-observed (λ a os. existed_before pre_states a ≡ true → created_first os ≡ false) table
        sorted (λ a e. refl) in
    let no_error = resolve-no_error pre_states table traces in
    let checked = process_bucket-is_valid pre_states r in
    record {
      flags = flags;
      valid = (
        λ h.
            let (f, n) = checked.0 h in
            let p = flags.0 f in
            (
              p,
              λ a e.
                  nothing_seen (lives_seen a t.body) (p a)
                    (subst (λ os. created_first os ≡ false) (seen a) (calm.0 (no_error.0 n) a e)),
            ),
        λ h.
            checked.1
              (flags.1 h.0, no_error.1 (calm.1 (λ a e. ap created_first (seen a ∙ h.1 a e)))),
      );
      identities = λ a.
          ap (λ gs. resolve_matches a (with_address a gs)) (kept ∙ resolve-lives pre_states table)
          ∙ ap (resolve_matches a)
              (with_address-table_lives a table sorted traces filled ∙ ap (lives_found a) (seen a))
          ∙ resolve_matches-lives_found a (lives_seen a t.body) (trace a);
    }

-- One result for each transaction, as its events ask for.
abbrev pub Reports :
    BTreeMap Address Bool → List Transaction → List (PassOutput CanonicalSemanticIr) → Type 0
Reports pre_states [] [] = Unit
Reports pre_states [] (o ∷ os) = ⊥
Reports pre_states (t ∷ ts) [] = ⊥
Reports pre_states (t ∷ ts) (o ∷ os) = IsReportOf pre_states t.body o × Reports pre_states ts os

transactions-report :
    (pre_states : BTreeMap Address Bool) (n : ℕ) (ts : List Transaction)
    (rs : List ReducedTransactionBucket)
    → length (stream_of ts) < u32_mod
    → IsSequenced n (stream_of ts)
    → BucketsReduce (map bucket_of ts) rs
    → Reports pre_states ts (map (process_bucket pre_states) rs)
transactions-report pre_states n [] [] b s h = tt
transactions-report pre_states n [] (r ∷ rs) b s h = h
transactions-report pre_states n (t ∷ ts) [] b s h = h
transactions-report pre_states n (t ∷ ts) (r ∷ rs) b s h =
    let (body, rest) = IsSequenced-split (suc n) t.body (t.closing ∷ stream_of ts) s.1 in
    let l = length-append t.body (t.closing ∷ stream_of ts) in
    (
      transaction-report pre_states (suc n) t r (omega (arith, b, l)) body h.0,
      transactions-report pre_states (suc (suc n + length t.body)) ts rs (omega (arith, b, l))
          rest.1 h.1,
    )

-- A stream shorter than 2^32 that a new validator accepts, that partitions and whose tables reduce
-- is a sequence of transactions, and the lifecycle pass has one result for each, in order. Its
-- report has all flags if and only if, among the transaction's creations and destructions of each
-- account, every destruction directly follows a creation. It is valid, with no error among its
-- diagnostics, if and only if moreover no account that existed before the transaction is created
-- or destroyed in it. An account that the transaction neither creates nor destroys has no identity
-- in the result. Any other resolves to its last generation, whose id is the number of its
-- destructions, less one if the last of these events is one.
pub process-report :
    (pre_states : BTreeMap Address Bool) (es : List CanonicalSemanticEvent) (v : CseValidator)
    (raw : RawIr) (red : ReducedIr)
    → length es < u32_mod
    → validate_stream Validator.new es ≡ ok v
    → Partition.process es ≡ ok raw
    → Reduce.process raw ≡ ok red
    → (ts : List Transaction) × All IsTransaction ts
      × (es ≡ stream_of ts)
      × Reports pre_states ts (process red pre_states)
unfolding process
process-report pre_states es v raw red b valid p q =
    let (ts, all, cut, made) = process-ok es raw p in
    let sequenced = ((validate_stream-ok_iff es v (omega (arith, b))).0 valid).1 in
    (
      ts,
      all,
      cut,
      transactions-report pre_states 0 ts red.buckets (subst (λ t. length t < u32_mod) cut b)
          (subst (IsSequenced 0) cut sequenced)
          (subst (λ bs. BucketsReduce bs red.buckets) made (process-BucketsReduce raw red q)),
    )
