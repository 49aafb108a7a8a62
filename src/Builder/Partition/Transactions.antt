-- ===== src/Builder/Partition/Transactions.antt =====
-- The stream as a sequence of transactions, and the buckets that the partition makes of them.
use kaysentinel.Base.{
  ◌≡◌, refl, sym, ap, ◌∙◌, ◌⊎◌, inl, inr, Option, none, some, List, [], ◌∷◌, ◌++◌, append_assoc,
  append-nil, map, Result, ok, arith, All, >>=-eq-ok, Bool, true, false, subst,
}
use kaysentinel.Cse.{
  ExecutionContext, CsePayload, begin_transaction, end_transaction, CanonicalSemanticEvent,
}
use kaysentinel.Builder.Errors.{EventId, BuilderError}
use kaysentinel.Builder.Ir.{TransactionBucket, RawIr}
use kaysentinel.Builder.Partition.{
  Partitioning, open_bucket, record_payload, event_id_of, step, process_from, process,
}
use kaysentinel.Builder.Partition.Histories.{record_all}

-- Not a boundary of a transaction.
abbrev pub is_inner : CsePayload → Bool
is_inner begin_transaction = false
is_inner end_transaction = false
is_inner _ = true

pub record Transaction : Type 0 where
  pub opening : CanonicalSemanticEvent
  pub body : List CanonicalSemanticEvent
  pub closing : CanonicalSemanticEvent

pub record IsTransaction (t : Transaction) : Type 0 where
  pub opens : t.opening.payload ≡ begin_transaction
  pub inner : All (λ e. is_inner e.payload ≡ true) t.body
  pub closes : t.closing.payload ≡ end_transaction

abbrev pub stream_of : List Transaction → List CanonicalSemanticEvent
stream_of [] = []
stream_of (t ∷ ts) = t.opening ∷ (t.body ++ t.closing ∷ stream_of ts)

abbrev pub bucket_of : Transaction → TransactionBucket
bucket_of t = record_all t.body (open_bucket t.opening.context)

-- What is left of a stream, from between two transactions or from inside one.
abbrev Splits :
    List TransactionBucket
    → Option TransactionBucket
    → List CanonicalSemanticEvent
    → List TransactionBucket
    → Type 0
Splits done none es bs =
    (ts : List Transaction) × All IsTransaction ts
    × (es ≡ stream_of ts)
    × (bs ≡ done ++ map bucket_of ts)
Splits done (some b) es bs =
    (body : List CanonicalSemanticEvent) × (closing : CanonicalSemanticEvent) × (ts : List
      Transaction)
    × All (λ e. is_inner e.payload ≡ true) body
    × (closing.payload ≡ end_transaction)
    × All IsTransaction ts
    × (es ≡ body ++ closing ∷ stream_of ts)
    × (bs ≡ done ++ record_all body b ∷ map bucket_of ts)

abbrev StepsTo :
    List TransactionBucket
    → Option TransactionBucket
    → ExecutionContext
    → EventId
    → CsePayload
    → Partitioning
    → Type 0
StepsTo done none ctx id p s' =
    (p ≡ begin_transaction)
    × (s' ≡ record { finished = done; current_bucket = some (open_bucket ctx) })
StepsTo done (some b) ctx id p s' =
    ((p ≡ end_transaction) × (s' ≡ record { finished = done ++ b ∷ []; current_bucket = none }))
    ⊎ ((is_inner p ≡ true)
        × (s' ≡ record { finished = done; current_bucket = some (record_payload ctx id p b) }))

step_shape :
    (done : List TransactionBucket) (cur : Option TransactionBucket) (ctx : ExecutionContext)
    (id : EventId) (p : CsePayload) (s' : Partitioning)
    → step (record { finished = done; current_bucket = cur }) ctx id p ≡ ok s'
    → StepsTo done cur ctx id p s'
unfolding step
step_shape done none ctx id begin_transaction s' h = ground arith
step_shape done none ctx id end_transaction s' h = ground arith
step_shape done none ctx id p s' h = ground arith
step_shape done (some b) ctx id begin_transaction s' h = ground arith
step_shape done (some b) ctx id end_transaction s' h = ground arith
step_shape done (some b) ctx id p s' h = ground arith

ok_injective : {a b : RawIr} → ◌≡◌ {A = Result BuilderError RawIr} (ok a) (ok b) → a ≡ b
ok_injective h = cc

split :
    (done : List TransactionBucket) (cur : Option TransactionBucket)
    (es : List CanonicalSemanticEvent) (raw : RawIr)
    → process_from (record { finished = done; current_bucket = cur }) es ≡ ok raw
    → Splits done cur es raw.buckets
unfolding process_from record_all
split done none [] raw h =
    ([], tt, refl, subst (λ r. r.buckets ≡ done ++ []) (ok_injective h) (sym (append-nil done)))
split done (some b) [] raw h = absurd (ground arith)
split done none (e ∷ es) raw h =
    let (s', p, q) =
      >>=-eq-ok (step _ e.context (event_id_of e) e.payload) (λ t. process_from t es) h in
    let (opens, after) = step_shape done none e.context (event_id_of e) e.payload s' p in
    let (body, closing, ts, inner, closes, rest, cut, made) =
      split done (some (open_bucket e.context)) es raw (rw after at q) in
    (
      record { opening = e; body = body; closing = closing } ∷ ts,
      (record { opens = opens; inner = inner; closes = closes }, rest),
      ap (λ t. e ∷ t) cut,
      made,
    )
split done (some b) (e ∷ es) raw h =
    let (s', p, q) =
      >>=-eq-ok (step _ e.context (event_id_of e) e.payload) (λ t. process_from t es) h in
    elim (step_shape done (some b) e.context (event_id_of e) e.payload s' p) [
      | inl (closes, after) ↦
          let (ts, rest, cut, made) = split (done ++ b ∷ []) none es raw (rw after at q) in
          (
            [],
            e,
            ts,
            tt,
            closes,
            rest,
            ap (λ t. e ∷ t) cut,
            made ∙ append_assoc done (b ∷ []) (map bucket_of ts),
          )
      | inr (inner, after) ↦
          let (body, closing, ts, inners, closes, rest, cut, made) =
            split done (some (record_payload e.context (event_id_of e) e.payload b)) es raw
              (rw after at q) in
          (e ∷ body, closing, ts, (inner, inners), closes, rest, ap (λ t. e ∷ t) cut, made)
    ]

-- A stream that partitions is the events of some transactions one after another, and the raw
-- tables are one bucket for each transaction, in order, made of the events between its boundaries.
pub process-ok :
    (es : List CanonicalSemanticEvent) (raw : RawIr)
    → process es ≡ ok raw
    → (ts : List Transaction) × All IsTransaction ts
      × (es ≡ stream_of ts)
      × (raw.buckets ≡ map bucket_of ts)
unfolding process
process-ok es raw h = split [] none es raw h
