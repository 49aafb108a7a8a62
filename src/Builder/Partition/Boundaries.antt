-- ===== src/Builder/Partition/Boundaries.antt =====
-- Which streams partition: those whose transactions open and close in turn.
use kaysentinel.Base.{
  ◌≡◌, ◌↔◌, Bool, true, false, Option, none, some, List, [], ◌∷◌, ok, err, arith, >>=-eq-ok,
  Option-cases, Result-cases, inl, inr, subst, sym, length, ◌<◌,
}
use kaysentinel.Cse.{
  ExecutionContext, CsePayload, begin_transaction, end_transaction, CanonicalSemanticEvent, u64_mod,
}
use kaysentinel.Cse.Validator
use kaysentinel.Cse.Validator.{CseValidator, validate_stream}
use kaysentinel.Cse.Validator.Laws.{opens, Fits, IsBracketed, validate_stream-ok_iff}
use kaysentinel.Builder.Errors.{EventId, BuilderError}
use kaysentinel.Builder.Ir.{TransactionBucket, RawIr}
use kaysentinel.Builder.Partition.{Partitioning, event_id_of, step, process_from, process}

abbrev pub is_open : Option TransactionBucket → Bool
is_open none = false
is_open (some b) = true

no_fit_of_step :
    (s : Partitioning) (ctx : ExecutionContext) (id : EventId) (p : CsePayload) (x : BuilderError)
    → step s ctx id p ≡ err x
    → ¬ Fits (is_open s.current_bucket) p
unfolding step
no_fit_of_step s ctx id begin_transaction x h f = ground arith
no_fit_of_step s ctx id end_transaction x h f = ground arith
no_fit_of_step s ctx id p x h f = ground arith

Fits-of_step :
    (s : Partitioning) (ctx : ExecutionContext) (id : EventId) (p : CsePayload) (s' : Partitioning)
    → step s ctx id p ≡ ok s'
    → Fits (is_open s.current_bucket) p
      × (is_open s'.current_bucket ≡ opens (is_open s.current_bucket) p)
unfolding step
Fits-of_step s ctx id begin_transaction s' h = ground arith
Fits-of_step s ctx id end_transaction s' h = ground arith
Fits-of_step s ctx id p s' h = ground arith

process_from_ok :
    (s : Partitioning) (es : List CanonicalSemanticEvent)
    → IsBracketed (is_open s.current_bucket) es false
    → (raw : RawIr) × (process_from s es ≡ ok raw)
unfolding process_from
process_from_ok s [] h = elim (Option-cases s.current_bucket) [
  | inl e ↦ (record { buckets = s.finished }, ground arith)
  | inr (b, e) ↦ absurd (ground arith)
]
process_from_ok s (e ∷ es) h = elim (Result-cases (step s e.context (event_id_of e) e.payload)) [
  | inl (s', p) ↦
      let after = (Fits-of_step s e.context (event_id_of e) e.payload s' p).1 in
      let (raw, q) = process_from_ok s' es (subst (λ b. IsBracketed b es false) (sym after) h.1) in
      (raw, rw p q)
  | inr (x, p) ↦ absurd (no_fit_of_step s e.context (event_id_of e) e.payload x p h.0)
]

process_from-IsBracketed :
    (s : Partitioning) (es : List CanonicalSemanticEvent) (raw : RawIr)
    → process_from s es ≡ ok raw
    → IsBracketed (is_open s.current_bucket) es false
unfolding process_from
process_from-IsBracketed s [] raw h = ground arith
process_from-IsBracketed s (e ∷ es) raw h =
    let (s', p, q) =
      >>=-eq-ok (step s e.context (event_id_of e) e.payload) (λ t. process_from t es) h in
    let (fits, after) = Fits-of_step s e.context (event_id_of e) e.payload s' p in
    (fits, subst (λ b. IsBracketed b es false) after (process_from-IsBracketed s' es raw q))

-- A stream partitions if and only if its transaction boundaries are bracketed from outside a
-- transaction to outside a transaction.
pub process-ok_iff :
    (es : List CanonicalSemanticEvent)
    → ((raw : RawIr) × (process es ≡ ok raw)) ↔ IsBracketed false es false
unfolding process
process-ok_iff es = (λ h. process_from-IsBracketed _ es h.0 h.1, λ h. process_from_ok _ es h)

-- The events alone decide whether a transaction is open at the end.
last_unique :
    (inside a b : Bool) (es : List CanonicalSemanticEvent)
    → IsBracketed inside es a
    → IsBracketed inside es b
    → a ≡ b
last_unique inside a b [] h k = ground arith
last_unique inside a b (e ∷ es) h k = last_unique (opens inside e.payload) a b es h.1 k.1

-- A stream shorter than 2^64 that a new validator accepts partitions if and only if the validator
-- ends outside a transaction.
pub process-validate_stream :
    (es : List CanonicalSemanticEvent) (w : CseValidator)
    → length es < u64_mod
    → validate_stream Validator.new es ≡ ok w
    → (w.in_transaction ≡ false) ↔ ((raw : RawIr) × (process es ≡ ok raw))
process-validate_stream es w b h =
    let bracketed = ((validate_stream-ok_iff es w b).0 h).2 in
    (
      λ e. (process-ok_iff es).1 (subst (λ t. IsBracketed false es t) e bracketed),
      λ raw. last_unique false w.in_transaction false es bracketed ((process-ok_iff es).0 raw),
    )
