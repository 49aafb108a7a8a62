-- ===== src/Builder/Lifecycle/Process/Observed.antt =====
-- What the lifecycle table of a transaction holds for an account, in terms of its events.
use kaysentinel.Base.{
  ◌≡◌, ◌≢◌, ◌↔◌, refl, ap, sym, subst, ◌∙◌, Bool-cases, Option-cases, List, [], ◌∷◌, ◌++◌,
  append_assoc, append-nil, All, All-imp, inl, inr, arith, if◌then◌else◌,
}
use kaysentinel.Base.Classes.{◌==◌, bytes_eq, bytes_ord, bytes_beq_iff}
use kaysentinel.Base.BTreeMap.{BTreeMap, get, update_entry, unwrap_or, IsSorted}
use kaysentinel.Base.BTreeMap.Laws.{
  get-insert_self, get-insert_ne, insert-IsSorted, All_of_get, All-insert,
}
use kaysentinel.Base.BTreeMap.Values.{get_entries}
use kaysentinel.Cse.{
  Address, ExecutionContext, CsePayload, contract_created, contract_destroyed,
  CanonicalSemanticEvent,
}
use kaysentinel.Builder.Errors.{EventId}
use kaysentinel.Builder.Ir.{created, destroyed, ObservedLifecycle, TransactionBucket}
use kaysentinel.Builder.Partition.{open_bucket, record_payload, event_id_of, trace_provenance_from}
use kaysentinel.Builder.Partition.Histories.{record_all}

-- What one event adds to the observations of an account.
abbrev pub life_seen : Address → ExecutionContext → EventId → CsePayload → List ObservedLifecycle
life_seen a ctx id (contract_created p) =
    if p.address == a
    then record { payload = created p; event_id = id; trace_provenance = trace_provenance_from ctx }
      ∷ []
    else []
life_seen a ctx id (contract_destroyed p) =
    if p.address == a
    then record {
      payload = destroyed p;
      event_id = id;
      trace_provenance = trace_provenance_from ctx;
    }
      ∷ []
    else []
life_seen a ctx id _ = []

-- The creations and destructions of an account, in order.
abbrev pub lives_seen : Address → List CanonicalSemanticEvent → List ObservedLifecycle
lives_seen a [] = []
lives_seen a (e ∷ es) = life_seen a e.context (event_id_of e) e.payload ++ lives_seen a es

abbrev Table : Type 0
Table = BTreeMap Address (List ObservedLifecycle)

abbrev pub observed : Address → Table → List ObservedLifecycle
observed a m = unwrap_or [] (get a m)

update_observed :
    (a b : Address) (o : ObservedLifecycle) (m : Table)
    → observed a (update_entry b [] (λ os. os ++ o ∷ []) m)
      ≡ observed a m ++ (if b == a then o ∷ [] else [])
unfolding update_entry
update_observed a b o m = elim (Bool-cases (b == a)) [
  | inl same ↦
      let e = (bytes_beq_iff b a).0 same in
      rw (same, e, get-insert_self a (observed a m ++ o ∷ []) m) refl
  | inr other ↦
      let ne : a ≢ b = λ e. ground (arith, bytes_beq_iff b a, e) in
      rw (other, get-insert_ne a b (observed b m ++ o ∷ []) m ne, append-nil (observed a m)) refl
]

payload_observed :
    (a : Address) (ctx : ExecutionContext) (id : EventId) (p : CsePayload) (b : TransactionBucket)
    → observed a (record_payload ctx id p b).lifecycle_table
      ≡ observed a b.lifecycle_table ++ life_seen a ctx id p
unfolding record_payload
payload_observed a ctx id (contract_created p) b = update_observed a p.address _ b.lifecycle_table
payload_observed a ctx id (contract_destroyed p) b = update_observed a p.address _ b.lifecycle_table
payload_observed a ctx id p b = sym (append-nil (observed a b.lifecycle_table))

observed-record_all :
    (a : Address) (es : List CanonicalSemanticEvent) (b : TransactionBucket)
    → observed a (record_all es b).lifecycle_table ≡ observed a b.lifecycle_table ++ lives_seen a es
unfolding record_all
observed-record_all a [] b = sym (append-nil (observed a b.lifecycle_table))
observed-record_all a (e ∷ es) b =
    let seen = life_seen a e.context (event_id_of e) e.payload in
    observed-record_all a es (record_payload e.context (event_id_of e) e.payload b)
    ∙ ap (λ t. t ++ lives_seen a es) (payload_observed a e.context (event_id_of e) e.payload b)
    ∙ append_assoc (observed a b.lifecycle_table) seen (lives_seen a es)

-- After the events of a transaction, the table holds for an account its creations and destructions.
pub observed-open_bucket :
    (a : Address) (ctx : ExecutionContext) (es : List CanonicalSemanticEvent)
    → observed a (record_all es (open_bucket ctx)).lifecycle_table ≡ lives_seen a es
unfolding open_bucket get
observed-open_bucket a ctx es = observed-record_all a es (open_bucket ctx)

payload-lives-IsSorted :
    (ctx : ExecutionContext) (id : EventId) (p : CsePayload) (b : TransactionBucket)
    → IsSorted b.lifecycle_table
    → IsSorted (record_payload ctx id p b).lifecycle_table
unfolding record_payload update_entry
payload-lives-IsSorted ctx id (contract_created p) b s = insert-IsSorted _ _ b.lifecycle_table s
payload-lives-IsSorted ctx id (contract_destroyed p) b s = insert-IsSorted _ _ b.lifecycle_table s
payload-lives-IsSorted ctx id p b s = s

lives-IsSorted :
    (es : List CanonicalSemanticEvent) (b : TransactionBucket)
    → IsSorted b.lifecycle_table
    → IsSorted (record_all es b).lifecycle_table
unfolding record_all
lives-IsSorted [] b s = s
lives-IsSorted (e ∷ es) b s =
    lives-IsSorted es (record_payload e.context (event_id_of e) e.payload b)
      (payload-lives-IsSorted e.context (event_id_of e) e.payload b s)

pub open_bucket-lives-IsSorted :
    (ctx : ExecutionContext) (es : List CanonicalSemanticEvent)
    → IsSorted (record_all es (open_bucket ctx)).lifecycle_table
unfolding open_bucket
open_bucket-lives-IsSorted ctx es = lives-IsSorted es (open_bucket ctx) tt

-- What holds of all entries of a sorted table is what holds of the observations of all accounts.
pub All-observed :
    (P : Address → List ObservedLifecycle → Type 0) (m : Table)
    → IsSorted m
    → ((a : Address) → P a [])
    → All (λ e. P e.0 e.1) m ↔ ((a : Address) → P a (observed a m))
All-observed P m s p = (
  λ h a. elim (Option-cases (get a m)) [
    | inl e ↦ rw e (p a)
    | inr (os, e) ↦ rw e (All_of_get (λ x. P x.0 x.1) a os m h e)
  ],
  λ h. All-imp (λ x e. subst (λ t. P x.0 (unwrap_or [] t)) e (h x.0)) m (get_entries m s),
)

abbrev pub IsFilled : List ObservedLifecycle → Type 0
IsFilled [] = ⊥
IsFilled (o ∷ os) = Unit

IsFilled-append : (os : List ObservedLifecycle) (o : ObservedLifecycle) → IsFilled (os ++ o ∷ [])
IsFilled-append [] o = tt
IsFilled-append (x ∷ os) o = tt

-- No entry of the table is empty.
abbrev pub HasFilled : Table → Type 0
HasFilled m = All (λ e. IsFilled e.1) m

payload-HasFilled :
    (ctx : ExecutionContext) (id : EventId) (p : CsePayload) (b : TransactionBucket)
    → HasFilled b.lifecycle_table
    → HasFilled (record_payload ctx id p b).lifecycle_table
unfolding record_payload update_entry
payload-HasFilled ctx id (contract_created p) b h =
    All-insert (λ e. IsFilled e.1) p.address _ b.lifecycle_table (IsFilled-append _ _) h
payload-HasFilled ctx id (contract_destroyed p) b h =
    All-insert (λ e. IsFilled e.1) p.address _ b.lifecycle_table (IsFilled-append _ _) h
payload-HasFilled ctx id p b h = h

record_all-HasFilled :
    (es : List CanonicalSemanticEvent) (b : TransactionBucket)
    → HasFilled b.lifecycle_table
    → HasFilled (record_all es b).lifecycle_table
unfolding record_all
record_all-HasFilled [] b h = h
record_all-HasFilled (e ∷ es) b h =
    record_all-HasFilled es (record_payload e.context (event_id_of e) e.payload b)
      (payload-HasFilled e.context (event_id_of e) e.payload b h)

pub open_bucket-HasFilled :
    (ctx : ExecutionContext) (es : List CanonicalSemanticEvent)
    → HasFilled (record_all es (open_bucket ctx)).lifecycle_table
unfolding open_bucket
open_bucket-HasFilled ctx es = record_all-HasFilled es (open_bucket ctx) tt
