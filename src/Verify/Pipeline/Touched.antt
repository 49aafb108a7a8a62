-- ===== src/Verify/Pipeline/Touched.antt =====
-- Which accounts the replay follows and which the table has, in terms of the events.
use kaysentinel.Base.{
  ◌≡◌, refl, sym, ◌∙◌, false, Option, none, some, List, [], ◌∷◌, ◌++◌, All, arith, Bool-cases, inl,
  inr,
}
use kaysentinel.Base.Classes.{◌==◌, bytes_eq, bytes_ord, bytes_beq_iff, bytes_beq_comm}
use kaysentinel.Base.BTreeMap.{BTreeMap, get, IsSorted}
use kaysentinel.Base.BTreeMap.Values.{get_entries}
use kaysentinel.Cse.{
  Address, Word, CsePayload, balance_changed, nonce_updated, code_updated, storage_slot_updated,
  transient_storage_updated, contract_created, contract_destroyed, CanonicalSemanticEvent,
}
use kaysentinel.Builder.Errors.{EventId}
use kaysentinel.Builder.Ir.{
  CanonicalKey, key_address, key_ord, key_eq_of_cmp, ObservedTransition, ReducedTransition,
  ReducedVariant,
}
use kaysentinel.Builder.Partition.{event_id_of}
use kaysentinel.Builder.Partition.Histories.{
  gather, balance_seen, nonce_seen, code_seen, storage_seen, transient_seen,
}
use kaysentinel.Builder.Reduce.Pipeline.{Summarises, SummaryAt}
use kaysentinel.Builder.Lifecycle.Certificate.Fields.{is_projected}
use kaysentinel.Verify.Accounts.{mutates, is_mutated}
use kaysentinel.Verify.Pipeline.{replays, projects, payloads, any_event}

mutates-replays : (a : Address) (p : CsePayload) → mutates a p ≡ replays a p
mutates-replays a (balance_changed p) = ground (arith, bytes_beq_comm a p.address)
mutates-replays a (nonce_updated p) = ground (arith, bytes_beq_comm a p.address)
mutates-replays a (code_updated p) = ground (arith, bytes_beq_comm a p.address)
mutates-replays a (storage_slot_updated p) = ground (arith, bytes_beq_comm a p.address)
mutates-replays a (contract_created p) = ground (arith, bytes_beq_comm a p.address)
mutates-replays a (contract_destroyed p) = ground (arith, bytes_beq_comm a p.address)
mutates-replays a p = refl

-- The replay follows the accounts whose state or lifecycle an event changes.
pub is_mutated-any :
    (a : Address) (es : List CanonicalSemanticEvent)
    → is_mutated a (payloads es) ≡ any_event (replays a) es
is_mutated-any a [] = refl
is_mutated-any a (e ∷ es) = rw (mutates-replays a e.payload, is_mutated-any a es)

-- No event is observed at the key.
abbrev HasNoHistory : CanonicalKey → List CanonicalSemanticEvent → Type 0
HasNoHistory (CanonicalKey.balance a) es = gather (balance_seen a) es ≡ []
HasNoHistory (CanonicalKey.nonce a) es = gather (nonce_seen a) es ≡ []
HasNoHistory (CanonicalKey.code a) es = gather (code_seen a) es ≡ []
HasNoHistory (CanonicalKey.storage a s) es = gather (storage_seen a s) es ≡ []
HasNoHistory (CanonicalKey.transient a s) es = gather (transient_seen a s) es ≡ []

module _ {T : Type 0} (seen : EventId → CsePayload → List (ObservedTransition T)) (a : Address)
    (unseen : (id : EventId) (p : CsePayload) → projects a p ≡ false → seen id p ≡ []) where
  gather-nil :
      (es : List CanonicalSemanticEvent) → any_event (projects a) es ≡ false → gather seen es ≡ []
  gather-nil [] h = refl
  gather-nil (e ∷ es) h =
      let now : projects a e.payload ≡ false = ground (arith, h) in
      let later : any_event (projects a) es ≡ false = ground (arith, h) in
      rw (unseen (event_id_of e) e.payload now) (gather-nil es later)

module _ (a : Address) where
  balance_unseen : (id : EventId) (p : CsePayload) → projects a p ≡ false → balance_seen a id p ≡ []
  balance_unseen id (balance_changed p) h = ground (arith, h)
  balance_unseen id p h = refl

  nonce_unseen : (id : EventId) (p : CsePayload) → projects a p ≡ false → nonce_seen a id p ≡ []
  nonce_unseen id (nonce_updated p) h = ground (arith, h)
  nonce_unseen id p h = refl

  code_unseen : (id : EventId) (p : CsePayload) → projects a p ≡ false → code_seen a id p ≡ []
  code_unseen id (code_updated p) h = ground (arith, h)
  code_unseen id p h = refl

  storage_unseen :
      (s : Word) (id : EventId) (p : CsePayload) → projects a p ≡ false → storage_seen a s id p ≡ []
  storage_unseen s id (storage_slot_updated p) h = ground (arith, h)
  storage_unseen s id p h = refl

  transient_unseen :
      (s : Word) (id : EventId) (p : CsePayload)
      → projects a p ≡ false
      → transient_seen a s id p ≡ []
  transient_unseen s id (transient_storage_updated p) h = ground (arith, h)
  transient_unseen s id p h = refl

no_history :
    (k : CanonicalKey) (es : List CanonicalSemanticEvent)
    → any_event (projects (key_address k)) es ≡ false
    → HasNoHistory k es
no_history (CanonicalKey.balance a) = gather-nil (balance_seen a) a (balance_unseen a)
no_history (CanonicalKey.nonce a) = gather-nil (nonce_seen a) a (nonce_unseen a)
no_history (CanonicalKey.code a) = gather-nil (code_seen a) a (code_unseen a)
no_history (CanonicalKey.storage a s) = gather-nil (storage_seen a s) a (storage_unseen a s)
no_history (CanonicalKey.transient a s) = gather-nil (transient_seen a s) a (transient_unseen a s)

-- Of an appended list that is empty, both parts are.
split :
    {T : Type 0} (xs ys : List (ObservedTransition T)) → xs ++ ys ≡ [] → (xs ++ [] ≡ []) × (ys ≡ [])
split [] ys h = (refl, h)
split (x ∷ xs) ys h = absurd (ground (arith, h))

-- The history at a key has none of the first event, and none of the others.
no_history-cons :
    (k : CanonicalKey) (e : CanonicalSemanticEvent) (es : List CanonicalSemanticEvent)
    → HasNoHistory k (e ∷ es)
    → HasNoHistory k (e ∷ []) × HasNoHistory k es
no_history-cons (CanonicalKey.balance a) e es h =
    split (balance_seen a (event_id_of e) e.payload) _ h
no_history-cons (CanonicalKey.nonce a) e es h = split (nonce_seen a (event_id_of e) e.payload) _ h
no_history-cons (CanonicalKey.code a) e es h = split (code_seen a (event_id_of e) e.payload) _ h
no_history-cons (CanonicalKey.storage a s) e es h =
    split (storage_seen a s (event_id_of e) e.payload) _ h
no_history-cons (CanonicalKey.transient a s) e es h =
    split (transient_seen a s (event_id_of e) e.payload) _ h

module _ (a : Address) where
  -- A payload that no key of the account observes does not project to its table.
  not_projected :
      (e : CanonicalSemanticEvent) (p : CsePayload)
      → e.payload ≡ p
      → ((k : CanonicalKey) → key_address k ≡ a → HasNoHistory k (e ∷ []))
      → projects a p ≡ false
  not_projected e (balance_changed p) q h = ground (arith, q, h (CanonicalKey.balance a) refl)
  not_projected e (nonce_updated p) q h = ground (arith, q, h (CanonicalKey.nonce a) refl)
  not_projected e (code_updated p) q h = ground (arith, q, h (CanonicalKey.code a) refl)
  not_projected e (storage_slot_updated p) q h =
      ground (arith, q, h (CanonicalKey.storage a p.slot) refl, bytes_beq_iff p.slot p.slot)
  not_projected e (transient_storage_updated p) q h =
      ground (arith, q, h (CanonicalKey.transient a p.slot) refl, bytes_beq_iff p.slot p.slot)
  not_projected e p q h = refl

  any-false :
      (es : List CanonicalSemanticEvent)
      → ((k : CanonicalKey) → key_address k ≡ a → HasNoHistory k es)
      → any_event (projects a) es ≡ false
  any-false [] h = refl
  any-false (e ∷ es) h =
      let now = not_projected e e.payload refl (λ k q. (no_history-cons k e es (h k q)).0) in
      let later = any-false es (λ k q. (no_history-cons k e es (h k q)).1) in
      ground (arith, now, later)

-- An entry is missing from the table exactly where nothing was observed.
Summarises-none :
    {T : Type 0} (c : ReducedTransition T → ReducedVariant) (h : List (ObservedTransition T))
    (r : Option ReducedVariant)
    → Summarises c h r
    → (r ≡ none → h ≡ []) × (h ≡ [] → r ≡ none)
Summarises-none c [] r s = (λ e. refl, λ e. s)
Summarises-none c (o ∷ os) r s =
    (λ e. absurd (ground (arith, s.1, e)), λ e. absurd (ground (arith, e)))

entry-none :
    (k : CanonicalKey) (es : List CanonicalSemanticEvent) (r : Option ReducedVariant)
    → SummaryAt k es r
    → (r ≡ none → HasNoHistory k es) × (HasNoHistory k es → r ≡ none)
entry-none (CanonicalKey.balance a) es r s = Summarises-none ReducedVariant.balance _ r s
entry-none (CanonicalKey.nonce a) es r s = Summarises-none ReducedVariant.nonce _ r s
entry-none (CanonicalKey.code a) es r s = Summarises-none ReducedVariant.code _ r s
entry-none (CanonicalKey.storage a t) es r s = Summarises-none ReducedVariant.storage _ r s
entry-none (CanonicalKey.transient a t) es r s = Summarises-none ReducedVariant.transient _ r s

not_projected-get :
    (k : CanonicalKey) (table : BTreeMap CanonicalKey ReducedVariant)
    → is_projected (key_address k) table ≡ false
    → get k table ≡ none
unfolding get
not_projected-get k [] h = refl
not_projected-get k ((j, v) ∷ table) h = ground (
  arith,
  h,
  not_projected-get k table,
  key_eq_of_cmp k j,
  bytes_beq_iff (key_address j) (key_address k),
)

entries-not_projected :
    (a : Address) (whole part : BTreeMap CanonicalKey ReducedVariant)
    → ((k : CanonicalKey) → key_address k ≡ a → get k whole ≡ none)
    → All (λ e. get e.0 whole ≡ some e.1) part
    → is_projected a part ≡ false
entries-not_projected a whole [] h all = refl
entries-not_projected a whole ((k, v) ∷ part) h all = elim (Bool-cases (key_address k == a)) [
  | inl same ↦ absurd (ground (arith, h k ((bytes_beq_iff (key_address k) a).0 same), all.0))
  | inr other ↦ rw other (entries-not_projected a whole part h all.1)
]

-- The table has the accounts whose state or transient storage an event changes.
pub is_projected-any :
    (a : Address) (es : List CanonicalSemanticEvent) (table : BTreeMap CanonicalKey ReducedVariant)
    → IsSorted table
    → ((k : CanonicalKey) → SummaryAt k es (get k table))
    → is_projected a table ≡ any_event (projects a) es
unfolding get
is_projected-any a es table sorted says = elim (Bool-cases (is_projected a table)) [
  | inr absent ↦
      absent
      ∙ sym (
          any-false a es (λ k q.
            (entry-none k es (get k table) (says k)).0 (not_projected-get k table (rw q absent))))
  | inl present ↦ elim (Bool-cases (any_event (projects a) es)) [
    | inl some_event ↦ present ∙ sym some_event
    | inr no_event ↦ absurd (
        ground (
          arith,
          present,
          entries-not_projected a table table
              (λ k q. (entry-none k es (get k table) (says k)).1 (no_history k es (rw q no_event)))
              (get_entries table sorted),
        ))
  ]
]
