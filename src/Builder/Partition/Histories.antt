-- ===== src/Builder/Partition/Histories.antt =====
-- The history that the events of a transaction ask for at each key.
use kaysentinel.Base.{ℕ, Bool, Option, none, some, List, [], ◌∷◌, ◌++◌, if◌then◌else◌}
use kaysentinel.Base.Classes.{◌==◌, nat_eq, bytes_eq, bytes_ord}
use kaysentinel.Cse.{
  Word, Address, CsePayload, balance_changed, storage_slot_updated, transient_storage_updated,
  nonce_updated, code_updated, CanonicalSemanticEvent,
}
use kaysentinel.Builder.Errors.{EventId}
use kaysentinel.Builder.Ir.{
  CanonicalKey, key_ord, ObservedTransition, Timeline, TransactionBucket, TimelineVariant,
}
use kaysentinel.Builder.Partition.{record_payload, event_id_of}

-- An observation of a history, if the test holds.
abbrev pub observe : {T : Type 0} → Bool → T → T → EventId → List (ObservedTransition T)
observe hit before after id =
    if hit then record { before = before; after = after; event_id = id } ∷ [] else []

-- What one event adds to the history of a balance; so for the others.
abbrev pub balance_seen : Address → EventId → CsePayload → List (ObservedTransition Word)
balance_seen a id (balance_changed p) =
    observe (p.address == a) p.previous_balance p.current_balance id
balance_seen a id _ = []

abbrev pub nonce_seen : Address → EventId → CsePayload → List (ObservedTransition ℕ)
nonce_seen a id (nonce_updated p) = observe (p.address == a) p.previous_nonce p.current_nonce id
nonce_seen a id _ = []

abbrev pub code_seen : Address → EventId → CsePayload → List (ObservedTransition Word)
code_seen a id (code_updated p) =
    observe (p.address == a) p.previous_code_hash p.current_code_hash id
code_seen a id _ = []

abbrev pub storage_seen : Address → Word → EventId → CsePayload → List (ObservedTransition Word)
storage_seen a s id (storage_slot_updated p) =
    if p.address == a then observe (p.slot == s) p.previous_value p.current_value id else []
storage_seen a s id _ = []

abbrev pub transient_seen : Address → Word → EventId → CsePayload → List (ObservedTransition Word)
transient_seen a s id (transient_storage_updated p) =
    if p.address == a then observe (p.slot == s) p.previous_value p.current_value id else []
transient_seen a s id _ = []

-- The history over the events of a transaction.
abbrev pub gather :
    {T : Type 0}
    → (EventId → CsePayload → List (ObservedTransition T))
    → List CanonicalSemanticEvent
    → List (ObservedTransition T)
gather seen [] = []
gather seen (e ∷ es) = seen (event_id_of e) e.payload ++ gather seen es

-- A key is present exactly if its history has an observation.
abbrev pub present :
    {T : Type 0}
    → (Timeline T → TimelineVariant)
    → List (ObservedTransition T)
    → Option TimelineVariant
present c [] = none
present c (o ∷ os) = some (c (record { history = o ∷ os }))

-- The entry that the events ask for at a key.
abbrev pub expected : CanonicalKey → List CanonicalSemanticEvent → Option TimelineVariant
expected (CanonicalKey.balance a) es = present TimelineVariant.balance (gather (balance_seen a) es)
expected (CanonicalKey.nonce a) es = present TimelineVariant.nonce (gather (nonce_seen a) es)
expected (CanonicalKey.code a) es = present TimelineVariant.code (gather (code_seen a) es)
expected (CanonicalKey.storage a s) es =
    present TimelineVariant.storage (gather (storage_seen a s) es)
expected (CanonicalKey.transient a s) es =
    present TimelineVariant.transient (gather (transient_seen a s) es)

-- The events of one transaction, recorded in turn.
unfoldable pub record_all : List CanonicalSemanticEvent → TransactionBucket → TransactionBucket
record_all [] b = b
record_all (e ∷ es) b = record_all es (record_payload e.context (event_id_of e) e.payload b)
