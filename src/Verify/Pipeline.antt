-- ===== src/Verify/Pipeline.antt =====
-- The pipeline that runtime/verify/tests/full_pipeline.rs runs for one transaction: partition, reduction,
-- certificates, storage roots, and the replay of the payloads against them. Here is what both ends of it
-- are compared with: the histories of the events.
pub mod Endings
pub mod Touched
pub mod Slots
pub mod Tables
pub mod Streams
pub mod Certified
pub mod Agrees
pub mod Accepts
use kaysentinel.Base.{Bool, false, ◌||◌, Option, none, some, List, [], ◌∷◌, map}
use kaysentinel.Base.Classes.{◌==◌, bytes_eq}
use kaysentinel.Cse.{
  Address, CsePayload, balance_changed, nonce_updated, code_updated, storage_slot_updated,
  transient_storage_updated, contract_created, contract_destroyed, CanonicalSemanticEvent,
}
use kaysentinel.Builder.Ir.{ObservedTransition}
use kaysentinel.Builder.Ir.Lineage.{last_after}

abbrev pub payloads : List CanonicalSemanticEvent → List CsePayload
payloads [] = []
payloads (e ∷ es) = e.payload ∷ payloads es

-- The value where a history ends, if it has an observation.
abbrev pub ending : {T : Type 0} → List (ObservedTransition T) → Option T
ending [] = none
ending (o ∷ os) = some (last_after o.after os)

abbrev pub any_event : (CsePayload → Bool) → List CanonicalSemanticEvent → Bool
any_event test [] = false
any_event test (e ∷ es) = test e.payload || any_event test es

-- An update of the account's balance, nonce, code or storage.
abbrev pub updates_state : Address → CsePayload → Bool
updates_state a (balance_changed p) = p.address == a
updates_state a (nonce_updated p) = p.address == a
updates_state a (code_updated p) = p.address == a
updates_state a (storage_slot_updated p) = p.address == a
updates_state a _ = false

-- The creation or destruction of the account.
abbrev pub changes_lifecycle : Address → CsePayload → Bool
changes_lifecycle a (contract_created p) = p.address == a
changes_lifecycle a (contract_destroyed p) = p.address == a
changes_lifecycle a _ = false

-- A write of the account's transient storage.
abbrev pub writes_transient : Address → CsePayload → Bool
writes_transient a (transient_storage_updated p) = p.address == a
writes_transient a _ = false

-- The replay follows the account of the payload.
abbrev pub replays : Address → CsePayload → Bool
replays a p = updates_state a p || changes_lifecycle a p

-- The state table has an entry of the account for the payload.
abbrev pub projects : Address → CsePayload → Bool
projects a p = updates_state a p || writes_transient a p
