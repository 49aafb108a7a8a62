-- ===== src/Verify/Pipeline/Slots.antt =====
-- The storage of a replayed account is the storage that the table ends with.
use kaysentinel.Base.{List, [], ◌∷◌, All, Option-cases, inl, inr}
use kaysentinel.Base.Classes.{bytes_eq, bytes_ord}
use kaysentinel.Base.BTreeMap.{BTreeMap, get, insert, update_entry, unwrap_or, IsSorted}
use kaysentinel.Base.BTreeMap.Laws.{All-insert, All_of_get, insert-IsSorted}
use kaysentinel.Cse.{
  Address, Word, CsePayload, balance_changed, nonce_updated, code_updated, storage_slot_updated,
  contract_created, contract_destroyed,
}
use kaysentinel.Builder.Ir.{CanonicalKey, key_ord, ReducedVariant}
use kaysentinel.Builder.Lifecycle.StorageRoot.{note_slot, note_slots}
use kaysentinel.Builder.Lifecycle.StorageRoot.Resolved.{slots_of}
use kaysentinel.Verify.{AccountState, Replay, account, mutate, touch, replay_payload, replay_from}

-- Every account's storage has ascending slots.
abbrev pub HasSortedStorage : BTreeMap Address AccountState → Type 0
HasSortedStorage state = All (λ e. IsSorted e.1.storage) state

account-IsSorted :
    (a : Address) (state : BTreeMap Address AccountState)
    → HasSortedStorage state
    → IsSorted (account a state).storage
unfolding account
account-IsSorted a state h = elim (Option-cases (get a state)) [
  | inl absent ↦ rw absent tt
  | inr (s, there) ↦ rw there (All_of_get (λ e. IsSorted e.1.storage) a s state h there)
]

written-HasSortedStorage :
    (a : Address) (s : AccountState) (state : BTreeMap Address AccountState)
    → IsSorted s.storage
    → HasSortedStorage state
    → HasSortedStorage (insert a s state)
written-HasSortedStorage a s state w h = All-insert (λ e. IsSorted e.1.storage) a s state w h

payload-HasSortedStorage :
    (p : CsePayload) (r : Replay)
    → HasSortedStorage r.state
    → HasSortedStorage (replay_payload p r).state
unfolding replay_payload mutate touch
payload-HasSortedStorage (balance_changed p) r h =
    written-HasSortedStorage p.address _ r.state (account-IsSorted p.address r.state h) h
payload-HasSortedStorage (nonce_updated p) r h =
    written-HasSortedStorage p.address _ r.state (account-IsSorted p.address r.state h) h
payload-HasSortedStorage (code_updated p) r h =
    written-HasSortedStorage p.address _ r.state (account-IsSorted p.address r.state h) h
payload-HasSortedStorage (storage_slot_updated p) r h =
    written-HasSortedStorage p.address _ r.state
      (insert-IsSorted p.slot p.current_value (account p.address r.state).storage
        (account-IsSorted p.address r.state h))
      h
payload-HasSortedStorage (contract_created p) r h =
    written-HasSortedStorage p.address _ r.state (account-IsSorted p.address r.state h) h
payload-HasSortedStorage (contract_destroyed p) r h =
    written-HasSortedStorage p.address _ r.state (account-IsSorted p.address r.state h) h
payload-HasSortedStorage p r h = h

pub replay_from-HasSortedStorage :
    (r : Replay) (ps : List CsePayload)
    → HasSortedStorage r.state
    → HasSortedStorage (replay_from r ps).state
unfolding replay_from
replay_from-HasSortedStorage r [] h = h
replay_from-HasSortedStorage r (p ∷ ps) h =
    replay_from-HasSortedStorage (replay_payload p r) ps (payload-HasSortedStorage p r h)

-- The slots that are gathered from a table ascend.
abbrev AreSorted : BTreeMap Address (BTreeMap Word Word) → Type 0
AreSorted m = All (λ e. IsSorted e.1) m

slots-IsSorted :
    (a : Address) (m : BTreeMap Address (BTreeMap Word Word))
    → AreSorted m
    → IsSorted (unwrap_or [] (get a m))
slots-IsSorted a m h = elim (Option-cases (get a m)) [
  | inl absent ↦ rw absent tt
  | inr (s, there) ↦ rw there (All_of_get (λ e. IsSorted e.1) a s m h there)
]

note_slot-AreSorted :
    (k : CanonicalKey) (v : ReducedVariant) (m : BTreeMap Address (BTreeMap Word Word))
    → AreSorted m
    → AreSorted (note_slot k v m)
unfolding note_slot update_entry
note_slot-AreSorted (CanonicalKey.storage a s) (ReducedVariant.storage t) m h =
    All-insert (λ e. IsSorted e.1) a _ m (insert-IsSorted s t.terminal _ (slots-IsSorted a m h)) h
note_slot-AreSorted (CanonicalKey.storage a s) v m h = h
note_slot-AreSorted k v m h = h

note_slots-AreSorted :
    (m : BTreeMap Address (BTreeMap Word Word)) (table : BTreeMap CanonicalKey ReducedVariant)
    → AreSorted m
    → AreSorted (note_slots m table)
unfolding note_slots
note_slots-AreSorted m [] h = h
note_slots-AreSorted m ((k, v) ∷ table) h =
    note_slots-AreSorted (note_slot k v m) table (note_slot-AreSorted k v m h)

pub slots_of-IsSorted :
    (table : BTreeMap CanonicalKey ReducedVariant) (a : Address) → IsSorted (slots_of table a)
unfolding slots_of
slots_of-IsSorted table a =
    slots-IsSorted a (note_slots [] table) (note_slots-AreSorted [] table tt)
