-- ===== src/Verify/Pipeline/Endings.antt =====
-- The last values that a replay finds are the ends of the histories that the builder gathers.
use kaysentinel.Base.{ℕ, ◌≡◌, refl, sym, ◌∙◌, Option, none, some, List, [], ◌∷◌, ◌++◌, arith}
use kaysentinel.Base.Classes.{bytes_eq, bytes_beq_comm}
use kaysentinel.Base.BTreeMap.{unwrap_or}
use kaysentinel.Cse.{
  Address, Word, CsePayload, balance_changed, nonce_updated, code_updated, storage_slot_updated,
  CanonicalSemanticEvent,
}
use kaysentinel.Builder.Errors.{EventId}
use kaysentinel.Builder.Lifecycle.Certificate.{zero_word}
use kaysentinel.Builder.Ir.{ObservedTransition}
use kaysentinel.Builder.Ir.Lineage.{last_after}
use kaysentinel.Builder.Partition.{event_id_of}
use kaysentinel.Builder.Partition.Histories.{
  gather, balance_seen, nonce_seen, code_seen, storage_seen,
}
use kaysentinel.Verify.Replayed.{
  next_nonce, next_balance, next_code, next_slot, last_value, last_nonce, last_balance, last_code,
  last_slot,
}
use kaysentinel.Verify.Pipeline.{payloads, ending}

last_after-ending :
    {T : Type 0} (t : T) (h : List (ObservedTransition T)) → last_after t h ≡ unwrap_or t (ending h)
last_after-ending t [] = refl
last_after-ending t (o ∷ os) = refl

-- A fold that steps as a history does ends where the history ends.
module _ {T : Type 0} (seen : EventId → CsePayload → List (ObservedTransition T))
    (next : CsePayload → T → T)
    (steps : (id : EventId) (p : CsePayload) (t : T) (rest : List (ObservedTransition T))
      → last_after t (seen id p ++ rest) ≡ last_after (next p t) rest) where
  last_value-gather :
      (t : T) (es : List CanonicalSemanticEvent)
      → last_value next t (payloads es) ≡ last_after t (gather seen es)
  last_value-gather t [] = refl
  last_value-gather t (e ∷ es) =
      last_value-gather (next e.payload t) es
      ∙ sym (steps (event_id_of e) e.payload t (gather seen es))

  last_value-ending :
      (t : T) (es : List CanonicalSemanticEvent)
      → last_value next t (payloads es) ≡ unwrap_or t (ending (gather seen es))
  last_value-ending t es = last_value-gather t es ∙ last_after-ending t (gather seen es)

module _ (a : Address) where
  nonce_steps :
      (id : EventId) (p : CsePayload) (n : ℕ) (rest : List (ObservedTransition ℕ))
      → last_after n (nonce_seen a id p ++ rest) ≡ last_after (next_nonce a p n) rest
  nonce_steps id (nonce_updated p) n rest = ground (arith, bytes_beq_comm a p.address)
  nonce_steps id p n rest = refl

  balance_steps :
      (id : EventId) (p : CsePayload) (n : Word) (rest : List (ObservedTransition Word))
      → last_after n (balance_seen a id p ++ rest) ≡ last_after (next_balance a p n) rest
  balance_steps id (balance_changed p) n rest = ground (arith, bytes_beq_comm a p.address)
  balance_steps id p n rest = refl

  code_steps :
      (id : EventId) (p : CsePayload) (n : Word) (rest : List (ObservedTransition Word))
      → last_after n (code_seen a id p ++ rest) ≡ last_after (next_code a p n) rest
  code_steps id (code_updated p) n rest = ground (arith, bytes_beq_comm a p.address)
  code_steps id p n rest = refl

  pub last_nonce-ending :
      (es : List CanonicalSemanticEvent)
      → last_nonce a (payloads es) ≡ unwrap_or 0 (ending (gather (nonce_seen a) es))
  last_nonce-ending es = last_value-ending (nonce_seen a) (next_nonce a) nonce_steps 0 es

  pub last_balance-ending :
      (es : List CanonicalSemanticEvent)
      → last_balance a (payloads es) ≡ unwrap_or zero_word (ending (gather (balance_seen a) es))
  last_balance-ending es =
      last_value-ending (balance_seen a) (next_balance a) balance_steps zero_word es

  pub last_code-ending :
      (es : List CanonicalSemanticEvent)
      → last_code a (payloads es) ≡ unwrap_or zero_word (ending (gather (code_seen a) es))
  last_code-ending es = last_value-ending (code_seen a) (next_code a) code_steps zero_word es

-- The value of a slot, if there is one, after a history.
abbrev last_written : Option Word → List (ObservedTransition Word) → Option Word
last_written w [] = w
last_written w (o ∷ os) = last_written (some o.after) os

last_written-ending :
    (w : Word) (os : List (ObservedTransition Word))
    → last_written (some w) os ≡ some (last_after w os)
last_written-ending w [] = refl
last_written-ending w (o ∷ os) = last_written-ending o.after os

module _ (a : Address) (slot : Word) where
  slot_steps :
      (id : EventId) (p : CsePayload) (w : Option Word) (rest : List (ObservedTransition Word))
      → last_written w (storage_seen a slot id p ++ rest) ≡ last_written (next_slot a slot p w) rest
  slot_steps id (storage_slot_updated p) w rest =
      ground (arith, bytes_beq_comm a p.address, bytes_beq_comm slot p.slot)
  slot_steps id p w rest = refl

  slots_after :
      (w : Option Word) (es : List CanonicalSemanticEvent)
      → last_value (next_slot a slot) w (payloads es)
        ≡ last_written w (gather (storage_seen a slot) es)
  slots_after w [] = refl
  slots_after w (e ∷ es) =
      slots_after (next_slot a slot e.payload w) es
      ∙ sym (slot_steps (event_id_of e) e.payload w (gather (storage_seen a slot) es))

  pub last_slot-ending :
      (es : List CanonicalSemanticEvent)
      → last_slot a slot (payloads es) ≡ ending (gather (storage_seen a slot) es)
  last_slot-ending es = slots_after none es ∙ written (gather (storage_seen a slot) es)
    where
      written : (h : List (ObservedTransition Word)) → last_written none h ≡ ending h
      written [] = refl
      written (o ∷ os) = last_written-ending o.after os
