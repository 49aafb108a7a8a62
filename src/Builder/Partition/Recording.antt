-- ===== src/Builder/Partition/Recording.antt =====
-- What `record_payload` does to the entry at a key, against the key's history.
use Prim.Native.Nat.Ordering.{eq}
use kaysentinel.Base.{ℕ, ◌≡◌, ◌≢◌, refl, true, some, List, [], ◌∷◌, ◌++◌, append-nil, arith}
use kaysentinel.Base.Classes.{
  Ord, nat_eq, bytes_eq, bytes_ord, bytes_cmp, bytes_beq_iff, bytes_eq_of_cmp, bytes_cmp_refl,
}
use kaysentinel.Base.BTreeMap.{BTreeMap, get, update_entry, unwrap_or}
use kaysentinel.Base.BTreeMap.Laws.{get-insert}
use kaysentinel.Cse.{
  Word, Address, ExecutionContext, CsePayload, balance_changed, storage_slot_updated,
  transient_storage_updated, nonce_updated, code_updated, BalanceChanged, NonceUpdated, CodeUpdated,
  StorageSlotUpdated, TransientStorageUpdated,
}
use kaysentinel.Builder.Errors.{EventId}
use kaysentinel.Builder.Ir.{
  CanonicalKey, key_ord, key_cmp, ObservedTransition, new_timeline, push, TransactionBucket,
  TimelineVariant,
}
use kaysentinel.Builder.Partition.{
  record_payload, push_balance, push_nonce, push_code, push_storage, push_transient,
}
use kaysentinel.Builder.Partition.Histories.{observe, balance_seen, nonce_seen, present}

pub get-update_entry :
    {K V : Type 0} ⦃o : Ord K⦄ (q k : K) (d : V) (f : V → V) (m : BTreeMap K V)
    → get q (update_entry k d f m)
      ≡ (elim (o.cmp q k) [ eq ↦ some (f (unwrap_or d (get k m))) | _ ↦ get q m ])
unfolding update_entry
get-update_entry q k d f m = get-insert q k (f (unwrap_or d (get k m))) m

-- An update at one key leaves the others alone.
pub elsewhere :
    (q k : CanonicalKey) (d : TimelineVariant) (f : TimelineVariant → TimelineVariant)
    (m : BTreeMap CanonicalKey TimelineVariant)
    → key_cmp q k ≢ eq
    → get q (update_entry k d f m) ≡ get q m
elsewhere q k d f m h = ground (arith, get-update_entry q k d f m)

-- Appending to an entry, or to a fresh one where there is none.
balance_push :
    (id : EventId) (p : BalanceChanged) (h : List (ObservedTransition Word))
    → some (
        push_balance id p
          (unwrap_or (TimelineVariant.balance new_timeline) (present TimelineVariant.balance h)))
      ≡ present TimelineVariant.balance (h ++ observe true p.previous_balance p.current_balance id)
unfolding push_balance push
balance_push id p [] = refl
balance_push id p (o ∷ os) = refl

nonce_push :
    (id : EventId) (p : NonceUpdated) (h : List (ObservedTransition ℕ))
    → some (
        push_nonce id p
          (unwrap_or (TimelineVariant.nonce new_timeline) (present TimelineVariant.nonce h)))
      ≡ present TimelineVariant.nonce (h ++ observe true p.previous_nonce p.current_nonce id)
unfolding push_nonce push
nonce_push id p [] = refl
nonce_push id p (o ∷ os) = refl

pub code_push :
    (id : EventId) (p : CodeUpdated) (h : List (ObservedTransition Word))
    → some (
        push_code id p
          (unwrap_or (TimelineVariant.code new_timeline) (present TimelineVariant.code h)))
      ≡ present TimelineVariant.code (h ++ observe true p.previous_code_hash p.current_code_hash id)
unfolding push_code push
code_push id p [] = refl
code_push id p (o ∷ os) = refl

pub storage_push :
    (id : EventId) (p : StorageSlotUpdated) (h : List (ObservedTransition Word))
    → some (
        push_storage id p
          (unwrap_or (TimelineVariant.storage new_timeline) (present TimelineVariant.storage h)))
      ≡ present TimelineVariant.storage (h ++ observe true p.previous_value p.current_value id)
unfolding push_storage push
storage_push id p [] = refl
storage_push id p (o ∷ os) = refl

pub transient_push :
    (id : EventId) (p : TransientStorageUpdated) (h : List (ObservedTransition Word))
    → some (
        push_transient id p (
          unwrap_or (TimelineVariant.transient new_timeline) (present TimelineVariant.transient h)))
      ≡ present TimelineVariant.transient (h ++ observe true p.previous_value p.current_value id)
unfolding push_transient push
transient_push id p [] = refl
transient_push id p (o ∷ os) = refl

pub balance_step :
    (a : Address) (ctx : ExecutionContext) (id : EventId) (p : CsePayload) (b : TransactionBucket)
    (h : List (ObservedTransition Word))
    → get (CanonicalKey.balance a) b.state_tables ≡ present TimelineVariant.balance h
    → get (CanonicalKey.balance a) (record_payload ctx id p b).state_tables
      ≡ present TimelineVariant.balance (h ++ balance_seen a id p)
unfolding record_payload key_cmp bytes_cmp
balance_step a ctx id (balance_changed p) b h e = ground (
  arith,
  append-nil h,
  get-update_entry (CanonicalKey.balance a) (CanonicalKey.balance p.address)
      (TimelineVariant.balance new_timeline) (push_balance id p) b.state_tables,
  balance_push id p h,
  bytes_eq_of_cmp a p.address,
  bytes_beq_iff p.address a,
  bytes_cmp_refl a,
)
balance_step a ctx id (nonce_updated p) b h e = ground (
  arith,
  append-nil h,
  elsewhere (CanonicalKey.balance a) (CanonicalKey.nonce p.address)
      (TimelineVariant.nonce new_timeline) (push_nonce id p) b.state_tables,
)
balance_step a ctx id (code_updated p) b h e = ground (
  arith,
  append-nil h,
  elsewhere (CanonicalKey.balance a) (CanonicalKey.code p.address)
      (TimelineVariant.code new_timeline) (push_code id p) b.state_tables,
)
balance_step a ctx id (storage_slot_updated p) b h e = ground (
  arith,
  append-nil h,
  elsewhere (CanonicalKey.balance a) (CanonicalKey.storage p.address p.slot)
      (TimelineVariant.storage new_timeline) (push_storage id p) b.state_tables,
)
balance_step a ctx id (transient_storage_updated p) b h e = ground (
  arith,
  append-nil h,
  elsewhere (CanonicalKey.balance a) (CanonicalKey.transient p.address p.slot)
      (TimelineVariant.transient new_timeline) (push_transient id p) b.state_tables,
)
balance_step a ctx id p b h e = ground (arith, append-nil h)

pub nonce_step :
    (a : Address) (ctx : ExecutionContext) (id : EventId) (p : CsePayload) (b : TransactionBucket)
    (h : List (ObservedTransition ℕ))
    → get (CanonicalKey.nonce a) b.state_tables ≡ present TimelineVariant.nonce h
    → get (CanonicalKey.nonce a) (record_payload ctx id p b).state_tables
      ≡ present TimelineVariant.nonce (h ++ nonce_seen a id p)
unfolding record_payload key_cmp bytes_cmp
nonce_step a ctx id (balance_changed p) b h e = ground (
  arith,
  append-nil h,
  elsewhere (CanonicalKey.nonce a) (CanonicalKey.balance p.address)
      (TimelineVariant.balance new_timeline) (push_balance id p) b.state_tables,
)
nonce_step a ctx id (nonce_updated p) b h e = ground (
  arith,
  append-nil h,
  get-update_entry (CanonicalKey.nonce a) (CanonicalKey.nonce p.address)
      (TimelineVariant.nonce new_timeline) (push_nonce id p) b.state_tables,
  nonce_push id p h,
  bytes_eq_of_cmp a p.address,
  bytes_beq_iff p.address a,
  bytes_cmp_refl a,
)
nonce_step a ctx id (code_updated p) b h e = ground (
  arith,
  append-nil h,
  elsewhere (CanonicalKey.nonce a) (CanonicalKey.code p.address) (TimelineVariant.code new_timeline)
      (push_code id p) b.state_tables,
)
nonce_step a ctx id (storage_slot_updated p) b h e = ground (
  arith,
  append-nil h,
  elsewhere (CanonicalKey.nonce a) (CanonicalKey.storage p.address p.slot)
      (TimelineVariant.storage new_timeline) (push_storage id p) b.state_tables,
)
nonce_step a ctx id (transient_storage_updated p) b h e = ground (
  arith,
  append-nil h,
  elsewhere (CanonicalKey.nonce a) (CanonicalKey.transient p.address p.slot)
      (TimelineVariant.transient new_timeline) (push_transient id p) b.state_tables,
)
nonce_step a ctx id p b h e = ground (arith, append-nil h)
