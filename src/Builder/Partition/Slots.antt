-- ===== src/Builder/Partition/Slots.antt =====
-- The same of code hashes and storage slots.
use kaysentinel.Base.{◌≡◌, List, ◌++◌, append-nil, arith}
use kaysentinel.Base.Classes.{
  nat_eq, bytes_eq, bytes_ord, bytes_cmp, bytes_beq_iff, bytes_eq_of_cmp, bytes_cmp_refl,
}
use kaysentinel.Base.BTreeMap.{get}
use kaysentinel.Cse.{
  Word, Address, ExecutionContext, CsePayload, balance_changed, storage_slot_updated,
  transient_storage_updated, nonce_updated, code_updated,
}
use kaysentinel.Builder.Errors.{EventId}
use kaysentinel.Builder.Ir.{
  CanonicalKey, key_ord, key_cmp, ObservedTransition, new_timeline, TransactionBucket,
  TimelineVariant,
}
use kaysentinel.Builder.Partition.{
  record_payload, push_balance, push_nonce, push_code, push_storage, push_transient,
}
use kaysentinel.Builder.Partition.Histories.{code_seen, storage_seen, transient_seen, present}
use kaysentinel.Builder.Partition.Recording.{
  get-update_entry, elsewhere, code_push, storage_push, transient_push,
}

pub code_step :
    (a : Address) (ctx : ExecutionContext) (id : EventId) (p : CsePayload) (b : TransactionBucket)
    (h : List (ObservedTransition Word))
    → get (CanonicalKey.code a) b.state_tables ≡ present TimelineVariant.code h
    → get (CanonicalKey.code a) (record_payload ctx id p b).state_tables
      ≡ present TimelineVariant.code (h ++ code_seen a id p)
unfolding record_payload key_cmp bytes_cmp
code_step a ctx id (balance_changed p) b h e = ground (
  arith,
  append-nil h,
  elsewhere (CanonicalKey.code a) (CanonicalKey.balance p.address)
      (TimelineVariant.balance new_timeline) (push_balance id p) b.state_tables,
)
code_step a ctx id (nonce_updated p) b h e = ground (
  arith,
  append-nil h,
  elsewhere (CanonicalKey.code a) (CanonicalKey.nonce p.address)
      (TimelineVariant.nonce new_timeline) (push_nonce id p) b.state_tables,
)
code_step a ctx id (code_updated p) b h e = ground (
  arith,
  append-nil h,
  get-update_entry (CanonicalKey.code a) (CanonicalKey.code p.address)
      (TimelineVariant.code new_timeline) (push_code id p) b.state_tables,
  code_push id p h,
  bytes_eq_of_cmp a p.address,
  bytes_beq_iff p.address a,
  bytes_cmp_refl a,
)
code_step a ctx id (storage_slot_updated p) b h e = ground (
  arith,
  append-nil h,
  elsewhere (CanonicalKey.code a) (CanonicalKey.storage p.address p.slot)
      (TimelineVariant.storage new_timeline) (push_storage id p) b.state_tables,
)
code_step a ctx id (transient_storage_updated p) b h e = ground (
  arith,
  append-nil h,
  elsewhere (CanonicalKey.code a) (CanonicalKey.transient p.address p.slot)
      (TimelineVariant.transient new_timeline) (push_transient id p) b.state_tables,
)
code_step a ctx id p b h e = ground (arith, append-nil h)

pub storage_step :
    (a : Address) (s : Word) (ctx : ExecutionContext) (id : EventId) (p : CsePayload)
    (b : TransactionBucket) (h : List (ObservedTransition Word))
    → get (CanonicalKey.storage a s) b.state_tables ≡ present TimelineVariant.storage h
    → get (CanonicalKey.storage a s) (record_payload ctx id p b).state_tables
      ≡ present TimelineVariant.storage (h ++ storage_seen a s id p)
unfolding record_payload key_cmp bytes_cmp
storage_step a s ctx id (balance_changed p) b h e = ground (
  arith,
  append-nil h,
  elsewhere (CanonicalKey.storage a s) (CanonicalKey.balance p.address)
      (TimelineVariant.balance new_timeline) (push_balance id p) b.state_tables,
)
storage_step a s ctx id (nonce_updated p) b h e = ground (
  arith,
  append-nil h,
  elsewhere (CanonicalKey.storage a s) (CanonicalKey.nonce p.address)
      (TimelineVariant.nonce new_timeline) (push_nonce id p) b.state_tables,
)
storage_step a s ctx id (code_updated p) b h e = ground (
  arith,
  append-nil h,
  elsewhere (CanonicalKey.storage a s) (CanonicalKey.code p.address)
      (TimelineVariant.code new_timeline) (push_code id p) b.state_tables,
)
storage_step a s ctx id (storage_slot_updated p) b h e = ground (
  arith,
  append-nil h,
  get-update_entry (CanonicalKey.storage a s) (CanonicalKey.storage p.address p.slot)
      (TimelineVariant.storage new_timeline) (push_storage id p) b.state_tables,
  storage_push id p h,
  bytes_eq_of_cmp a p.address,
  bytes_beq_iff p.address a,
  bytes_cmp_refl a,
  bytes_eq_of_cmp s p.slot,
  bytes_beq_iff p.slot s,
  bytes_cmp_refl s,
)
storage_step a s ctx id (transient_storage_updated p) b h e = ground (
  arith,
  append-nil h,
  elsewhere (CanonicalKey.storage a s) (CanonicalKey.transient p.address p.slot)
      (TimelineVariant.transient new_timeline) (push_transient id p) b.state_tables,
)
storage_step a s ctx id p b h e = ground (arith, append-nil h)

pub transient_step :
    (a : Address) (s : Word) (ctx : ExecutionContext) (id : EventId) (p : CsePayload)
    (b : TransactionBucket) (h : List (ObservedTransition Word))
    → get (CanonicalKey.transient a s) b.state_tables ≡ present TimelineVariant.transient h
    → get (CanonicalKey.transient a s) (record_payload ctx id p b).state_tables
      ≡ present TimelineVariant.transient (h ++ transient_seen a s id p)
unfolding record_payload key_cmp bytes_cmp
transient_step a s ctx id (balance_changed p) b h e = ground (
  arith,
  append-nil h,
  elsewhere (CanonicalKey.transient a s) (CanonicalKey.balance p.address)
      (TimelineVariant.balance new_timeline) (push_balance id p) b.state_tables,
)
transient_step a s ctx id (nonce_updated p) b h e = ground (
  arith,
  append-nil h,
  elsewhere (CanonicalKey.transient a s) (CanonicalKey.nonce p.address)
      (TimelineVariant.nonce new_timeline) (push_nonce id p) b.state_tables,
)
transient_step a s ctx id (code_updated p) b h e = ground (
  arith,
  append-nil h,
  elsewhere (CanonicalKey.transient a s) (CanonicalKey.code p.address)
      (TimelineVariant.code new_timeline) (push_code id p) b.state_tables,
)
transient_step a s ctx id (storage_slot_updated p) b h e = ground (
  arith,
  append-nil h,
  elsewhere (CanonicalKey.transient a s) (CanonicalKey.storage p.address p.slot)
      (TimelineVariant.storage new_timeline) (push_storage id p) b.state_tables,
)
transient_step a s ctx id (transient_storage_updated p) b h e = ground (
  arith,
  append-nil h,
  get-update_entry (CanonicalKey.transient a s) (CanonicalKey.transient p.address p.slot)
      (TimelineVariant.transient new_timeline) (push_transient id p) b.state_tables,
  transient_push id p h,
  bytes_eq_of_cmp a p.address,
  bytes_beq_iff p.address a,
  bytes_cmp_refl a,
  bytes_eq_of_cmp s p.slot,
  bytes_beq_iff p.slot s,
  bytes_cmp_refl s,
)
transient_step a s ctx id p b h e = ground (arith, append-nil h)
