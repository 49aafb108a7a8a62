-- ===== src/Builder/Partition/Tables.antt =====
-- What the tables of a bucket hold after the events of a transaction.
use kaysentinel.Base.{ℕ, ◌≡◌, refl, ap, ◌∙◌, List, [], ◌∷◌, ◌++◌, append-nil, append_assoc}
use kaysentinel.Base.Classes.{nat_eq, bytes_eq, bytes_ord}
use kaysentinel.Base.BTreeMap.{get}
use kaysentinel.Cse.{Word, Address, ExecutionContext, CanonicalSemanticEvent}
use kaysentinel.Builder.Ir.{
  CanonicalKey, key_ord, ObservedTransition, TransactionBucket, TimelineVariant,
}
use kaysentinel.Builder.Partition.{open_bucket, record_payload, event_id_of}
use kaysentinel.Builder.Partition.Histories.{
  balance_seen, nonce_seen, code_seen, storage_seen, transient_seen, gather, present, expected,
  record_all,
}
use kaysentinel.Builder.Partition.Slots.{code_step, storage_step, transient_step}
use kaysentinel.Builder.Partition.Recording.{balance_step, nonce_step}

balance_all :
    (a : Address) (es : List CanonicalSemanticEvent) (b : TransactionBucket)
    (h : List (ObservedTransition Word))
    → get (CanonicalKey.balance a) b.state_tables ≡ present TimelineVariant.balance h
    → get (CanonicalKey.balance a) (record_all es b).state_tables
      ≡ present TimelineVariant.balance (h ++ gather (balance_seen a) es)
unfolding record_all
balance_all a [] b h e = rw (append-nil h) e
balance_all a (e ∷ es) b h q =
    balance_all a es (record_payload e.context (event_id_of e) e.payload b)
      (h ++ balance_seen a (event_id_of e) e.payload)
      (balance_step a e.context (event_id_of e) e.payload b h q)
    ∙ ap (present TimelineVariant.balance)
        (append_assoc h (balance_seen a (event_id_of e) e.payload) (gather (balance_seen a) es))

nonce_all :
    (a : Address) (es : List CanonicalSemanticEvent) (b : TransactionBucket)
    (h : List (ObservedTransition ℕ))
    → get (CanonicalKey.nonce a) b.state_tables ≡ present TimelineVariant.nonce h
    → get (CanonicalKey.nonce a) (record_all es b).state_tables
      ≡ present TimelineVariant.nonce (h ++ gather (nonce_seen a) es)
unfolding record_all
nonce_all a [] b h e = rw (append-nil h) e
nonce_all a (e ∷ es) b h q =
    nonce_all a es (record_payload e.context (event_id_of e) e.payload b)
      (h ++ nonce_seen a (event_id_of e) e.payload)
      (nonce_step a e.context (event_id_of e) e.payload b h q)
    ∙ ap (present TimelineVariant.nonce)
        (append_assoc h (nonce_seen a (event_id_of e) e.payload) (gather (nonce_seen a) es))

code_all :
    (a : Address) (es : List CanonicalSemanticEvent) (b : TransactionBucket)
    (h : List (ObservedTransition Word))
    → get (CanonicalKey.code a) b.state_tables ≡ present TimelineVariant.code h
    → get (CanonicalKey.code a) (record_all es b).state_tables
      ≡ present TimelineVariant.code (h ++ gather (code_seen a) es)
unfolding record_all
code_all a [] b h e = rw (append-nil h) e
code_all a (e ∷ es) b h q =
    code_all a es (record_payload e.context (event_id_of e) e.payload b)
      (h ++ code_seen a (event_id_of e) e.payload)
      (code_step a e.context (event_id_of e) e.payload b h q)
    ∙ ap (present TimelineVariant.code)
        (append_assoc h (code_seen a (event_id_of e) e.payload) (gather (code_seen a) es))

storage_all :
    (a : Address) (s : Word) (es : List CanonicalSemanticEvent) (b : TransactionBucket)
    (h : List (ObservedTransition Word))
    → get (CanonicalKey.storage a s) b.state_tables ≡ present TimelineVariant.storage h
    → get (CanonicalKey.storage a s) (record_all es b).state_tables
      ≡ present TimelineVariant.storage (h ++ gather (storage_seen a s) es)
unfolding record_all
storage_all a s [] b h e = rw (append-nil h) e
storage_all a s (e ∷ es) b h q =
    storage_all a s es (record_payload e.context (event_id_of e) e.payload b)
      (h ++ storage_seen a s (event_id_of e) e.payload)
      (storage_step a s e.context (event_id_of e) e.payload b h q)
    ∙ ap (present TimelineVariant.storage)
        (append_assoc h (storage_seen a s (event_id_of e) e.payload) (gather (storage_seen a s) es))

transient_all :
    (a : Address) (s : Word) (es : List CanonicalSemanticEvent) (b : TransactionBucket)
    (h : List (ObservedTransition Word))
    → get (CanonicalKey.transient a s) b.state_tables ≡ present TimelineVariant.transient h
    → get (CanonicalKey.transient a s) (record_all es b).state_tables
      ≡ present TimelineVariant.transient (h ++ gather (transient_seen a s) es)
unfolding record_all
transient_all a s [] b h e = rw (append-nil h) e
transient_all a s (e ∷ es) b h q =
    transient_all a s es (record_payload e.context (event_id_of e) e.payload b)
      (h ++ transient_seen a s (event_id_of e) e.payload)
      (transient_step a s e.context (event_id_of e) e.payload b h q)
    ∙ ap (present TimelineVariant.transient) (
        append_assoc h (transient_seen a s (event_id_of e) e.payload)
          (gather (transient_seen a s) es))

-- After any events of a transaction, its state table holds at each key the timeline of exactly the
-- events that touch the key, in order, and no entry if there is none.
pub get-record_all :
    (ctx : ExecutionContext) (k : CanonicalKey) (es : List CanonicalSemanticEvent)
    → get k (record_all es (open_bucket ctx)).state_tables ≡ expected k es
unfolding open_bucket get
get-record_all ctx (CanonicalKey.balance a) es = balance_all a es (open_bucket ctx) [] refl
get-record_all ctx (CanonicalKey.nonce a) es = nonce_all a es (open_bucket ctx) [] refl
get-record_all ctx (CanonicalKey.code a) es = code_all a es (open_bucket ctx) [] refl
get-record_all ctx (CanonicalKey.storage a s) es = storage_all a s es (open_bucket ctx) [] refl
get-record_all ctx (CanonicalKey.transient a s) es = transient_all a s es (open_bucket ctx) [] refl
