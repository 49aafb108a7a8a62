-- ===== src/Bridge/Parse/Events.antt =====
-- Which documents parse, and to what.
use kaysentinel.Base.{
  ◌≡◌, ◌↔◌, refl, subst, inl, inr, Option, none, some, List, [], ◌∷◌, Result, ok, err, arith,
  Bool-cases, Result-cases, if◌then◌else◌,
}
use kaysentinel.Base.Classes.{Bytes, ◌==◌, bytes_eq, bytes_beq, bytes_beq_iff}
use kaysentinel.Hash.{codes}
use kaysentinel.Bridge.Wire.{
  GoEvent, block_start, transaction_start, frame_enter, frame_exit, transaction_end, block_commit,
  balance_mutation, nonce_mutation, code_mutation, storage_mutation, account_created, self_destruct,
}
use kaysentinel.Bridge.Parse.{
  TaggedEvent, Serde, ParseError, parse_as, parse_tagged, parse_all, parse_event_stream,
}

-- The tag of an event, as the Go side names it.
abbrev pub kind_of : GoEvent → Bytes
kind_of (block_start d) = codes "BlockStart"
kind_of (transaction_start d) = codes "TransactionStart"
kind_of (frame_enter d) = codes "FrameEnter"
kind_of (frame_exit d) = codes "FrameExit"
kind_of (transaction_end d) = codes "TransactionEnd"
kind_of block_commit = codes "BlockCommit"
kind_of (balance_mutation d) = codes "BalanceMutation"
kind_of (nonce_mutation d) = codes "NonceMutation"
kind_of (code_mutation d) = codes "CodeMutation"
kind_of (storage_mutation d) = codes "StorageMutation"
kind_of (account_created d) = codes "AccountCreated"
kind_of (self_destruct d) = codes "SelfDestruct"

module _ {Value E : Type 0} (serde : Serde Value E) where
  -- The value reads as the data of the event.
  abbrev pub Reads : Value → GoEvent → Type 0
  Reads v (block_start d) = serde.block_start v ≡ some (ok d)
  Reads v (transaction_start d) = serde.transaction_start v ≡ some (ok d)
  Reads v (frame_enter d) = serde.frame_enter v ≡ some (ok d)
  Reads v (frame_exit d) = serde.frame_exit v ≡ some (ok d)
  Reads v (transaction_end d) = serde.transaction_end v ≡ some (ok d)
  Reads v block_commit = Unit
  Reads v (balance_mutation d) = serde.balance_mutation v ≡ some (ok d)
  Reads v (nonce_mutation d) = serde.nonce_mutation v ≡ some (ok d)
  Reads v (code_mutation d) = serde.code_mutation v ≡ some (ok d)
  Reads v (storage_mutation d) = serde.storage_mutation v ≡ some (ok d)
  Reads v (account_created d) = serde.account_created v ≡ some (ok d)
  Reads v (self_destruct d) = serde.self_destruct v ≡ some (ok d)

  -- The tagged value is the event: its tag, and its data.
  abbrev pub IsEvent : TaggedEvent Value → GoEvent → Type 0
  IsEvent tagged g = (tagged.kind ≡ kind_of g) × Reads tagged.payload g

  -- One event for each tagged value, in order.
  abbrev pub AreEvents : List (TaggedEvent Value) → List GoEvent → Type 0
  AreEvents [] [] = Unit
  AreEvents [] (g ∷ gs) = ⊥
  AreEvents (t ∷ ts) [] = ⊥
  AreEvents (t ∷ ts) (g ∷ gs) = IsEvent t g × AreEvents ts gs

  -- A test that succeeds, and one that goes on.
  on_kind :
      {P : Type 0} (kind name : Bytes) (here later : Option (Result (ParseError E) GoEvent))
      (g : GoEvent)
      → (kind ≡ name → here ≡ some (ok g) → P)
      → (later ≡ some (ok g) → P)
      → (if kind == name then here else later) ≡ some (ok g)
      → P
  on_kind kind name here later g f k h = elim (Bool-cases (kind == name)) [
    | inl same ↦ f ((bytes_beq_iff kind name).0 same) (rw same at h)
    | inr other ↦ k (rw other at h)
  ]

  -- Data that was read makes the event.
  arm :
      {T : Type 0} (event : T → GoEvent) (read : Option (Result E T)) (t : TaggedEvent Value)
      (g : GoEvent)
      → ((d : T) → read ≡ some (ok d) → IsEvent t (event d))
      → parse_as event read ≡ some (ok g)
      → IsEvent t g
  unfolding parse_as
  arm event none t g f h = absurd (ground arith)
  arm event (some (err e)) t g f h = absurd (ground arith)
  arm event (some (ok d)) t g f h = subst (IsEvent t) (ground arith) (f d refl)

  parse_tagged-IsEvent :
      (t : TaggedEvent Value) (g : GoEvent) → parse_tagged serde t ≡ some (ok g) → IsEvent t g
  unfolding parse_tagged
  parse_tagged-IsEvent t g =
      on_kind t.kind (codes "BlockStart") _ _ g
        (λ k. arm block_start (serde.block_start t.payload) t g (λ d r. (k, r)))
        (on_kind t.kind (codes "TransactionStart") _ _ g
          (λ k. arm transaction_start (serde.transaction_start t.payload) t g (λ d r. (k, r)))
          (on_kind t.kind (codes "FrameEnter") _ _ g
            (λ k. arm frame_enter (serde.frame_enter t.payload) t g (λ d r. (k, r)))
            (on_kind t.kind (codes "FrameExit") _ _ g
              (λ k. arm frame_exit (serde.frame_exit t.payload) t g (λ d r. (k, r)))
              (on_kind t.kind (codes "TransactionEnd") _ _ g
                (λ k. arm transaction_end (serde.transaction_end t.payload) t g (λ d r. (k, r)))
                (on_kind t.kind (codes "BlockCommit") _ _ g
                  (λ k e.
                    let same : block_commit ≡ g = ground (arith, e) in
                    subst (IsEvent t) same (k, tt))
                  (on_kind t.kind (codes "BalanceMutation") _ _ g
                    (λ k.
                      arm balance_mutation (serde.balance_mutation t.payload) t g (λ d r. (k, r)))
                    (on_kind t.kind (codes "NonceMutation") _ _ g
                      (λ k. arm nonce_mutation (serde.nonce_mutation t.payload) t g (λ d r. (k, r)))
                      (on_kind t.kind (codes "CodeMutation") _ _ g
                        (λ k. arm code_mutation (serde.code_mutation t.payload) t g (λ d r. (k, r)))
                        (on_kind t.kind (codes "StorageMutation") _ _ g
                          (λ k.
                            arm storage_mutation (serde.storage_mutation t.payload) t g
                              (λ d r. (k, r)))
                          (on_kind t.kind (codes "AccountCreated") _ _ g
                            (λ k.
                              arm account_created (serde.account_created t.payload) t g
                                (λ d r. (k, r)))
                            (on_kind t.kind (codes "SelfDestruct") _ _ g
                              (λ k.
                                arm self_destruct (serde.self_destruct t.payload) t g
                                  (λ d r. (k, r)))
                              (λ h. absurd (ground arith)))))))))))))

  IsEvent-parse_tagged :
      (t : TaggedEvent Value) (g : GoEvent) → IsEvent t g → parse_tagged serde t ≡ some (ok g)
  unfolding parse_tagged parse_as bytes_beq
  IsEvent-parse_tagged t (block_start d) (k, r) = rw (k, r)
  IsEvent-parse_tagged t (transaction_start d) (k, r) = rw (k, r)
  IsEvent-parse_tagged t (frame_enter d) (k, r) = rw (k, r)
  IsEvent-parse_tagged t (frame_exit d) (k, r) = rw (k, r)
  IsEvent-parse_tagged t (transaction_end d) (k, r) = rw (k, r)
  IsEvent-parse_tagged t block_commit (k, r) = rw k
  IsEvent-parse_tagged t (balance_mutation d) (k, r) = rw (k, r)
  IsEvent-parse_tagged t (nonce_mutation d) (k, r) = rw (k, r)
  IsEvent-parse_tagged t (code_mutation d) (k, r) = rw (k, r)
  IsEvent-parse_tagged t (storage_mutation d) (k, r) = rw (k, r)
  IsEvent-parse_tagged t (account_created d) (k, r) = rw (k, r)
  IsEvent-parse_tagged t (self_destruct d) (k, r) = rw (k, r)

  parse_all_iff :
      (ts : List (TaggedEvent Value)) (gs : List GoEvent)
      → (parse_all serde ts ≡ some (ok gs)) ↔ AreEvents ts gs
  unfolding parse_all
  parse_all_iff [] [] = (λ h. tt, λ h. refl)
  parse_all_iff [] (g ∷ gs) = (λ h. ground arith, λ h. absurd h)
  parse_all_iff (t ∷ ts) [] = ground (arith)
  parse_all_iff (t ∷ ts) (g ∷ gs) =
      ground (arith, parse_tagged-IsEvent t g, IsEvent-parse_tagged t g, parse_all_iff ts gs)

-- A document parses to events if and only if serde reads an array of tagged values from it which
-- are those events, in order: each has the tag of its event, and its data reads as that of the
-- event. The data of a block's commit is not read.
pub parse_event_stream-ok_iff :
    {Value E : Type 0} (serde : Serde Value E) (json : Bytes) (gs : List GoEvent)
    → (parse_event_stream serde json ≡ some (ok gs)) ↔ (
        (ts : List (TaggedEvent Value)) × (serde.read_envelope json ≡ ok ts)
        × AreEvents serde ts gs)
unfolding parse_event_stream
parse_event_stream-ok_iff serde json gs = (
  λ h. elim (Result-cases (serde.read_envelope json)) [
    | inl (ts, p) ↦ (ts, p, (parse_all_iff serde ts gs).0 (rw (p, parse_event_stream) at h))
    | inr (e, p) ↦ absurd (ground (arith, h, p))
  ],
  λ h. let (ts, p, are) = h in rw (p, parse_event_stream) ((parse_all_iff serde ts gs).1 are),
)
