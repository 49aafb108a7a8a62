-- ===== src/Builder/Lifecycle/Process/Traces.antt =====
-- The creations and destructions of an account among the events of a transaction.
use kaysentinel.Base.{
  ℕ, suc, ◌+◌, ◌<◌, ◌≤◌, ◌≡◌, sym, subst, Bool-cases, List, [], ◌∷◌, ◌++◌, length, length-append,
  inl, inr, arith,
}
use kaysentinel.Base.Classes.{◌==◌, bytes_eq, bytes_ord}
use kaysentinel.Cse.{
  Address, ExecutionContext, CsePayload, contract_created, contract_destroyed,
  CanonicalSemanticEvent, u32_mod,
}
use kaysentinel.Cse.Validator.Laws.{IsSequenced}
use kaysentinel.Builder.Errors.{EventId}
use kaysentinel.Builder.Partition.{event_id_of, trace_provenance_from}
use kaysentinel.Builder.Lifecycle.Resolve.Ids.{seen_in}
use kaysentinel.Builder.Lifecycle.Process.Ordered.{AscendsFrom, AscendsFrom-weaken, IsAccountTrace}
use kaysentinel.Builder.Lifecycle.Process.Verdict.{IsAlternating}
use kaysentinel.Builder.Lifecycle.Process.Observed.{life_seen, lives_seen}

pub IsSequenced-split :
    (n : ℕ) (xs ys : List CanonicalSemanticEvent)
    → IsSequenced n (xs ++ ys)
    → IsSequenced n xs × IsSequenced (n + length xs) ys
IsSequenced-split n [] ys h = (tt, subst (λ m. IsSequenced m ys) (omega arith) h)
IsSequenced-split n (x ∷ xs) ys h =
    let (l, r) = IsSequenced-split (suc n) xs ys h.1 in
    ((h.0, l), subst (λ m. IsSequenced m ys) (omega arith) r)

life_seen-length :
    (a : Address) (ctx : ExecutionContext) (id : EventId) (p : CsePayload)
    → length (life_seen a ctx id p) ≤ 1
life_seen-length a ctx id (contract_created p) = ground arith
life_seen-length a ctx id (contract_destroyed p) = ground arith
life_seen-length a ctx id p = omega arith

lives_seen-length :
    (a : Address) (es : List CanonicalSemanticEvent) → length (lives_seen a es) ≤ length es
lives_seen-length a [] = omega arith
lives_seen-length a (e ∷ es) =
    let seen = life_seen a e.context (event_id_of e) e.payload in
    omega (
      arith,
      lives_seen-length a es,
      life_seen-length a e.context (event_id_of e) e.payload,
      length-append seen (lives_seen a es),
    )

life_seen-ascends :
    (a : Address) (n : ℕ) (ctx : ExecutionContext) (id : EventId) (p : CsePayload) (os : List _)
    → ctx.normative.sequence_number ≡ n
    → AscendsFrom (suc n) (seen_in os)
    → AscendsFrom n (seen_in (life_seen a ctx id p ++ os))
unfolding trace_provenance_from
life_seen-ascends a n ctx id (contract_created p) os e h = elim (Bool-cases (p.address == a)) [
  | inl same ↦ rw same (omega (arith, e), subst (λ m. AscendsFrom (suc m) (seen_in os)) (sym e) h)
  | inr other ↦ rw other (AscendsFrom-weaken n (suc n) (seen_in os) (omega arith) h)
]
life_seen-ascends a n ctx id (contract_destroyed p) os e h = elim (Bool-cases (p.address == a)) [
  | inl same ↦ rw same (omega (arith, e), subst (λ m. AscendsFrom (suc m) (seen_in os)) (sym e) h)
  | inr other ↦ rw other (AscendsFrom-weaken n (suc n) (seen_in os) (omega arith) h)
]
life_seen-ascends a n ctx id p os e h = AscendsFrom-weaken n (suc n) (seen_in os) (omega arith) h

lives_seen-ascends :
    (a : Address) (n : ℕ) (es : List CanonicalSemanticEvent)
    → IsSequenced n es
    → AscendsFrom n (seen_in (lives_seen a es))
lives_seen-ascends a n [] h = tt
lives_seen-ascends a n (e ∷ es) h =
    life_seen-ascends a n e.context (event_id_of e) e.payload (lives_seen a es) h.0
      (lives_seen-ascends a (suc n) es h.1)

pub lives_seen-IsAccountTrace :
    (n : ℕ) (es : List CanonicalSemanticEvent) (a : Address)
    → length es < u32_mod
    → IsSequenced n es
    → IsAccountTrace (lives_seen a es)
lives_seen-IsAccountTrace n es a b h = (
  omega (arith, lives_seen-length a es, b),
  AscendsFrom-weaken 0 n (seen_in (lives_seen a es)) (omega arith) (lives_seen-ascends a n es h),
)

-- Among the creations and destructions of each account, every destruction directly follows a
-- creation.
abbrev pub HasPairedLives : List CanonicalSemanticEvent → Type 0
HasPairedLives es = (a : Address) → IsAlternating (lives_seen a es)
