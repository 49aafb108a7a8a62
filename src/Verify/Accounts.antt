-- ===== src/Verify/Accounts.antt =====
-- Which accounts the replay knows, and which the certificates name.
use kaysentinel.Base.{
  ◌≡◌, ◌↔◌, refl, ap, Bool, true, false, ◌||◌, Option, none, some, List, [], ◌∷◌, All, arith,
  Bool-cases, inl, inr,
}
use kaysentinel.Base.Classes.{
  ◌==◌, bytes_eq, bytes_ord, bytes_beq_iff, bytes_eq_of_cmp, bytes_cmp_refl,
}
use kaysentinel.Base.BTreeMap.{BTreeMap, get, insert, contains_key, is_some, IsSorted}
use kaysentinel.Base.BTreeMap.Laws.{
  get-insert, insert-IsSorted, All-insert, get_not-Above, All_of_get,
}
use kaysentinel.Base.BTreeMap.Values.{get_entries}
use kaysentinel.Cse.{
  Address, CsePayload, balance_changed, nonce_updated, code_updated, storage_slot_updated,
  contract_created, contract_destroyed,
}
use kaysentinel.Builder.Lifecycle.Certificate.{CanonicalAccountCertificate}
use kaysentinel.Verify.{
  ReplayError, AccountState, Replay, mutate, touch, replay_payload, replay_from, touched_addresses,
  certified_addresses, difference_errors,
}

-- Whether a trace is a mutation of the account that the replay follows.
abbrev pub mutates : Address → CsePayload → Bool
mutates a (balance_changed p) = a == p.address
mutates a (nonce_updated p) = a == p.address
mutates a (code_updated p) = a == p.address
mutates a (storage_slot_updated p) = a == p.address
mutates a (contract_created p) = a == p.address
mutates a (contract_destroyed p) = a == p.address
mutates a _ = false

abbrev pub is_mutated : Address → List CsePayload → Bool
is_mutated a [] = false
is_mutated a (p ∷ ps) = mutates a p || is_mutated a ps

abbrev pub is_certified : Address → List CanonicalAccountCertificate → Bool
is_certified a [] = false
is_certified a (c ∷ cs) = a == c.address || is_certified a cs

contains-insert {ℓ} :
    {V : Type ℓ} (a k : Address) (v : V) (m : BTreeMap Address V)
    → contains_key a (insert k v m) ≡ (a == k || contains_key a m)
contains-insert a k v m =
    ground (arith, get-insert a k v m, bytes_eq_of_cmp a k, bytes_beq_iff a k, bytes_cmp_refl a)

-- The accounts of a replay are sorted and touched.
pub record IsReplayed (state : BTreeMap Address AccountState) : Type 0 where
  pub sorted : IsSorted state
  pub touched : All (λ e. e.1.touched ≡ true) state

written-IsReplayed :
    (a : Address) (s : AccountState) (m : BTreeMap Address AccountState)
    → s.touched ≡ true
    → IsReplayed m
    → IsReplayed (insert a s m)
written-IsReplayed a s m h v = record {
  sorted = insert-IsSorted a s m v.sorted;
  touched = All-insert (λ e. e.1.touched ≡ true) a s m h v.touched;
}

payload-IsReplayed :
    (p : CsePayload) (r : Replay) → IsReplayed r.state → IsReplayed (replay_payload p r).state
unfolding replay_payload mutate touch
payload-IsReplayed (balance_changed p) r v = written-IsReplayed p.address _ r.state refl v
payload-IsReplayed (nonce_updated p) r v = written-IsReplayed p.address _ r.state refl v
payload-IsReplayed (code_updated p) r v = written-IsReplayed p.address _ r.state refl v
payload-IsReplayed (storage_slot_updated p) r v = written-IsReplayed p.address _ r.state refl v
payload-IsReplayed (contract_created p) r v = written-IsReplayed p.address _ r.state refl v
payload-IsReplayed (contract_destroyed p) r v = written-IsReplayed p.address _ r.state refl v
payload-IsReplayed p r v = v

pub replay_from-IsReplayed :
    (r : Replay) (ps : List CsePayload) → IsReplayed r.state → IsReplayed (replay_from r ps).state
unfolding replay_from
replay_from-IsReplayed r [] v = v
replay_from-IsReplayed r (p ∷ ps) v =
    replay_from-IsReplayed (replay_payload p r) ps (payload-IsReplayed p r v)

contains-replay_payload :
    (a : Address) (p : CsePayload) (r : Replay)
    → contains_key a (replay_payload p r).state ≡ (mutates a p || contains_key a r.state)
unfolding replay_payload mutate touch
contains-replay_payload a (balance_changed p) r = contains-insert a p.address _ r.state
contains-replay_payload a (nonce_updated p) r = contains-insert a p.address _ r.state
contains-replay_payload a (code_updated p) r = contains-insert a p.address _ r.state
contains-replay_payload a (storage_slot_updated p) r = contains-insert a p.address _ r.state
contains-replay_payload a (contract_created p) r = contains-insert a p.address _ r.state
contains-replay_payload a (contract_destroyed p) r = contains-insert a p.address _ r.state
contains-replay_payload a p r = refl

pub contains-replay_from :
    (a : Address) (r : Replay) (ps : List CsePayload)
    → contains_key a (replay_from r ps).state ≡ (is_mutated a ps || contains_key a r.state)
unfolding replay_from
contains-replay_from a r [] = refl
contains-replay_from a r (p ∷ ps) =
    ground (arith, contains-replay_from a (replay_payload p r) ps, contains-replay_payload a p r)

pub contains-touched_addresses :
    (a : Address) (set : BTreeMap Address (Unit {0})) (state : BTreeMap Address AccountState)
    → IsReplayed state
    → contains_key a (touched_addresses set state) ≡ (contains_key a state || contains_key a set)
unfolding touched_addresses get
contains-touched_addresses a set [] v = refl
contains-touched_addresses a set ((k, s) ∷ state) v = ground (
  arith,
  v.touched.0,
  contains-touched_addresses a (insert k tt set) state
      (record { sorted = v.sorted.1; touched = v.touched.1 }),
  contains-insert a k tt set,
  bytes_beq_iff a k,
  bytes_eq_of_cmp a k,
  bytes_cmp_refl a,
  get_not-Above a k state,
  v.sorted.0,
)

pub touched_addresses-IsSorted :
    (set : BTreeMap Address (Unit {0})) (state : BTreeMap Address AccountState)
    → IsSorted set
    → IsSorted (touched_addresses set state)
unfolding touched_addresses
touched_addresses-IsSorted set [] h = h
touched_addresses-IsSorted set ((k, s) ∷ state) h = elim (Bool-cases s.touched) [
  | inl yes_touched ↦
      rw yes_touched
        (touched_addresses-IsSorted (insert k tt set) state (insert-IsSorted k tt set h))
  | inr no_touched ↦ rw no_touched (touched_addresses-IsSorted set state h)
]

pub contains-certified_addresses :
    (a : Address) (set : BTreeMap Address (Unit {0})) (cs : List CanonicalAccountCertificate)
    → contains_key a (certified_addresses set cs) ≡ (is_certified a cs || contains_key a set)
unfolding certified_addresses
contains-certified_addresses a set [] = refl
contains-certified_addresses a set (c ∷ cs) = ground (
  arith,
  contains-certified_addresses a (insert c.address tt set) cs,
  contains-insert a c.address tt set,
)

pub certified_addresses-IsSorted :
    (set : BTreeMap Address (Unit {0})) (cs : List CanonicalAccountCertificate)
    → IsSorted set
    → IsSorted (certified_addresses set cs)
unfolding certified_addresses
certified_addresses-IsSorted set [] h = h
certified_addresses-IsSorted set (c ∷ cs) h =
    certified_addresses-IsSorted (insert c.address tt set) cs (insert-IsSorted c.address tt set h)

module _ (error : Address → ReplayError) (t : BTreeMap Address (Unit {0})) where
  difference-All :
      (s : BTreeMap Address (Unit {0}))
      → (difference_errors error s t ≡ []) ↔ All (λ e. contains_key e.0 t ≡ true) s
  unfolding difference_errors
  difference-All [] = ground arith
  difference-All ((a, u) ∷ s) = ground (arith, difference-All s)

  All-of_entries :
      (r s : BTreeMap Address (Unit {0}))
      → ((a : Address) → contains_key a s ≡ true → contains_key a t ≡ true)
      → All (λ e. get e.0 s ≡ some e.1) r
      → All (λ e. contains_key e.0 t ≡ true) r
  All-of_entries [] s f h = tt
  All-of_entries (e ∷ r) s f h = (f e.0 (ap is_some h.0), All-of_entries r s f h.1)

  contained :
      (a : Address) (s : BTreeMap Address (Unit {0})) (o : Option (Unit {0}))
      → get a s ≡ o
      → All (λ e. contains_key e.0 t ≡ true) s
      → is_some o ≡ true
      → contains_key a t ≡ true
  contained a s none g all c = absurd (ground arith)
  contained a s (some u) g all c = All_of_get (λ e. contains_key e.0 t ≡ true) a u s all g

  -- A difference has no errors exactly if the one set is part of the other.
  pub difference_errors-nil :
      (s : BTreeMap Address (Unit {0}))
      → IsSorted s
      → (difference_errors error s t ≡ [])
        ↔ ((a : Address) → contains_key a s ≡ true → contains_key a t ≡ true)
  difference_errors-nil s h = (
    λ e a. contained a s (get a s) refl ((difference-All s).0 e),
    λ f. (difference-All s).1 (All-of_entries s s f (get_entries s h)),
  )
