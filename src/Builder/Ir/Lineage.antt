-- ===== src/Builder/Ir/Lineage.antt =====
-- `reduce` (traits.rs) against what an unbroken history is.
use kaysentinel.Base.{
  ◌≡◌, ◌≢◌, refl, sym, ap, ◌∙◌, ◌↔◌, ◌⊎◌, List, [], ◌∷◌, ok, err, arith, inl, inr, some,
}
use kaysentinel.Base.Classes.{PartialEq}
use kaysentinel.Base.BTreeMap.{get}
use kaysentinel.Base.BTreeMap.Laws.{get-insert}
use kaysentinel.Builder.Errors.{EventId, TimelineError, empty_timeline, discontinuous_lineage}
use kaysentinel.Builder.Ir.Keys.{event_id_ord, event_id_eq_of_cmp}
use kaysentinel.Builder.Ir.Histories.{
  Provenance, record_id, ObservedTransition, Timeline, ReducedTransition, reduce_from,
  reduce_history, reduce,
}

module _ {T : Type 0} where
  -- Each observation starts from the value where the one before it ended.
  abbrev pub ContinuesFrom : T → List (ObservedTransition T) → Type 0
  ContinuesFrom value [] = Unit
  ContinuesFrom value (o ∷ os) = (o.before ≡ value) × ContinuesFrom o.after os

  -- An unbroken history of at least one observation.
  abbrev pub IsLineage : List (ObservedTransition T) → Type 0
  IsLineage [] = ⊥
  IsLineage (o ∷ os) = ContinuesFrom o.after os

  -- The value where a history ends.
  abbrev pub last_after : T → List (ObservedTransition T) → T
  last_after value [] = value
  last_after value (o ∷ os) = last_after o.after os

  abbrev pub ids_of : Provenance → List (ObservedTransition T) → Provenance
  ids_of p [] = p
  ids_of p (o ∷ os) = ids_of (record_id o.event_id p) os

  -- What a lineage reduces to: its two ends, and the set of its events.
  abbrev pub summary : ObservedTransition T → List (ObservedTransition T) → ReducedTransition T
  summary o os = record {
    initial = o.before;
    terminal = last_after o.after os;
    provenance = ids_of (record_id o.event_id []) os;
  }

  -- What a history that reduces to `r` is.
  abbrev pub ReducesTo : List (ObservedTransition T) → ReducedTransition T → Type 0
  ReducesTo [] r = ⊥
  ReducesTo (o ∷ os) r = ContinuesFrom o.after os × (r ≡ summary o os)

  -- Whether the event is one of the history's.
  abbrev pub Mentions : EventId → List (ObservedTransition T) → Type 0
  Mentions id [] = ⊥
  Mentions id (o ∷ os) = (id ≡ o.event_id) ⊎ Mentions id os

get-record_id :
    (id x : EventId) (p : Provenance)
    → (get id (record_id x p) ≡ some tt) ↔ ((id ≡ x) ⊎ (get id p ≡ some tt))
unfolding record_id
get-record_id id x p =
    ground (arith, get-insert id x tt p, event_id_eq_of_cmp id x, event_id_ord.cmp_refl id)

ids_of-Mentions :
    {T : Type 0} (id : EventId) (p : Provenance) (os : List (ObservedTransition T))
    → (get id (ids_of p os) ≡ some tt) ↔ ((get id p ≡ some tt) ⊎ Mentions id os)
ids_of-Mentions id p [] = (inl, λ h. elim h [ inl a ↦ a | inr b ↦ absurd b ])
ids_of-Mentions id p (o ∷ os) =
    ground (arith, ids_of-Mentions id (record_id o.event_id p) os, get-record_id id o.event_id p)

Mentions-ReducesTo :
    {T : Type 0} (id : EventId) (h : List (ObservedTransition T)) (r : ReducedTransition T)
    → ReducesTo h r
    → (get id r.provenance ≡ some tt) ↔ Mentions id h
unfolding get
Mentions-ReducesTo id [] r h = absurd h
Mentions-ReducesTo id (o ∷ os) r h =
    ground (arith, ids_of-Mentions id (record_id o.event_id []) os, get-record_id id o.event_id [])

module _ {T : Type 0} ⦃e : PartialEq T⦄ where
  reduce_from_ok :
      (i c : T) (l : EventId) (p : Provenance) (os : List (ObservedTransition T))
      → ContinuesFrom c os
      → reduce_from i c l p os
        ≡ ok (record { initial = i; terminal = last_after c os; provenance = ids_of p os })
  unfolding reduce_from
  reduce_from_ok i c l p [] h = refl
  reduce_from_ok i c l p (o ∷ os) h = ground (
    arith,
    (e.beq_iff o.before c).1 h.0,
    reduce_from_ok i o.after o.event_id (record_id o.event_id p) os h.1,
  )

  reduce_from_sound :
      (i c : T) (l : EventId) (p : Provenance) (os : List (ObservedTransition T))
      (r : ReducedTransition T)
      → reduce_from i c l p os ≡ ok r
      → ContinuesFrom c os
  unfolding reduce_from
  reduce_from_sound i c l p [] r h = tt
  reduce_from_sound i c l p (o ∷ os) r h = ground (
    arith,
    e.beq_iff o.before c,
    reduce_from_sound i o.after o.event_id (record_id o.event_id p) os r,
  )

  reduce_history_ok :
      (h : List (ObservedTransition T)) (r : ReducedTransition T)
      → reduce_history h ≡ ok r
      → ReducesTo h r
  unfolding reduce_history
  reduce_history_ok [] r p = cc
  reduce_history_ok (o ∷ os) r p =
      let c = reduce_from_sound o.before o.after o.event_id (record_id o.event_id []) os r p in
      (c, cc (p, reduce_from_ok o.before o.after o.event_id (record_id o.event_id []) os c))

  ok_of_ReducesTo :
      (h : List (ObservedTransition T)) (r : ReducedTransition T)
      → ReducesTo h r
      → reduce_history h ≡ ok r
  unfolding reduce_history
  ok_of_ReducesTo [] r p = absurd p
  ok_of_ReducesTo (o ∷ os) r p =
      reduce_from_ok o.before o.after o.event_id (record_id o.event_id []) os p.0 ∙ ap ok (sym p.1)

  -- A timeline reduces to a transition if and only if it has an observation, each observation
  -- starts from the value where the one before it ended, and the transition holds the first value,
  -- the last value and the set of the event ids.
  pub reduce-ok_iff :
      (tl : Timeline T) (r : ReducedTransition T) → (reduce tl ≡ ok r) ↔ ReducesTo tl.history r
  unfolding reduce
  reduce-ok_iff tl r = (reduce_history_ok tl.history r, ok_of_ReducesTo tl.history r)

  -- The first break of a history that starts from `value`, behind the event `last`.
  abbrev pub BreaksAt : EventId → EventId → EventId → T → List (ObservedTransition T) → Type 0
  BreaksAt p c l value [] = ⊥
  BreaksAt p c l value (o ∷ os) =
      ((p ≡ l) × (c ≡ o.event_id) × (o.before ≢ value))
      ⊎ ((o.before ≡ value) × BreaksAt p c o.event_id o.after os)

  reduce_from_break :
      (i v : T) (l : EventId) (q : Provenance) (os : List (ObservedTransition T)) (p c : EventId)
      → reduce_from i v l q os ≡ err (discontinuous_lineage p c)
      → BreaksAt p c l v os
  unfolding reduce_from
  reduce_from_break i v l q [] p c h = cc
  reduce_from_break i v l q (o ∷ os) p c h = ground (
    arith,
    e.beq_iff o.before v,
    reduce_from_break i o.after o.event_id (record_id o.event_id q) os p c,
  )

  -- How a history fails.
  abbrev pub FailsWith : TimelineError → List (ObservedTransition T) → Type 0
  FailsWith empty_timeline h = h ≡ []
  FailsWith (discontinuous_lineage p c) [] = ⊥
  FailsWith (discontinuous_lineage p c) (o ∷ os) = BreaksAt p c o.event_id o.after os

  not_empty :
      (i v : T) (l : EventId) (q : Provenance) (os : List (ObservedTransition T))
      → reduce_from i v l q os ≢ err empty_timeline
  unfolding reduce_from
  not_empty i v l q [] h = cc
  not_empty i v l q (o ∷ os) h =
      ground (arith, not_empty i o.after o.event_id (record_id o.event_id q) os)

  fails_lem :
      (h : List (ObservedTransition T)) (x : TimelineError)
      → reduce_history h ≡ err x
      → FailsWith x h
  unfolding reduce_history
  fails_lem [] empty_timeline h = refl
  fails_lem [] (discontinuous_lineage p c) h = cc
  fails_lem (o ∷ os) empty_timeline h =
      absurd (not_empty o.before o.after o.event_id (record_id o.event_id []) os h)
  fails_lem (o ∷ os) (discontinuous_lineage p c) h =
      reduce_from_break o.before o.after o.event_id (record_id o.event_id []) os p c h

  -- A timeline that fails to reduce is empty if the error says so, and otherwise breaks for the
  -- first time between the two events that the error names.
  pub reduce-err :
      (tl : Timeline T) (x : TimelineError) → reduce tl ≡ err x → FailsWith x tl.history
  unfolding reduce
  reduce-err tl x h = fails_lem tl.history x h

  -- The provenance of a reduced timeline holds an event id if and only if an observation of the
  -- timeline has it.
  pub get-provenance :
      (tl : Timeline T) (r : ReducedTransition T) (id : EventId)
      → reduce tl ≡ ok r
      → (get id r.provenance ≡ some tt) ↔ Mentions id tl.history
  get-provenance tl r id h = Mentions-ReducesTo id tl.history r ((reduce-ok_iff tl r).0 h)
