-- ===== src/Builder/Ir/Histories.antt =====
-- runtime/builder/src/ir/timeline.rs and traits.rs: the history of one state location, and its
-- reduction to one transition.
use kaysentinel.Base.{ℕ, not, List, [], ◌∷◌, ◌++◌, Result, ok, err, if◌then◌else◌}
use kaysentinel.Base.Classes.{PartialEq, ◌==◌, nat_eq}
use kaysentinel.Base.BTreeMap.{BTreeMap, insert}
use kaysentinel.Builder.Errors.{EventId, TimelineError, empty_timeline, discontinuous_lineage}
use kaysentinel.Builder.Ir.Keys.{event_id_ord}

pub record TraceProvenance : Type 0 where
  pub trace_ordinal : ℕ
  pub tx_index : ℕ
  pub frame_id : ℕ
  pub call_depth : ℕ
  pub frame_ordinal : ℕ

-- `TraceProvenance::default()`
abbrev pub default_provenance : TraceProvenance
default_provenance = record {
  trace_ordinal = 0;
  tx_index = 0;
  frame_id = 0;
  call_depth = 0;
  frame_ordinal = 0;
}

-- `Provenance(BTreeSet<EventId>)`
abbrev pub Provenance : Type 0
Provenance = BTreeMap EventId (Unit {0})

unfoldable pub record_id : EventId → Provenance → Provenance
record_id id p = insert id tt p

pub record ObservedTransition (T : Type 0) : Type 0 where
  pub before : T
  pub after : T
  pub event_id : EventId

pub record Timeline (T : Type 0) : Type 0 where
  pub history : List (ObservedTransition T)

pub record ReducedTransition (T : Type 0) : Type 0 where
  pub initial : T
  pub terminal : T
  pub provenance : Provenance

abbrev pub new_timeline : {T : Type 0} → Timeline T
new_timeline = record { history = [] }

unfoldable pub push : {T : Type 0} → T → T → EventId → Timeline T → Timeline T
push before after event_id tl = record {
  history = tl.history ++ record { before = before; after = after; event_id = event_id } ∷ [];
}

module _ {T : Type 0} ⦃e : PartialEq T⦄ where
  -- The loop over the history after its first observation.
  unfoldable pub reduce_from :
      T
      → T
      → EventId
      → Provenance
      → List (ObservedTransition T)
      → Result TimelineError (ReducedTransition T)
  reduce_from initial current_after last_event_id provenance [] =
      ok (record { initial = initial; terminal = current_after; provenance = provenance })
  reduce_from initial current_after last_event_id provenance (o ∷ os) =
      let rest = reduce_from initial o.after o.event_id (record_id o.event_id provenance) os in
      if not (o.before == current_after)
      then err (discontinuous_lineage last_event_id o.event_id)
      else rest

  unfoldable pub reduce_history :
      List (ObservedTransition T) → Result TimelineError (ReducedTransition T)
  reduce_history [] = err empty_timeline
  reduce_history (o ∷ os) = reduce_from o.before o.after o.event_id (record_id o.event_id []) os

  unfoldable pub reduce : Timeline T → Result TimelineError (ReducedTransition T)
  unfolding reduce_history reduce_from
  reduce tl = reduce_history tl.history
