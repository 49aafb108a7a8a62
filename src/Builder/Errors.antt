-- ===== src/Builder/Errors.antt =====
-- runtime/builder/src/errors.rs
use kaysentinel.Base.{ℕ}
use kaysentinel.Cse.{Address}

-- `EventId(u64)` of ir/timeline.rs
pub record EventId : Type 0 where
  pub id : ℕ

pub data TimelineError : Type 0 where
  empty_timeline : TimelineError
  -- the previous event and the current one
  discontinuous_lineage : EventId → EventId → TimelineError

pub data LifecycleState : Type 0 where
  existed created destroyed : LifecycleState

pub data LifecycleEvent : Type 0 where
  create_action destroy_action : LifecycleEvent

pub data BuilderError : Type 0 where
  event_outside_transaction : BuilderError
  unexpected_transaction_boundary : BuilderError
  duplicate_transaction_boundary : BuilderError
  timeline_failure : TimelineError → BuilderError
  invalid_lifecycle : Address → LifecycleState → LifecycleEvent → BuilderError
