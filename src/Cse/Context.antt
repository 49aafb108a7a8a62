-- ===== src/Cse/Context.antt =====
-- runtime/cse/src/context.rs: the metadata around an event.
use Prim.Native.Nat.{ℕ}
use kaysentinel.Cse.Words.{Word}

pub record NormativeContext : Type 0 where
  pub sequence_number : ℕ

pub record ProvisionalContext : Type 0 where
  pub chain_id : ℕ
  pub block_hash : Word
  pub block_number : ℕ
  pub transaction_hash : Word
  pub transaction_index : ℕ

pub record TraceContext : Type 0 where
  pub call_frame_id : ℕ
  pub call_depth : ℕ

pub record ExecutionContext : Type 0 where
  pub normative : NormativeContext
  pub provisional : ProvisionalContext
  pub trace : TraceContext
