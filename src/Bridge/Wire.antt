-- ===== src/Bridge/Wire.antt =====
-- runtime/bridge/src/wire.rs: the events of the Go tracer, once they are parsed. The wrappers
-- `HexHash` and `HexAddress` are the arrays they hold.
use kaysentinel.Base.{ℕ, Bool}
use kaysentinel.Cse.{Address, Word}

-- `NO_FRAME`, which is `u64::MAX`
abbrev pub no_frame : ℕ
no_frame = 18_446_744_073_709_551_615

pub record BlockStartData : Type 0 where
  pub number : ℕ

pub record TransactionStartData : Type 0 where
  pub tx_index : ℕ
  pub hash : Word

pub record TransactionEndData : Type 0 where
  pub tx_index : ℕ
  pub reverted : Bool

pub record FrameEnterData : Type 0 where
  pub frame_id : ℕ
  pub parent_frame_id : ℕ
  pub depth : ℕ

pub record FrameExitData : Type 0 where
  pub frame_id : ℕ
  pub reverted : Bool

pub record BalanceMutationData : Type 0 where
  pub frame_id : ℕ
  pub address : Address
  pub before : Word
  pub after : Word

pub record NonceMutationData : Type 0 where
  pub frame_id : ℕ
  pub address : Address
  pub before : ℕ
  pub after : ℕ

pub record CodeMutationData : Type 0 where
  pub frame_id : ℕ
  pub address : Address
  pub before : Word
  pub after : Word

pub record StorageMutationData : Type 0 where
  pub frame_id : ℕ
  pub address : Address
  pub slot : Word
  pub before : Word
  pub after : Word

pub record AccountCreatedData : Type 0 where
  pub frame_id : ℕ
  pub address : Address
  pub creator : Address

pub record SelfDestructData : Type 0 where
  pub frame_id : ℕ
  pub address : Address
  pub beneficiary : Address

pub data GoEvent : Type 0 where
  block_start : BlockStartData → GoEvent
  transaction_start : TransactionStartData → GoEvent
  frame_enter : FrameEnterData → GoEvent
  frame_exit : FrameExitData → GoEvent
  transaction_end : TransactionEndData → GoEvent
  block_commit : GoEvent
  balance_mutation : BalanceMutationData → GoEvent
  nonce_mutation : NonceMutationData → GoEvent
  code_mutation : CodeMutationData → GoEvent
  storage_mutation : StorageMutationData → GoEvent
  account_created : AccountCreatedData → GoEvent
  self_destruct : SelfDestructData → GoEvent
