-- ===== src/Cse/Payloads.antt =====
-- runtime/cse/src/payloads.rs: what an event says of the state.
use Prim.Native.Nat.{ℕ}
use mathlib.Core.List.{List}
use mathlib.Core.Option.{Option}
use kaysentinel.Base.Classes.{Bytes}
use kaysentinel.Cse.Words.{Address, Word}

pub record BalanceChanged : Type 0 where
  pub address : Address
  pub previous_balance : Word
  pub current_balance : Word

pub record StorageSlotUpdated : Type 0 where
  pub address : Address
  pub slot : Word
  pub previous_value : Word
  pub current_value : Word

pub record TransientStorageUpdated : Type 0 where
  pub address : Address
  pub slot : Word
  pub previous_value : Word
  pub current_value : Word

pub record NonceUpdated : Type 0 where
  pub address : Address
  pub previous_nonce : ℕ
  pub current_nonce : ℕ

pub record ContractCreated : Type 0 where
  pub address : Address
  pub creator : Address

pub record CodeUpdated : Type 0 where
  pub address : Address
  pub previous_code_hash : Word
  pub current_code_hash : Word

pub record ContractDestroyed : Type 0 where
  pub address : Address
  pub refund_target : Address

-- The field `data` of the source is `log_data`, since `data` is a reserved word here.
pub record LogEmitted : Type 0 where
  pub address : Address
  pub topics : List Word
  pub log_data : Bytes

pub record GasRefundChanged : Type 0 where
  pub previous_refund : ℕ
  pub current_refund : ℕ

pub record AccessListTouched : Type 0 where
  pub address : Address
  pub slot : Option Word
