-- ===== src/Cse/Event.antt =====
-- runtime/cse/src/event.rs, errors.rs and version.rs: events and the check of a single event.
use Prim.Native.Nat.{ℕ}
use Prim.Native.String.{String}
use kaysentinel.Base.{not, replicate, Result, ok, ◌>>◌, fail_if}
use kaysentinel.Base.Classes.{◌==◌, nat_eq, bytes_eq}
use kaysentinel.Cse.Words.{Address}
use kaysentinel.Cse.Context.{ExecutionContext}
use kaysentinel.Cse.Payloads.{
  BalanceChanged, StorageSlotUpdated, TransientStorageUpdated, NonceUpdated, ContractCreated,
  CodeUpdated, ContractDestroyed, LogEmitted, GasRefundChanged, AccessListTouched,
}

pub data CseVersion : Type 0 where
  v1 : CseVersion

-- `version as u32`
abbrev pub version_number : CseVersion → ℕ
version_number v1 = 1

abbrev pub abi_version : ℕ
abi_version = 1

pub data CsePayload : Type 0 where
  begin_transaction : CsePayload
  end_transaction : CsePayload
  balance_changed : BalanceChanged → CsePayload
  storage_slot_updated : StorageSlotUpdated → CsePayload
  transient_storage_updated : TransientStorageUpdated → CsePayload
  nonce_updated : NonceUpdated → CsePayload
  contract_created : ContractCreated → CsePayload
  code_updated : CodeUpdated → CsePayload
  contract_destroyed : ContractDestroyed → CsePayload
  log_emitted : LogEmitted → CsePayload
  gas_refund_changed : GasRefundChanged → CsePayload
  access_list_touched : AccessListTouched → CsePayload

pub record CanonicalSemanticEvent : Type 0 where
  pub version : CseVersion
  pub context : ExecutionContext
  pub payload : CsePayload

pub data ValidationError : Type 0 where
  unsupported_version : ℕ → ℕ → ValidationError
  sequence_breakage : ℕ → ℕ → ValidationError
  invalid_payload_state : String → ValidationError
  invalid_boundary_condition : String → ValidationError

abbrev pub null_address : Address
null_address = replicate 20 0

-- The `match &self.payload` of `validate`.
unfoldable pub validate_payload : CsePayload → Result ValidationError (Unit {0})
validate_payload (balance_changed p) =
    fail_if (p.previous_balance == p.current_balance)
      (invalid_payload_state "No-op balance change signature")
validate_payload (storage_slot_updated p) =
    fail_if (p.previous_value == p.current_value)
      (invalid_payload_state "No-op storage mutation signature")
validate_payload (contract_created p) =
    fail_if (p.address == null_address) (invalid_payload_state "Deployment targeting null address")
validate_payload _ = ok tt

unfoldable pub validate : CanonicalSemanticEvent → Result ValidationError (Unit {0})
unfolding validate_payload
validate e = do
  fail_if (not (version_number e.version == abi_version))
      (unsupported_version abi_version (version_number e.version))
  validate_payload e.payload
