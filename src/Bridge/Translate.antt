-- ===== src/Bridge/Translate.antt =====
-- runtime/bridge/src/translate.rs: the translation, with its stack of frame buffers. The top of the
-- stack is the first element of the list.
use kaysentinel.Base.{
  ℕ, suc, ◌%◌, Bool, true, false, not, List, [], ◌∷◌, ◌++◌, Result, ok, err, ◌>>=◌, ◌>>◌, fail_if,
  is_empty, length, ltb, if◌then◌else◌,
}
use kaysentinel.Base.Classes.{◌==◌, nat_eq}
use kaysentinel.Cse.{
  Word, u32_mod, u64_mod, CsePayload, begin_transaction, end_transaction, balance_changed,
  nonce_updated, code_updated, storage_slot_updated, contract_created, contract_destroyed, v1,
  CanonicalSemanticEvent,
}
use kaysentinel.Builder.Lifecycle.Certificate.{zero_word}
use kaysentinel.Bridge.Wire.{
  no_frame, GoEvent, block_start, transaction_start, frame_enter, frame_exit, transaction_end,
  block_commit, balance_mutation, nonce_mutation, code_mutation, storage_mutation, account_created,
  self_destruct, FrameExitData,
}

pub data BridgeError : Type 0 where
  unbalanced_frames : ℕ → BridgeError
  transaction_start_while_open : ℕ → BridgeError
  event_outside_transaction : ℕ → BridgeError
  frame_id_overflow : ℕ → BridgeError

pub record BridgeConfig : Type 0 where
  pub chain_id : ℕ

pub record FrameBuffer : Type 0 where
  pub frame_id : ℕ
  pub depth : ℕ
  pub events : List CanonicalSemanticEvent

-- `u32::MAX` and `usize::MAX` (of 64 bits)
abbrev pub u32_max : ℕ
u32_max = 4_294_967_295

abbrev pub usize_max : ℕ
usize_max = 18_446_744_073_709_551_615

-- The variables of the loop.
pub record Translation : Type 0 where
  pub final_output : List CanonicalSemanticEvent
  pub tx_open : Bool
  pub tx_output : List CanonicalSemanticEvent
  pub frame_stack : List FrameBuffer
  pub block_number : ℕ
  pub tx_index : ℕ
  pub tx_hash : Word

-- Where an event of the current transaction stands. `tx_index as u32` truncates.
unfoldable pub make_event : BridgeConfig → Translation → ℕ → ℕ → CsePayload → CanonicalSemanticEvent
make_event config s call_frame_id call_depth payload = record {
  version = v1;
  context = record {
    normative = record { sequence_number = 0 };
    provisional = record {
      chain_id = config.chain_id;
      block_hash = zero_word;
      block_number = s.block_number;
      transaction_hash = s.tx_hash;
      transaction_index = s.tx_index % u32_mod;
    };
    trace = record { call_frame_id = call_frame_id; call_depth = call_depth };
  };
  payload = payload;
}

unfoldable pub boundary_event : BridgeConfig → Translation → CsePayload → CanonicalSemanticEvent
boundary_event config s payload = make_event config s u32_max 0 payload

-- `u32::try_from(value)`
unfoldable pub try_u32 : ℕ → Result BridgeError ℕ
try_u32 value = if ltb value u32_mod then ok value else err (frame_id_overflow value)

-- A mutation that belongs to a frame goes to the buffer on top.
unfoldable pub append_framed :
    BridgeConfig → CsePayload → List FrameBuffer → Translation → Result BridgeError Translation
append_framed config payload [] s = err (unbalanced_frames usize_max)
append_framed config payload (top ∷ below) s = do
  call_frame_id ← try_u32 top.frame_id
  call_depth ← try_u32 top.depth
  let event = make_event config s call_frame_id call_depth payload
  ok (record s { frame_stack = record top { events = top.events ++ event ∷ [] } ∷ below })

unfoldable pub append_mutation :
    BridgeConfig → ℕ → CsePayload → Translation → Result BridgeError Translation
append_mutation config frame_id payload s =
    if frame_id == no_frame
    then ok (record s { tx_output = s.tx_output ++ make_event config s u32_max 0 payload ∷ [] })
    else append_framed config payload s.frame_stack s

-- What becomes of the buffer of a frame that exits.
unfoldable pub leave_frame : FrameBuffer → Bool → List FrameBuffer → Translation → Translation
leave_frame popped true below s = record s { frame_stack = below }
leave_frame popped false [] s = record s {
  frame_stack = [];
  tx_output = s.tx_output ++ popped.events;
}
leave_frame popped false (parent ∷ below) s = record s {
  frame_stack = record parent { events = parent.events ++ popped.events } ∷ below;
}

unfoldable pub exit_frame :
    ℕ → FrameExitData → List FrameBuffer → Translation → Result BridgeError Translation
exit_frame i d [] s = err (unbalanced_frames i)
exit_frame i d (popped ∷ below) s = do
  fail_if (not (popped.frame_id == d.frame_id)) (unbalanced_frames i)
  ok (leave_frame popped d.reverted below s)

module _ (config : BridgeConfig) where
  -- One round of the loop, for the event at index `i`.
  unfoldable pub step : ℕ → GoEvent → Translation → Result BridgeError Translation
  step i (block_start d) s = ok (record s { block_number = d.number })
  step i block_commit s = ok s
  step i (transaction_start d) s = do
    fail_if s.tx_open (transaction_start_while_open i)
    let t = record s {
      tx_open = true;
      tx_index = d.tx_index;
      tx_hash = d.hash;
      tx_output = [];
      frame_stack = [];
    }
    ok (record t { tx_output = boundary_event config t begin_transaction ∷ [] })
  step i (transaction_end d) s = do
    fail_if (not s.tx_open) (event_outside_transaction i)
    fail_if (not (is_empty s.frame_stack)) (unbalanced_frames i)
    ok (record s {
      final_output =
          s.final_output ++ (s.tx_output ++ boundary_event config s end_transaction ∷ []);
      tx_output = [];
      tx_open = false;
    })
  step i (frame_enter d) s = do
    fail_if (not s.tx_open) (event_outside_transaction i)
    ok (record s {
      frame_stack = record { frame_id = d.frame_id; depth = d.depth; events = [] } ∷ s.frame_stack;
    })
  step i (frame_exit d) s = do
    fail_if (not s.tx_open) (event_outside_transaction i)
    exit_frame i d s.frame_stack s
  step i (balance_mutation d) s =
      append_mutation config d.frame_id
        (balance_changed
          (record { address = d.address; previous_balance = d.before; current_balance = d.after }))
        s
  step i (nonce_mutation d) s =
      append_mutation config d.frame_id
        (nonce_updated
          (record { address = d.address; previous_nonce = d.before; current_nonce = d.after }))
        s
  step i (code_mutation d) s =
      append_mutation config d.frame_id
        (code_updated (record {
          address = d.address;
          previous_code_hash = d.before;
          current_code_hash = d.after;
        }))
        s
  step i (storage_mutation d) s =
      append_mutation config d.frame_id
        (storage_slot_updated (record {
          address = d.address;
          slot = d.slot;
          previous_value = d.before;
          current_value = d.after;
        }))
        s
  step i (account_created d) s =
      append_mutation config d.frame_id
        (contract_created (record { address = d.address; creator = d.creator })) s
  step i (self_destruct d) s =
      append_mutation config d.frame_id
        (contract_destroyed (record { address = d.address; refund_target = d.beneficiary })) s

  unfoldable pub steps : ℕ → List GoEvent → Translation → Result BridgeError Translation
  steps i [] s = ok s
  steps i (e ∷ es) s = do t ← step i e s; steps (suc i) es t

-- The last loop: `seq as u64` for every event of the output.
unfoldable pub renumber : ℕ → List CanonicalSemanticEvent → List CanonicalSemanticEvent
renumber n [] = []
renumber n (e ∷ es) =
    record e { context = record e.context { normative = record { sequence_number = n % u64_mod } } }
    ∷ renumber (suc n) es

abbrev pub initial : Translation
initial = record {
  final_output = [];
  tx_open = false;
  tx_output = [];
  frame_stack = [];
  block_number = 0;
  tx_index = 0;
  tx_hash = zero_word;
}

unfoldable pub translate :
    List GoEvent → BridgeConfig → Result BridgeError (List CanonicalSemanticEvent)
unfolding steps step append_mutation append_framed exit_frame leave_frame renumber
translate events config = do
  s ← steps config 0 events initial
  fail_if s.tx_open (event_outside_transaction (length events))
  ok (renumber 0 s.final_output)
