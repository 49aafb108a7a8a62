-- ===== src/Bridge/Frames.antt =====
-- The translation against the call tree: what reverted frames do is left out, everything else is
-- kept in order.
pub mod Buffers
pub mod Blocks
use kaysentinel.Base.{
  ℕ, suc, ◌+◌, ◌<◌, ◌≡◌, refl, Bool, true, false, List, [], ◌∷◌, ◌++◌, if◌then◌else◌,
}
use kaysentinel.Base.Classes.{◌==◌, nat_eq}
use kaysentinel.Cse.{
  Word, u32_mod, CsePayload, begin_transaction, end_transaction, balance_changed, nonce_updated,
  code_updated, storage_slot_updated, contract_created, contract_destroyed, CanonicalSemanticEvent,
}
use kaysentinel.Bridge.Wire.{
  no_frame, GoEvent, block_start, transaction_start, frame_enter, frame_exit, transaction_end,
  block_commit, balance_mutation, nonce_mutation, code_mutation, storage_mutation, account_created,
  self_destruct, BlockStartData, TransactionStartData, TransactionEndData, FrameEnterData,
}
use kaysentinel.Bridge.Translate.{FrameBuffer, BridgeConfig, Translation, make_event, u32_max}

-- The events of a transaction or of a frame: mutations, and frames with their own events, which
-- revert or not.
pub data FrameTrace : Type 0 where
  done : FrameTrace
  mutated : GoEvent → FrameTrace → FrameTrace
  entered : FrameEnterData → Bool → FrameTrace → FrameTrace → FrameTrace

-- The stream of a trace, in front of what follows it.
abbrev pub emit : FrameTrace → List GoEvent → List GoEvent
emit done k = k
emit (mutated g rest) k = g ∷ emit rest k
emit (entered d reverted body rest) k =
    frame_enter d
    ∷ emit body (frame_exit (record { frame_id = d.frame_id; reverted = reverted }) ∷ emit rest k)

abbrev pub is_mutation : GoEvent → Bool
is_mutation (block_start d) = false
is_mutation (transaction_start d) = false
is_mutation (frame_enter d) = false
is_mutation (frame_exit d) = false
is_mutation (transaction_end d) = false
is_mutation block_commit = false
is_mutation _ = true

-- The frame that a mutation names, and what it says.
abbrev pub frame_of : GoEvent → ℕ
frame_of (balance_mutation d) = d.frame_id
frame_of (nonce_mutation d) = d.frame_id
frame_of (code_mutation d) = d.frame_id
frame_of (storage_mutation d) = d.frame_id
frame_of (account_created d) = d.frame_id
frame_of (self_destruct d) = d.frame_id
frame_of _ = no_frame

abbrev pub payload_of : GoEvent → CsePayload
payload_of (balance_mutation d) =
    balance_changed
      (record { address = d.address; previous_balance = d.before; current_balance = d.after })
payload_of (nonce_mutation d) =
    nonce_updated
      (record { address = d.address; previous_nonce = d.before; current_nonce = d.after })
payload_of (code_mutation d) =
    code_updated
      (record { address = d.address; previous_code_hash = d.before; current_code_hash = d.after })
payload_of (storage_mutation d) = storage_slot_updated (record {
  address = d.address;
  slot = d.slot;
  previous_value = d.before;
  current_value = d.after;
})
payload_of (account_created d) =
    contract_created (record { address = d.address; creator = d.creator })
payload_of (self_destruct d) =
    contract_destroyed (record { address = d.address; refund_target = d.beneficiary })
payload_of _ = begin_transaction

-- A trace inside a frame: its mutations are mutations, its frame ids and depths fit a u32.
abbrev pub IsFrameTrace : FrameTrace → Type 0
IsFrameTrace done = Unit
IsFrameTrace (mutated g rest) = (is_mutation g ≡ true) × IsFrameTrace rest
IsFrameTrace (entered d reverted body rest) =
    (d.frame_id < u32_mod) × (d.depth < u32_mod) × IsFrameTrace body × IsFrameTrace rest

-- A trace of a transaction: outside its frames, the mutations name no frame.
abbrev pub IsRootTrace : FrameTrace → Type 0
IsRootTrace done = Unit
IsRootTrace (mutated g rest) = (is_mutation g ≡ true) × (frame_of g ≡ no_frame) × IsRootTrace rest
IsRootTrace (entered d reverted body rest) =
    (d.frame_id < u32_mod) × (d.depth < u32_mod) × IsFrameTrace body × IsRootTrace rest

-- What comes out of a trace, where `mk` makes the event of a payload in a frame at a depth.
module _ (mk : ℕ → ℕ → CsePayload → CanonicalSemanticEvent) where
  -- The mutations that name no frame, reverted or not.
  abbrev pub frameless : FrameTrace → List CanonicalSemanticEvent
  frameless done = []
  frameless (mutated g rest) =
      let later = frameless rest in
      if frame_of g == no_frame then mk u32_max 0 (payload_of g) ∷ later else later
  frameless (entered d reverted body rest) = frameless body ++ frameless rest

  -- The other mutations of a frame and of the frames in it, unless they revert.
  abbrev pub kept : ℕ → ℕ → FrameTrace → List CanonicalSemanticEvent
  kept frame_id depth done = []
  kept frame_id depth (mutated g rest) =
      let later = kept frame_id depth rest in
      if frame_of g == no_frame then later else mk frame_id depth (payload_of g) ∷ later
  kept frame_id depth (entered d reverted body rest) =
      (if reverted then [] else kept d.frame_id d.depth body) ++ kept frame_id depth rest

  -- All of a transaction: a root frame's mutations come out at its end.
  abbrev pub flushed : FrameTrace → List CanonicalSemanticEvent
  flushed done = []
  flushed (mutated g rest) = mk u32_max 0 (payload_of g) ∷ flushed rest
  flushed (entered d reverted body rest) =
      frameless body ++ ((if reverted then [] else kept d.frame_id d.depth body) ++ flushed rest)

-- A stream of blocks and transactions.
pub data BlockTrace : Type 0 where
  finished : BlockTrace
  started : BlockStartData → BlockTrace → BlockTrace
  committed : BlockTrace → BlockTrace
  transaction : TransactionStartData → FrameTrace → TransactionEndData → BlockTrace → BlockTrace

abbrev pub emit_blocks : BlockTrace → List GoEvent
emit_blocks finished = []
emit_blocks (started d rest) = block_start d ∷ emit_blocks rest
emit_blocks (committed rest) = block_commit ∷ emit_blocks rest
emit_blocks (transaction d body e rest) =
    transaction_start d ∷ emit body (transaction_end e ∷ emit_blocks rest)

abbrev pub IsBlockTrace : BlockTrace → Type 0
IsBlockTrace finished = Unit
IsBlockTrace (started d rest) = IsBlockTrace rest
IsBlockTrace (committed rest) = IsBlockTrace rest
IsBlockTrace (transaction d body e rest) = IsRootTrace body × IsBlockTrace rest

-- The state between two events of an open transaction.
abbrev pub open_state :
    List CanonicalSemanticEvent
    → ℕ
    → ℕ
    → Word
    → List CanonicalSemanticEvent
    → List FrameBuffer
    → Translation
open_state out block_number tx_index tx_hash tx_output frame_stack = record {
  final_output = out;
  tx_open = true;
  tx_output = tx_output;
  frame_stack = frame_stack;
  block_number = block_number;
  tx_index = tx_index;
  tx_hash = tx_hash;
}

-- The events of the block, its number known so far: each transaction between its boundaries.
abbrev pub output_of : BridgeConfig → ℕ → BlockTrace → List CanonicalSemanticEvent
output_of config number finished = []
output_of config number (started d rest) = output_of config d.number rest
output_of config number (committed rest) = output_of config number rest
output_of config number (transaction d body e rest) =
    let mk = make_event config (open_state [] number d.tx_index d.hash [] []) in
    mk u32_max 0 begin_transaction
    ∷ (flushed mk body ++ mk u32_max 0 end_transaction ∷ output_of config number rest)
