-- ===== src/Tests.antt =====
-- Sample events and tables, and the theorems applied to them.
pub mod Streams
pub mod Wire
pub mod Accounts
pub mod Replays
pub mod Bridges
pub mod Lifecycles
pub mod Pipelines
pub mod Hexes
pub mod Creations
use kaysentinel.Base.{ℕ, List, [], ◌∷◌, replicate}
use kaysentinel.Cse.{
  Address, Word, ExecutionContext, CsePayload, begin_transaction, end_transaction, balance_changed,
  nonce_updated, v1, CanonicalSemanticEvent,
}
use kaysentinel.Builder.Partition.Transactions.{Transaction}

abbrev pub alice : Address
alice = replicate 20 1

abbrev pub word : ℕ → Word
word b = replicate 32 b

abbrev pub context_at : ℕ → ExecutionContext
context_at n = record {
  normative = record { sequence_number = n };
  provisional = record {
    chain_id = 1;
    block_hash = word 9;
    block_number = 7;
    transaction_hash = word 8;
    transaction_index = 0;
  };
  trace = record { call_frame_id = 0; call_depth = 0 };
}

abbrev pub event_at : ℕ → CsePayload → CanonicalSemanticEvent
event_at n payload = record { version = v1; context = context_at n; payload = payload }

abbrev pub paid : ℕ → ℕ → CsePayload
paid a b =
    balance_changed
      (record { address = alice; previous_balance = word a; current_balance = word b })

abbrev pub counted : ℕ → ℕ → CsePayload
counted a b = nonce_updated (record { address = alice; previous_nonce = a; current_nonce = b })

-- A transaction that pays twice and counts once.
abbrev pub payment : Transaction
payment = record {
  opening = event_at 0 begin_transaction;
  body = event_at 1 (paid 1 2) ∷ event_at 2 (counted 4 5) ∷ event_at 3 (paid 2 3) ∷ [];
  closing = event_at 4 end_transaction;
}
