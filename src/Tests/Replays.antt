-- ===== src/Tests/Replays.antt =====
-- The theorems on the replay, at a batch of one account.
use kaysentinel.Base.{◌≡◌, ◌↔◌, refl, some, List, [], ◌∷◌, Result, ok, err, All, arith}
use kaysentinel.Base.Classes.{Bytes, bytes_cmp, bytes_beq, bytes_ord}
use kaysentinel.Base.BTreeMap.{get, insert}
use kaysentinel.Cse.{Address}
use kaysentinel.Merkle.{merkle_fold, or_zero_leaf, fold_padded, double_until, pad_to, fold_layers}
use kaysentinel.Builder.Lifecycle.Certificate.{verified_root, CanonicalAccountCertificate}
use kaysentinel.Builder.Lifecycle.StorageRoot.{derive, slot_leaves}
use kaysentinel.Verify
use kaysentinel.Verify.{
  ExecutionBatchReplay, ReplayError, no_replay, replay_from, replay_and_verify,
}
use kaysentinel.Verify.Accounts.{is_mutated, is_certified}
use kaysentinel.Verify.Acceptance.{AgreesWith, replay_and_verify-total, replay_and_verify-ok_iff}
use kaysentinel.Verify.LastValues.{
  ClaimsLast, HoldsLast, account-HoldsLast, replay_and_verify-ClaimsLast,
}
use kaysentinel.Base.Members.{IsIn}
use kaysentinel.Verify.{trace_inconsistency, previous_balance, ok_if_empty, account, FieldMismatch}
use kaysentinel.Verify.Inconsistencies.{inconsistencies, replay_and_verify-inconsistent}
use kaysentinel.Verify.Mismatches.{mismatches_of, Differs}
use kaysentinel.Verify.Verdict.{final, IsDue, replay_and_verify-errors}
use kaysentinel.Tests.{alice, word, paid}

abbrev same : Bytes → Bytes
same bytes = bytes

abbrev batch : ExecutionBatchReplay
batch = record {
  account_certificates =
      record {
        address = alice;
        generation = record {
          key = record { address = alice; generation_id = 0 };
          state_table_proof_root = word 0;
        };
        nonce = 0;
        balance = word 3;
        code_hash = word 0;
        storage_root = verified_root (word 0);
      }
      ∷ [];
  execution_traces = paid 1 2 ∷ paid 2 3 ∷ [];
}

accepted : replay_and_verify same batch ≡ some (ok tt)
unfolding replay_and_verify replay_from Verify.replay_payload Verify.mutate Verify.account
    Verify.verify_state Verify.touched_addresses Verify.certified_addresses Verify.difference_errors
    Verify.verify_certificates Verify.verify_certificate Verify.compare_root Verify.field_mismatches
    Verify.mismatch_errors derive slot_leaves merkle_fold or_zero_leaf fold_padded double_until
    pad_to fold_layers get insert bytes_cmp bytes_beq
accepted = refl

replay_and_verify-total_example :
    (r : Result (List ReplayError) (Unit {0})) × (replay_and_verify same batch ≡ some r)
replay_and_verify-total_example = replay_and_verify-total same batch

replay_and_verify-ok_iff_example : (replay_and_verify same batch ≡ some (ok tt)) ↔ (
    ((replay_from no_replay batch.execution_traces).trace_errors ≡ [])
    × AgreesWith same
        (replay_from no_replay batch.execution_traces).state
        batch.account_certificates)
replay_and_verify-ok_iff_example = replay_and_verify-ok_iff same batch

account-HoldsLast_example :
    HoldsLast batch.execution_traces alice
      (Verify.account alice (replay_from no_replay batch.execution_traces).state)
account-HoldsLast_example = account-HoldsLast batch.execution_traces alice

replay_and_verify-ClaimsLast_example :
    ((a : Address)
      → is_mutated a batch.execution_traces ≡ is_certified a batch.account_certificates)
    × All (ClaimsLast same batch.execution_traces) batch.account_certificates
replay_and_verify-ClaimsLast_example = replay_and_verify-ClaimsLast same batch accepted

-- The second payment starts from the wrong balance.
abbrev broken_batch : ExecutionBatchReplay
broken_batch = record batch { execution_traces = paid 1 2 ∷ paid 1 3 ∷ [] }

-- The account of the certificate has another balance.
abbrev wrong_batch : ExecutionBatchReplay
wrong_batch = record batch { execution_traces = paid 1 2 ∷ paid 2 4 ∷ [] }

broken_noted :
    inconsistencies broken_batch.execution_traces ≡ trace_inconsistency alice previous_balance ∷ []
unfolding bytes_beq
broken_noted = refl

replay_and_verify-inconsistent_example :
    replay_and_verify same broken_batch ≡ some (err (inconsistencies broken_batch.execution_traces))
replay_and_verify-inconsistent_example =
    replay_and_verify-inconsistent same broken_batch (λ e. ground (arith, broken_noted, e))

wrong_consistent : inconsistencies wrong_batch.execution_traces ≡ []
unfolding bytes_beq
wrong_consistent = refl

replay_and_verify-errors_example :
    (errors : List ReplayError) × (replay_and_verify same wrong_batch ≡ some (ok_if_empty errors))
    × ((e : ReplayError) → IsIn e errors ↔ IsDue same wrong_batch e)
    × ((c : CanonicalAccountCertificate) (m : FieldMismatch)
        → IsIn m (mismatches_of same (account c.address (final wrong_batch)) c)
          ↔ Differs same (account c.address (final wrong_batch)) c m)
replay_and_verify-errors_example = replay_and_verify-errors same wrong_batch wrong_consistent
