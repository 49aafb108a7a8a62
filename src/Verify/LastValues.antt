-- ===== src/Verify/LastValues.antt =====
-- What an account holds after a replay, and what an accepted certificate claims.
use kaysentinel.Base.{◌≡◌, refl, ap, sym, subst, ◌∙◌, some, List, [], ◌∷◌, ok, All, All-imp, arith}
use kaysentinel.Base.Classes.{Bytes, nat_eq, bytes_eq, bytes_ord}
use kaysentinel.Base.BTreeMap.{BTreeMap, get}
use kaysentinel.Cse.{Address, Word, CsePayload}
use kaysentinel.Builder.Lifecycle.Certificate.{CanonicalAccountCertificate, verified_root}
use kaysentinel.Builder.Lifecycle.StorageRoot.Resolved.{storage_tree_root}
use kaysentinel.Verify.{
  ExecutionBatchReplay, AccountState, Replay, account, replay_payload, replay_from, no_replay,
  replay_and_verify,
}
use kaysentinel.Verify.Accounts.{is_mutated, is_certified, contains-replay_from}
use kaysentinel.Verify.Acceptance.{replay_and_verify-ok_iff, CertifiesIn}
use kaysentinel.Verify.Replayed.{
  balance_step, nonce_step, next_code, last_value, next_slot, last_code, last_nonce, code_step,
  last_balance, next_balance, last_slot, next_nonce, slot_step,
}

-- A field whose every step is a step of its own fold ends where that fold ends.
module _ {B : Type 0} (field : AccountState → B) (next : CsePayload → B → B) (a : Address)
    (steps : (r : Replay) (p : CsePayload)
      → field (account a (replay_payload p r).state) ≡ next p (field (account a r.state))) where
  field_after :
      (r : Replay) (ps : List CsePayload)
      → field (account a (replay_from r ps).state) ≡ last_value next (field (account a r.state)) ps
  unfolding replay_from
  field_after r [] = refl
  field_after r (p ∷ ps) =
      field_after (replay_payload p r) ps ∙ ap (λ t. last_value next t ps) (steps r p)

-- The account holds the last value of each field.
pub record HoldsLast (traces : List CsePayload) (a : Address) (s : AccountState) : Type 0 where
  pub nonce : s.nonce ≡ last_nonce a traces
  pub balance : s.balance ≡ last_balance a traces
  pub code_hash : s.code_hash ≡ last_code a traces
  pub storage : (slot : Word) → get slot s.storage ≡ last_slot a slot traces

-- After the replay of any traces, inconsistent ones too, an account holds for each field the last
-- value that the traces give it, zero if none does, and at each slot the last value of that slot,
-- none if no trace writes it.
pub account-HoldsLast :
    (traces : List CsePayload) (a : Address)
    → HoldsLast traces a (account a (replay_from no_replay traces).state)
unfolding account get
account-HoldsLast traces a = record {
  nonce = field_after (λ s. s.nonce) (next_nonce a) a (nonce_step a) no_replay traces;
  balance = field_after (λ s. s.balance) (next_balance a) a (balance_step a) no_replay traces;
  code_hash = field_after (λ s. s.code_hash) (next_code a) a (code_step a) no_replay traces;
  storage = λ slot.
      field_after (λ s. get slot s.storage) (next_slot a slot) a (λ r. slot_step a r slot) no_replay
        traces;
}

-- The certificate claims the last values, and the root of slots that hold the last values.
pub record ClaimsLast (blake3 : Bytes → Bytes) (traces : List CsePayload)
    (c : CanonicalAccountCertificate) : Type 0 where
  pub nonce : c.nonce ≡ last_nonce c.address traces
  pub balance : c.balance ≡ last_balance c.address traces
  pub code_hash : c.code_hash ≡ last_code c.address traces
  pub slots : BTreeMap Word Word
  pub slot : (s : Word) → get s slots ≡ last_slot c.address s traces
  pub storage_root : c.storage_root ≡ verified_root (storage_tree_root blake3 slots)

claims_of :
    (blake3 : Bytes → Bytes) (traces : List CsePayload) (c : CanonicalAccountCertificate)
    → CertifiesIn blake3 (replay_from no_replay traces).state c
    → ClaimsLast blake3 traces c
unfolding account
claims_of blake3 traces c (d, g, v) =
    let same : account c.address (replay_from no_replay traces).state ≡ d = rw g refl in
    let h : HoldsLast traces c.address d =
      subst (HoldsLast traces c.address) same (account-HoldsLast traces c.address) in
    record {
      nonce = sym v.nonce ∙ h.nonce;
      balance = sym v.balance ∙ h.balance;
      code_hash = sym v.code_hash ∙ h.code_hash;
      slots = d.storage;
      slot = h.storage;
      storage_root = v.storage_root;
    }

-- If the replay accepts a batch, the accounts that its traces mutate are exactly those that its
-- certificates name. Every certificate claims, for each field, the last value that the traces give
-- it (zero if none does) and, as its verified storage root, the root of the tree over slots that
-- hold the last value of each slot.
pub replay_and_verify-ClaimsLast :
    (blake3 : Bytes → Bytes) (batch : ExecutionBatchReplay)
    → replay_and_verify blake3 batch ≡ some (ok tt)
    → ((a : Address)
        → is_mutated a batch.execution_traces ≡ is_certified a batch.account_certificates)
      × All (ClaimsLast blake3 batch.execution_traces) batch.account_certificates
unfolding get
replay_and_verify-ClaimsLast blake3 batch h =
    let (clean, (same, certs)) = (replay_and_verify-ok_iff blake3 batch).0 h in
    (
      λ a. ground (arith, same a, contains-replay_from a no_replay batch.execution_traces),
      All-imp (claims_of blake3 batch.execution_traces) batch.account_certificates certs,
    )
