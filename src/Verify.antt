-- ===== src/Verify.antt =====
-- runtime/verify/src/lib.rs: the replay of execution traces against account certificates. The outer
-- `Option` of a result is `none` where the source panics.
pub mod Accounts
pub mod Replayed
pub mod LastValues
pub mod Inconsistencies
pub mod Soundness
pub mod Acceptance
pub mod Mismatches
pub mod Reports
pub mod Verdict
pub mod Pipeline
use kaysentinel.Base.{
  ℕ, ◌≡◌, Bool, true, false, not, ◌&&◌, Option, none, some, List, [], ◌∷◌, ◌++◌, Result, ok, err,
  is_empty, if◌then◌else◌,
}
use kaysentinel.Base.Classes.{Bytes, ◌==◌, nat_eq, bytes_eq, bytes_ord}
use kaysentinel.Base.BTreeMap.{BTreeMap, get, insert, contains_key, unwrap_or, map_option}
use kaysentinel.Cse.{
  Address, Word, CsePayload, balance_changed, nonce_updated, code_updated, storage_slot_updated,
  contract_created, contract_destroyed,
}
use kaysentinel.Hash.{Digest, gate2_replay, derive_commitment}
use kaysentinel.Builder.Lifecycle.Certificate.{
  CanonicalAccountCertificate, StorageRootState, verified_root, awaiting_derivation, zero_word,
}
use kaysentinel.Builder.Lifecycle.StorageRoot.{derive}

pub record ExecutionBatchReplay : Type 0 where
  pub account_certificates : List CanonicalAccountCertificate
  pub execution_traces : List CsePayload

-- `ReplayVerifier::verify_envelope_integrity`
unfoldable pub verify_envelope_integrity : (Bytes → Bytes) → Bytes → Digest → Bool
verify_envelope_integrity blake3 raw_ssz_bytes expected_commitment =
    (derive_commitment blake3 gate2_replay raw_ssz_bytes).bytes == expected_commitment.bytes

-- The constructors carry the expected and the found value.
pub data FieldMismatch : Type 0 where
  nonce : ℕ → ℕ → FieldMismatch
  balance : Word → Word → FieldMismatch
  code_hash : Word → Word → FieldMismatch
  storage_root : Word → StorageRootState → FieldMismatch

-- The texts of `TraceInconsistency`, by the payload that found it.
pub data Detail : Type 0 where
  previous_balance previous_nonce previous_code_hash : Detail
  previous_value : Word → Detail

pub data ReplayError : Type 0 where
  trace_inconsistency : Address → Detail → ReplayError
  missing_certificate : Address → ReplayError
  untouched_certificate : Address → ReplayError
  certificate_mismatch : Address → List FieldMismatch → ReplayError
  unresolved_storage_root : Address → ReplayError

pub record AccountState : Type 0 where
  pub nonce : ℕ
  pub balance : Word
  pub code_hash : Word
  pub storage : BTreeMap Word Word
  pub touched : Bool

-- `AccountState::default()`
abbrev pub default_account : AccountState
default_account = record {
  nonce = 0;
  balance = zero_word;
  code_hash = zero_word;
  storage = [];
  touched = false;
}

-- The two variables that the replay loop changes.
pub record Replay : Type 0 where
  pub state : BTreeMap Address AccountState
  pub trace_errors : List ReplayError

-- `state.entry(address).or_default()`, as it is read
unfoldable pub account : Address → BTreeMap Address AccountState → AccountState
account address state = unwrap_or default_account (get address state)

-- What one mutation does: the account is written back as touched, and an inconsistency is noted.
unfoldable pub mutate : Address → AccountState → Bool → Detail → Replay → Replay
mutate address after inconsistent detail r = record {
  state = insert address (record after { touched = true }) r.state;
  trace_errors =
      r.trace_errors ++ (if inconsistent then trace_inconsistency address detail ∷ [] else []);
}

-- `state.entry(address).or_default().touched = true`
unfoldable pub touch : Address → Replay → Replay
touch address r = record r {
  state = insert address (record (account address r.state) { touched = true }) r.state;
}

unfoldable pub replay_payload : CsePayload → Replay → Replay
replay_payload (balance_changed p) r =
    let acct = account p.address r.state in
    mutate p.address (record acct { balance = p.current_balance })
      (acct.touched && not (acct.balance == p.previous_balance)) previous_balance r
replay_payload (nonce_updated p) r =
    let acct = account p.address r.state in
    mutate p.address (record acct { nonce = p.current_nonce })
      (acct.touched && not (acct.nonce == p.previous_nonce)) previous_nonce r
replay_payload (code_updated p) r =
    let acct = account p.address r.state in
    mutate p.address (record acct { code_hash = p.current_code_hash })
      (acct.touched && not (acct.code_hash == p.previous_code_hash)) previous_code_hash r
replay_payload (storage_slot_updated p) r =
    let acct = account p.address r.state in
    let current = unwrap_or zero_word (get p.slot acct.storage) in
    mutate p.address (record acct { storage = insert p.slot p.current_value acct.storage })
      (acct.touched && not (current == p.previous_value)) (previous_value p.slot) r
replay_payload (contract_created p) r = touch p.address r
replay_payload (contract_destroyed p) r = touch p.address r
replay_payload _ r = r

unfoldable pub replay_from : Replay → List CsePayload → Replay
replay_from r [] = r
replay_from r (payload ∷ payloads) = replay_from (replay_payload payload r) payloads

abbrev pub no_replay : Replay
no_replay = record { state = []; trace_errors = [] }

-- `state.iter().filter(|(_, s)| s.touched)`, its addresses collected into a set
unfoldable pub touched_addresses :
    BTreeMap Address (Unit {0}) → BTreeMap Address AccountState → BTreeMap Address (Unit {0})
touched_addresses set [] = set
touched_addresses set ((address, s) ∷ state) =
    touched_addresses (if s.touched then insert address tt set else set) state

-- The addresses of the certificates, collected into a set
unfoldable pub certified_addresses :
    BTreeMap Address (Unit {0}) → List CanonicalAccountCertificate → BTreeMap Address (Unit {0})
certified_addresses set [] = set
certified_addresses set (c ∷ cs) = certified_addresses (insert c.address tt set) cs

-- `a.difference(&b)`, each of its elements pushed as an error
unfoldable pub difference_errors :
    (Address → ReplayError)
    → BTreeMap Address (Unit {0})
    → BTreeMap Address (Unit {0})
    → List ReplayError
difference_errors error [] b = []
difference_errors error ((address, u) ∷ a) b =
    let rest = difference_errors error a b in
    if contains_key address b then rest else error address ∷ rest

-- The three comparisons before the storage root.
unfoldable pub field_mismatches : AccountState → CanonicalAccountCertificate → List FieldMismatch
field_mismatches derived cert =
    (if not (derived.nonce == cert.nonce)
      then FieldMismatch.nonce derived.nonce cert.nonce ∷ []
      else [])
    ++ ((if not (derived.balance == cert.balance)
          then FieldMismatch.balance derived.balance cert.balance ∷ []
          else [])
        ++ (if not (derived.code_hash == cert.code_hash)
            then FieldMismatch.code_hash derived.code_hash cert.code_hash ∷ []
            else []))

-- `if !mismatches.is_empty() { errors.push(..) }`
unfoldable pub mismatch_errors : Address → List FieldMismatch → List ReplayError
mismatch_errors address [] = []
mismatch_errors address (m ∷ ms) = certificate_mismatch address (m ∷ ms) ∷ []

-- `if errors.is_empty() { Ok(()) } else { Err(errors) }`
abbrev pub ok_if_empty : List ReplayError → Result (List ReplayError) (Unit {0})
ok_if_empty [] = ok tt
ok_if_empty (e ∷ es) = err (e ∷ es)

module _ (blake3 : Bytes → Bytes) where
  -- The errors of one certificate whose account was replayed, by its storage root. The deriver's
  -- result is unwrapped with `expect`.
  unfoldable pub compare_root :
      AccountState → CanonicalAccountCertificate → StorageRootState → Option (List ReplayError)
  compare_root derived cert awaiting_derivation = some (
      unresolved_storage_root cert.address
      ∷ mismatch_errors cert.address (field_mismatches derived cert))
  compare_root derived cert (verified_root claimed_root) = elim (derive blake3 derived.storage) [
    | some (ok expected_root) ↦ some (
        mismatch_errors cert.address (
          field_mismatches derived cert
          ++ (if not (expected_root == claimed_root)
              then FieldMismatch.storage_root expected_root (verified_root claimed_root) ∷ []
              else [])))
    | _ ↦ none
  ]

  unfoldable pub verify_certificate :
      BTreeMap Address AccountState → CanonicalAccountCertificate → Option (List ReplayError)
  verify_certificate state cert = elim (get cert.address state) [
    | none ↦ some []
    | some derived ↦ compare_root derived cert cert.storage_root
  ]

  -- The loop over the certificates.
  unfoldable pub verify_certificates :
      BTreeMap Address AccountState → List CanonicalAccountCertificate → Option (List ReplayError)
  verify_certificates state [] = some []
  verify_certificates state (c ∷ cs) =
      let rest = verify_certificates state cs in
      elim (verify_certificate state c) [
        | none ↦ none
        | some here ↦ map_option (λ later. here ++ later) rest
      ]

  -- What follows the replay loop, if it noted no inconsistency.
  unfoldable pub verify_state :
      BTreeMap Address AccountState
      → List CanonicalAccountCertificate
      → Option (Result (List ReplayError) (Unit {0}))
  verify_state state certificates =
      let touched = touched_addresses [] state in
      let certified = certified_addresses [] certificates in
      map_option
        (λ errors. ok_if_empty (
          difference_errors missing_certificate touched certified
          ++ (difference_errors untouched_certificate certified touched ++ errors)))
        (verify_certificates state certificates)

  unfoldable pub replay_and_verify :
      ExecutionBatchReplay → Option (Result (List ReplayError) (Unit {0}))
  unfolding replay_from replay_payload verify_state
  replay_and_verify batch =
      let r = replay_from no_replay batch.execution_traces in
      if not (is_empty r.trace_errors)
      then some (err r.trace_errors)
      else verify_state r.state batch.account_certificates
