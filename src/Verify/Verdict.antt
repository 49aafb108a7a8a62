-- ===== src/Verify/Verdict.antt =====
-- The verdict of the replay on traces without an inconsistency.
use kaysentinel.Base.{
  ◌≡◌, ◌↔◌, ◌⊎◌, ap, sym, ◌∙◌, Bool, true, false, some, List, [], ◌++◌, err, arith, is_empty, not,
  if◌then◌else◌,
}
use kaysentinel.Base.Classes.{Bytes, bytes_eq, bytes_ord}
use kaysentinel.Base.Members.{IsIn, IsIn-append_to}
use kaysentinel.Base.BTreeMap.{BTreeMap, get, contains_key, IsSorted, map_option}
use kaysentinel.Base.BTreeMap.Values.{get_entries}
use kaysentinel.Cse.{Address}
use kaysentinel.Builder.Lifecycle.Certificate.{CanonicalAccountCertificate}
use kaysentinel.Verify.{
  ExecutionBatchReplay, ReplayError, FieldMismatch, missing_certificate, untouched_certificate,
  AccountState, no_replay, replay_from, touched_addresses, certified_addresses, difference_errors,
  verify_state, ok_if_empty, replay_and_verify, account,
}
use kaysentinel.Verify.Accounts.{
  is_mutated, is_certified, IsReplayed, replay_from-IsReplayed, contains-replay_from,
  contains-touched_addresses, touched_addresses-IsSorted, contains-certified_addresses,
  certified_addresses-IsSorted,
}
use kaysentinel.Verify.Mismatches.{IsFault, mismatches_of, Differs, IsIn-mismatches_of}
use kaysentinel.Verify.Reports.{
  Addresses, key_of_contains, contains_of_key, IsIn-difference, all_errors, verify_certificates-eq,
  IsIn-all_errors,
}
use kaysentinel.Verify.Inconsistencies.{inconsistencies, trace_errors-inconsistencies}

-- The accounts after the traces of a batch.
abbrev pub final : ExecutionBatchReplay → BTreeMap Address AccountState
final batch = (replay_from no_replay batch.execution_traces).state

module _ (blake3 : Bytes → Bytes) (batch : ExecutionBatchReplay) where
  -- Why an error is reported: an account that the traces mutate has no certificate, or a certificate's
  -- account is not mutated, or a certificate of a mutated account is at fault.
  abbrev pub IsDue : ReplayError → Type 0
  IsDue e =
      ((a : Address) × (is_mutated a batch.execution_traces ≡ true)
        × (is_certified a batch.account_certificates ≡ false)
        × (e ≡ missing_certificate a))
      ⊎ (((a : Address) × (is_certified a batch.account_certificates ≡ true)
            × (is_mutated a batch.execution_traces ≡ false)
            × (e ≡ untouched_certificate a))
          ⊎ ((c : CanonicalAccountCertificate) × IsIn c batch.account_certificates
              × (is_mutated c.address batch.execution_traces ≡ true)
              × IsFault blake3 (account c.address (final batch)) c e))

  final-IsReplayed : IsReplayed (final batch)
  final-IsReplayed =
      replay_from-IsReplayed no_replay batch.execution_traces (record { sorted = tt; touched = tt })

  known_mutated : (a : Address) → contains_key a (final batch) ≡ is_mutated a batch.execution_traces
  unfolding get
  known_mutated a = ground (arith, contains-replay_from a no_replay batch.execution_traces)

  touched_mutated :
      (a : Address)
      → contains_key a (touched_addresses [] (final batch)) ≡ is_mutated a batch.execution_traces
  unfolding get
  touched_mutated a =
      ground
        (arith, known_mutated a, contains-touched_addresses a [] (final batch) final-IsReplayed)

  set_certified :
      (a : Address)
      → contains_key a (certified_addresses [] batch.account_certificates)
        ≡ is_certified a batch.account_certificates
  unfolding get
  set_certified a = ground (arith, contains-certified_addresses a [] batch.account_certificates)

  -- The errors of a difference of two sets, by what the sets contain.
  difference-due :
      (error : Address → ReplayError) (e : ReplayError) (s t : Addresses) (f g : Address → Bool)
      → IsSorted s
      → ((a : Address) → contains_key a s ≡ f a)
      → ((a : Address) → contains_key a t ≡ g a)
      → IsIn e (difference_errors error s t)
        ↔ ((a : Address) × (f a ≡ true) × (g a ≡ false) × (e ≡ error a))
  difference-due error e s t f g sorted p q =
      let d = IsIn-difference error e t s in
      (
        λ h.
            let (a, i, n, x) = d.0 h in
            (a, sym (p a) ∙ contains_of_key a s s (get_entries s sorted) i, sym (q a) ∙ n, x),
        λ h. d.1 (h.0, key_of_contains h.0 s (p h.0 ∙ h.1), q h.0 ∙ h.2, h.3),
      )

  -- If no payload of a batch is inconsistent with those before it, the replay returns a list of
  -- errors, or accepts if it is empty. An error is in the list if and only if an account that the
  -- traces mutate has no certificate, or a certificate's account is not mutated, or a certificate
  -- of a mutated account has a storage root that is not derived or differs in some field from the
  -- replayed account. Each is reported as itself, the last with the list of all differences: those
  -- fields of nonce, balance, code hash and verified storage root that are not equal, with both
  -- values.
  pub replay_and_verify-errors :
      inconsistencies batch.execution_traces ≡ []
      → (errors : List ReplayError) × (replay_and_verify blake3 batch ≡ some (ok_if_empty errors))
        × ((e : ReplayError) → IsIn e errors ↔ IsDue e)
        × ((c : CanonicalAccountCertificate) (m : FieldMismatch)
            → IsIn m (mismatches_of blake3 (account c.address (final batch)) c)
              ↔ Differs blake3 (account c.address (final batch)) c m)
  unfolding replay_and_verify verify_state
  replay_and_verify-errors clean =
      let cs = batch.account_certificates in
      let touched = touched_addresses [] (final batch) in
      let certified = certified_addresses [] cs in
      let missing = difference_errors missing_certificate touched certified in
      let untouched = difference_errors untouched_certificate certified touched in
      let none_noted = trace_errors-inconsistencies batch.execution_traces ∙ clean in
      (
        missing ++ (untouched ++ all_errors blake3 (final batch) cs),
        ap (λ t. if not (is_empty t) then some (err t) else verify_state blake3 (final batch) cs)
              none_noted
            ∙ ap (map_option (λ es. ok_if_empty (missing ++ (untouched ++ es))))
                (verify_certificates-eq blake3 (final batch) cs),
        λ e.
            let faulty = IsIn-all_errors blake3 (final batch) e cs in
            IsIn-append_to e missing (untouched ++ all_errors blake3 (final batch) cs)
              (difference-due missing_certificate e touched certified _ _
                (touched_addresses-IsSorted [] (final batch) tt) touched_mutated set_certified)
              (IsIn-append_to e untouched (all_errors blake3 (final batch) cs)
                (difference-due untouched_certificate e certified touched _ _
                  (certified_addresses-IsSorted [] cs tt) set_certified touched_mutated)
                (
                  λ h.
                      let (c, i, k, f) = faulty.0 h in (c, i, sym (known_mutated c.address) ∙ k, f),
                  λ h. faulty.1 (h.0, h.1, known_mutated h.0.address ∙ h.2, h.3),
                )),
        λ c m. IsIn-mismatches_of blake3 (account c.address (final batch)) c m,
      )
