-- ===== src/Verify/Acceptance.antt =====
-- `replay_and_verify` as a whole: panics, and what its `Ok` says.
use kaysentinel.Base.{
  ◌≡◌, ◌↔◌, refl, ap, sym, ◌∙◌, true, not, Option, none, some, List, [], ◌∷◌, ◌++◌, Result, ok, err,
  All, arith, Bool-cases, inl, inr, is_empty, if◌then◌else◌,
}
use kaysentinel.Base.Classes.{Bytes, bytes_eq, bytes_ord, bytes_beq_iff}
use kaysentinel.Base.BTreeMap.{BTreeMap, get, contains_key, is_some, map_option}
use kaysentinel.Cse.{Address}
use kaysentinel.Builder.Lifecycle.Certificate.{CanonicalAccountCertificate}
use kaysentinel.Verify.{
  ExecutionBatchReplay, ReplayError, AccountState, no_replay, replay_from, missing_certificate,
  untouched_certificate, touched_addresses, certified_addresses, difference_errors, verify_state,
  ok_if_empty, replay_and_verify,
}
use kaysentinel.Verify.Accounts.{
  is_certified, IsReplayed, replay_from-IsReplayed, contains-touched_addresses,
  touched_addresses-IsSorted, contains-certified_addresses, certified_addresses-IsSorted,
  difference_errors-nil,
}
use kaysentinel.Verify.Soundness.{
  Certifies, FitsAccount, verify_certificates-total, append-nil_iff, ok_if_empty-ok,
}

-- The certificate's account was replayed, and it certifies what the replay found.
abbrev pub CertifiesIn :
    (Bytes → Bytes) → BTreeMap Address AccountState → CanonicalAccountCertificate → Type 0
CertifiesIn blake3 state c =
    (d : AccountState) × (get c.address state ≡ some d) × Certifies blake3 c d

-- The same accounts are replayed and certified, and every certificate is right.
abbrev pub AgreesWith :
    (Bytes → Bytes) → BTreeMap Address AccountState → List CanonicalAccountCertificate → Type 0
AgreesWith blake3 state cs =
    ((a : Address) → contains_key a state ≡ is_certified a cs) × All (CertifiesIn blake3 state) cs

module _ (blake3 : Bytes → Bytes) (state : BTreeMap Address AccountState) where
  known_certified :
      (c : CanonicalAccountCertificate) (o : Option AccountState)
      → get c.address state ≡ o
      → is_some o ≡ true
      → FitsAccount blake3 c o
      → CertifiesIn blake3 state c
  known_certified c none g k f = absurd (ground arith)
  known_certified c (some d) g k f = (d, g, f)

  fits_certified :
      (cs : List CanonicalAccountCertificate)
      → ((a : Address) → is_certified a cs ≡ true → contains_key a state ≡ true)
      → All (λ c. FitsAccount blake3 c (get c.address state)) cs
      → All (CertifiesIn blake3 state) cs
  fits_certified [] k h = tt
  fits_certified (c ∷ cs) k h =
      let self : is_certified c.address (c ∷ cs) ≡ true =
        ground (arith, bytes_beq_iff c.address c.address) in
      (
        known_certified c (get c.address state) refl (k c.address self) h.0,
        fits_certified cs (λ a e. k a (ground arith)) h.1,
      )

  certified_fits :
      (cs : List CanonicalAccountCertificate)
      → All (CertifiesIn blake3 state) cs
      → All (λ c. FitsAccount blake3 c (get c.address state)) cs
  certified_fits [] h = tt
  certified_fits (c ∷ cs) ((d, g, v), h) = (rw g v, certified_fits cs h)

  module _ (cs : List CanonicalAccountCertificate) (v : IsReplayed state) where
    -- The two sets, compared, are the accounts of the state and of the certificates.
    same_accounts :
        ((a : Address)
          → contains_key a (touched_addresses [] state) ≡ true
          → contains_key a (certified_addresses [] cs) ≡ true)
        → ((a : Address)
            → contains_key a (certified_addresses [] cs) ≡ true
            → contains_key a (touched_addresses [] state) ≡ true)
        → (a : Address) → contains_key a state ≡ is_certified a cs
    unfolding get
    same_accounts m u a = ground (
      arith,
      m a,
      u a,
      contains-touched_addresses a [] state v,
      contains-certified_addresses a [] cs,
    )

    same_sets :
        ((a : Address) → contains_key a state ≡ is_certified a cs)
        → (a : Address)
        → contains_key a (touched_addresses [] state) ≡ contains_key a (certified_addresses [] cs)
    unfolding get
    same_sets f a =
        ground (
          arith,
          f a,
          contains-touched_addresses a [] state v,
          contains-certified_addresses a [] cs,
        )

  -- The part behind the replay loop, on a replayed state.
  verify_state-total :
      (cs : List CanonicalAccountCertificate)
      → IsReplayed state
      → (r : Result (List ReplayError) (Unit {0})) × (verify_state blake3 state cs ≡ some r)
        × ((r ≡ ok tt) ↔ AgreesWith blake3 state cs)
  unfolding verify_state get
  verify_state-total cs v =
      let (es, p, q) = verify_certificates-total blake3 state cs in
      let touched = touched_addresses [] state in
      let certified = certified_addresses [] cs in
      let missing = difference_errors missing_certificate touched certified in
      let untouched = difference_errors untouched_certificate certified touched in
      let all = missing ++ (untouched ++ es) in
      let touched_sorted = touched_addresses-IsSorted [] state tt in
      let certified_sorted = certified_addresses-IsSorted [] cs tt in
      let m = difference_errors-nil missing_certificate certified touched touched_sorted in
      let u = difference_errors-nil untouched_certificate touched certified certified_sorted in
      (
        ok_if_empty all,
        ap (map_option (λ errors. ok_if_empty (missing ++ (untouched ++ errors)))) p,
        (
          λ e.
              let (x, yz) =
                (append-nil_iff missing (untouched ++ es)).0 ((ok_if_empty-ok all).0 e) in
              let (y, z) = (append-nil_iff untouched es).0 yz in
              let same = same_accounts cs v (m.0 x) (u.0 y) in
              (same, fits_certified cs (λ a k. same a ∙ k) (q.0 z)),
          λ h. (ok_if_empty-ok all).1 (
              (append-nil_iff missing (untouched ++ es)).1 (
                m.1 (λ a k. sym (same_sets cs v h.0 a) ∙ k),
                (append-nil_iff untouched es).1
                    (u.1 (λ a k. same_sets cs v h.0 a ∙ k), q.1 (certified_fits cs h.1)),
              )),
        ),
      )

no_replay-IsReplayed : IsReplayed no_replay.state
no_replay-IsReplayed = record { sorted = tt; touched = tt }

-- With no inconsistency noted, the verdict is that of the part behind the loop.
ok_iff {ℓ} :
    {P : Type ℓ} (errors : List ReplayError) (m : Option (Result (List ReplayError) (Unit {0})))
    (x : Result (List ReplayError) (Unit {0}))
    → m ≡ some x
    → ((x ≡ ok tt) ↔ P)
    → ((if not (is_empty errors) then some (err errors) else m) ≡ some (ok tt))
      ↔ ((errors ≡ []) × P)
ok_iff [] m x p q = (λ h. (refl, q.0 (cc (h, p))), λ h. p ∙ ap (λ t. some t) (q.1 h.1))
ok_iff (e ∷ es) m x p q = (λ h. absurd (ground arith), λ h. absurd (ground arith))

-- The replay of any batch returns a verdict: it does not panic, although it unwraps the result of
-- the storage root deriver.
pub replay_and_verify-total :
    (blake3 : Bytes → Bytes) (batch : ExecutionBatchReplay)
    → (r : Result (List ReplayError) (Unit {0})) × (replay_and_verify blake3 batch ≡ some r)
unfolding replay_and_verify
replay_and_verify-total blake3 batch =
    let r = replay_from no_replay batch.execution_traces in
    let v = replay_from-IsReplayed no_replay batch.execution_traces no_replay-IsReplayed in
    let (x, p, q) = verify_state-total blake3 r.state batch.account_certificates v in
    elim (Bool-cases (is_empty r.trace_errors)) [
      | inl clean ↦ (x, ground (arith, clean, p))
      | inr noted ↦ (err r.trace_errors, ground (arith, noted))
    ]

-- The replay accepts a batch if and only if its traces raise no inconsistency, the replayed
-- accounts are exactly the certified ones, and every certificate has the nonce, balance and code
-- hash of its replayed account and the verified root of its slots.
pub replay_and_verify-ok_iff :
    (blake3 : Bytes → Bytes) (batch : ExecutionBatchReplay)
    → (replay_and_verify blake3 batch ≡ some (ok tt)) ↔ (
        ((replay_from no_replay batch.execution_traces).trace_errors ≡ [])
        × AgreesWith blake3
            (replay_from no_replay batch.execution_traces).state
            batch.account_certificates)
unfolding replay_and_verify
replay_and_verify-ok_iff blake3 batch =
    let r = replay_from no_replay batch.execution_traces in
    let v = replay_from-IsReplayed no_replay batch.execution_traces no_replay-IsReplayed in
    let (x, p, q) = verify_state-total blake3 r.state batch.account_certificates v in
    ok_iff r.trace_errors (verify_state blake3 r.state batch.account_certificates) x p q
