-- ===== src/Verify/Soundness.antt =====
-- What it means that the replay accepts a batch.
use kaysentinel.Base.{
  ◌≡◌, ◌↔◌, refl, not, Option, none, some, List, [], ◌∷◌, ◌++◌, ok, All, arith, if◌then◌else◌,
}
use kaysentinel.Base.Classes.{Bytes, ◌==◌, nat_eq, bytes_eq, bytes_ord, bytes_beq_iff}
use kaysentinel.Base.BTreeMap.{BTreeMap, get}
use kaysentinel.Cse.{Address}
use kaysentinel.Builder.Lifecycle.Certificate.{
  CanonicalAccountCertificate, StorageRootState, verified_root, awaiting_derivation,
}
use kaysentinel.Builder.Lifecycle.StorageRoot.Resolved.{storage_tree_root, derive-root}
use kaysentinel.Verify.{
  ReplayError, AccountState, FieldMismatch, field_mismatches, mismatch_errors, compare_root,
  verify_certificate, verify_certificates, ok_if_empty,
}

-- The certificate claims what the replayed account holds, and a verified root of its slots.
pub record Certifies (blake3 : Bytes → Bytes) (cert : CanonicalAccountCertificate)
    (derived : AccountState) : Type 0 where
  pub nonce : derived.nonce ≡ cert.nonce
  pub balance : derived.balance ≡ cert.balance
  pub code_hash : derived.code_hash ≡ cert.code_hash
  pub storage_root : cert.storage_root ≡ verified_root (storage_tree_root blake3 derived.storage)

-- A certificate fits an account that the replay does not know, or one that it certifies.
abbrev pub FitsAccount :
    (Bytes → Bytes) → CanonicalAccountCertificate → Option AccountState → Type 0
FitsAccount blake3 cert none = Unit
FitsAccount blake3 cert (some derived) = Certifies blake3 cert derived

field_mismatches-nil :
    (d : AccountState) (c : CanonicalAccountCertificate)
    → (field_mismatches d c ≡ [])
      ↔ ((d.nonce ≡ c.nonce) × (d.balance ≡ c.balance) × (d.code_hash ≡ c.code_hash))
unfolding field_mismatches
field_mismatches-nil d c =
    ground (arith, bytes_beq_iff d.balance c.balance, bytes_beq_iff d.code_hash c.code_hash)

mismatch_errors-nil :
    (a : Address) (ms : List FieldMismatch) → (mismatch_errors a ms ≡ []) ↔ (ms ≡ [])
unfolding mismatch_errors
mismatch_errors-nil a [] = ground arith
mismatch_errors-nil a (m ∷ ms) = ground arith

pub append-nil_iff {ℓ} : {A : Type ℓ} (xs ys : List A) → (xs ++ ys ≡ []) ↔ ((xs ≡ []) × (ys ≡ []))
append-nil_iff [] ys = ground arith
append-nil_iff (x ∷ xs) ys = ground arith

module _ (blake3 : Bytes → Bytes) where
  -- Comparing never panics, and finds nothing exactly if the certificate is right.
  compare_root-total :
      (d : AccountState) (c : CanonicalAccountCertificate) (s : StorageRootState)
      → (es : List ReplayError) × (compare_root blake3 d c s ≡ some es)
        × ((es ≡ []) ↔ (
            (field_mismatches d c ≡ []) × (s ≡ verified_root (storage_tree_root blake3 d.storage))))
  unfolding compare_root
  compare_root-total d c awaiting_derivation = (_, refl, ground arith)
  compare_root-total d c (verified_root claimed) =
      let root = storage_tree_root blake3 d.storage in
      let ms =
        field_mismatches d c
        ++ (if not (root == claimed)
            then FieldMismatch.storage_root root (verified_root claimed) ∷ []
            else []) in
      (
        mismatch_errors c.address ms,
        ground (arith, derive-root blake3 d.storage),
        ground (
          arith,
          mismatch_errors-nil c.address ms,
          append-nil_iff (field_mismatches d c) (
              if not (root == claimed)
              then FieldMismatch.storage_root root (verified_root claimed) ∷ []
              else []),
          bytes_beq_iff root claimed,
        ),
      )

  fits_iff :
      (es : List ReplayError) (d : AccountState) (c : CanonicalAccountCertificate)
      → (es ≡ []) ↔ (
          (field_mismatches d c ≡ [])
          × (c.storage_root ≡ verified_root (storage_tree_root blake3 d.storage)))
      → (es ≡ []) ↔ Certifies blake3 c d
  fits_iff es d c q = (
    λ e.
        let (f, r) = q.0 e in
        let (n, b, h) = (field_mismatches-nil d c).0 f in
        record { nonce = n; balance = b; code_hash = h; storage_root = r },
    λ v. q.1 ((field_mismatches-nil d c).1 (v.nonce, v.balance, v.code_hash), v.storage_root),
  )

  verify_certificate-total :
      (state : BTreeMap Address AccountState) (c : CanonicalAccountCertificate)
      → (es : List ReplayError) × (verify_certificate blake3 state c ≡ some es)
        × ((es ≡ []) ↔ FitsAccount blake3 c (get c.address state))
  unfolding verify_certificate
  verify_certificate-total state c = at (get c.address state)
    where
      at :
          (o : Option AccountState)
          → (es : List ReplayError) × ((elim o as (λ o. Option (List ReplayError)) [
            | none ↦ some []
            | some derived ↦ compare_root blake3 derived c c.storage_root
          ])
              ≡ some es)
            × ((es ≡ []) ↔ FitsAccount blake3 c o)
      at none = ([], refl, ground arith)
      at (some d) =
          let (es, p, q) = compare_root-total d c c.storage_root in (es, p, fits_iff es d c q)

  pub verify_certificates-total :
      (state : BTreeMap Address AccountState) (cs : List CanonicalAccountCertificate)
      → (es : List ReplayError) × (verify_certificates blake3 state cs ≡ some es)
        × ((es ≡ []) ↔ All (λ c. FitsAccount blake3 c (get c.address state)) cs)
  unfolding verify_certificates
  verify_certificates-total state [] = ([], refl, ground arith)
  verify_certificates-total state (c ∷ cs) =
      let (here, p, q) = verify_certificate-total state c in
      let (later, r, s) = verify_certificates-total state cs in
      (
        here ++ later,
        ground (arith, p, r),
        (
          λ e. let (x, y) = (append-nil_iff here later).0 e in (q.0 x, s.0 y),
          λ h. (append-nil_iff here later).1 (q.1 h.0, s.1 h.1),
        ),
      )

pub ok_if_empty-ok : (es : List ReplayError) → (ok_if_empty es ≡ ok tt) ↔ (es ≡ [])
ok_if_empty-ok [] = ground arith
ok_if_empty-ok (e ∷ es) = ground arith
