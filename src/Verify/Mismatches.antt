-- ===== src/Verify/Mismatches.antt =====
-- The errors of one certificate in the last loop of `replay_and_verify`.
use kaysentinel.Base.{
  ◌≡◌, ◌≢◌, ◌↔◌, ◌⊎◌, inl, inr, refl, ap, sym, append-nil, not, some, List, [], ◌∷◌, ◌++◌, arith,
  if◌then◌else◌,
}
use kaysentinel.Base.Members.{IsIn, IsIn-append_to, IsIn-if}
use kaysentinel.Base.Classes.{Bytes, PartialEq, ◌==◌, nat_eq, bytes_eq, bytes_ord}
use kaysentinel.Builder.Lifecycle.Certificate.{
  CanonicalAccountCertificate, StorageRootState, verified_root, awaiting_derivation,
}
use kaysentinel.Builder.Lifecycle.StorageRoot.Resolved.{storage_tree_root, derive-root}
use kaysentinel.Verify.{
  ReplayError, certificate_mismatch, unresolved_storage_root, AccountState, FieldMismatch,
  field_mismatches, mismatch_errors, compare_root,
}

module _ (blake3 : Bytes → Bytes) (d : AccountState) (c : CanonicalAccountCertificate) where
  abbrev root_mismatches : StorageRootState → List FieldMismatch
  root_mismatches awaiting_derivation = []
  root_mismatches (verified_root claimed) =
      if not (storage_tree_root blake3 d.storage == claimed)
      then FieldMismatch.storage_root (storage_tree_root blake3 d.storage) (verified_root claimed)
        ∷ []
      else []

  abbrev RootDiffers : FieldMismatch → StorageRootState → Type 0
  RootDiffers m awaiting_derivation = ⊥
  RootDiffers m (verified_root claimed) =
      (m ≡ FieldMismatch.storage_root (storage_tree_root blake3 d.storage) (verified_root claimed))
      × (storage_tree_root blake3 d.storage ≢ claimed)

  -- All differences between the replayed account and the certificate, in the order of the fields.
  abbrev pub mismatches_of : List FieldMismatch
  mismatches_of = field_mismatches d c ++ root_mismatches c.storage_root

  abbrev unresolved : StorageRootState → List ReplayError
  unresolved awaiting_derivation = unresolved_storage_root c.address ∷ []
  unresolved (verified_root claimed) = []

  abbrev pub certificate_errors : List ReplayError
  certificate_errors = unresolved c.storage_root ++ mismatch_errors c.address mismatches_of

  compare_root-errors :
      (s : StorageRootState)
      → compare_root blake3 d c s
        ≡ some
            (unresolved s ++ mismatch_errors c.address (field_mismatches d c ++ root_mismatches s))
  unfolding compare_root
  compare_root-errors awaiting_derivation =
      ap (λ ms. some (unresolved_storage_root c.address ∷ mismatch_errors c.address ms))
        (sym (append-nil (field_mismatches d c)))
  compare_root-errors (verified_root claimed) = ground (arith, derive-root blake3 d.storage)

  -- A field of the account and of the certificate, which differ.
  abbrev pub Differs : FieldMismatch → Type 0
  Differs m =
      (((m ≡ FieldMismatch.nonce d.nonce c.nonce) × (d.nonce ≢ c.nonce))
        ⊎ (((m ≡ FieldMismatch.balance d.balance c.balance) × (d.balance ≢ c.balance))
            ⊎ ((m ≡ FieldMismatch.code_hash d.code_hash c.code_hash)
                × (d.code_hash ≢ c.code_hash))))
      ⊎ RootDiffers m c.storage_root

  differs-if :
      {T : Type 0} ⦃q : PartialEq T⦄ (m x : FieldMismatch) (a b : T)
      → IsIn m (if not (a == b) then x ∷ [] else []) ↔ ((m ≡ x) × (a ≢ b))
  differs-if ⦃q⦄ m x a b =
      let i = IsIn-if m x (a == b) in
      let same = q.beq_iff a b in
      (
        λ h. let (e, n) = i.0 h in (e, λ s. ground (arith, n, same, s)),
        λ h. i.1 (h.0, ground (arith, h.1, same)),
      )

  root_mismatches_iff :
      (m : FieldMismatch) (s : StorageRootState) → IsIn m (root_mismatches s) ↔ RootDiffers m s
  root_mismatches_iff m awaiting_derivation = (λ h. h, λ h. h)
  root_mismatches_iff m (verified_root claimed) =
      differs-if m _ (storage_tree_root blake3 d.storage) claimed

  -- The mismatches are the fields that differ.
  pub IsIn-mismatches_of : (m : FieldMismatch) → IsIn m mismatches_of ↔ Differs m
  unfolding field_mismatches
  IsIn-mismatches_of m =
      let n = differs-if m (FieldMismatch.nonce d.nonce c.nonce) d.nonce c.nonce in
      let b = differs-if m (FieldMismatch.balance d.balance c.balance) d.balance c.balance in
      let h =
        differs-if m (FieldMismatch.code_hash d.code_hash c.code_hash) d.code_hash c.code_hash in
      let r = root_mismatches_iff m c.storage_root in
      IsIn-append_to m (field_mismatches d c) (root_mismatches c.storage_root)
        (IsIn-append_to m _ _ n (IsIn-append_to m _ _ b h)) r

  -- What is wrong with the certificate: its storage root is not derived, or some fields differ.
  abbrev pub IsFault : ReplayError → Type 0
  IsFault e =
      ((e ≡ unresolved_storage_root c.address) × (c.storage_root ≡ awaiting_derivation))
      ⊎ ((e ≡ certificate_mismatch c.address mismatches_of) × (mismatches_of ≢ []))

  unresolved_iff :
      (e : ReplayError) (s : StorageRootState)
      → IsIn e (unresolved s)
        ↔ ((e ≡ unresolved_storage_root c.address) × (s ≡ awaiting_derivation))
  unresolved_iff e awaiting_derivation =
      (λ h. elim h [ inl q ↦ (q, refl) | inr n ↦ absurd n ], λ h. inl h.0)
  unresolved_iff e (verified_root claimed) = (λ h. absurd h, λ h. absurd (ground (arith, h.1)))

  mismatch_errors_iff :
      (e : ReplayError) (ms : List FieldMismatch)
      → IsIn e (mismatch_errors c.address ms)
        ↔ ((e ≡ certificate_mismatch c.address ms) × (ms ≢ []))
  unfolding mismatch_errors
  mismatch_errors_iff e [] = (λ h. absurd h, λ h. absurd (h.1 refl))
  mismatch_errors_iff e (m ∷ ms) =
      (λ h. elim h [ inl q ↦ (q, λ n. ground (arith, n)) | inr n ↦ absurd n ], λ h. inl h.0)

  pub IsIn-certificate_errors : (e : ReplayError) → IsIn e certificate_errors ↔ IsFault e
  IsIn-certificate_errors e =
      IsIn-append_to e (unresolved c.storage_root) (mismatch_errors c.address mismatches_of)
        (unresolved_iff e c.storage_root) (mismatch_errors_iff e mismatches_of)

  pub compare_root-eq : compare_root blake3 d c c.storage_root ≡ some certificate_errors
  compare_root-eq = compare_root-errors c.storage_root
