-- ===== src/Builder/Lifecycle/Certificate/Finished.antt =====
-- Where the fields of a finished certificate come from.
use kaysentinel.Base.{◌≡◌, Option, none, some, Result, ok, err, arith, Result-cases, inl, inr}
use kaysentinel.Base.Classes.{bytes_eq, bytes_ord}
use kaysentinel.Base.BTreeMap.{BTreeMap, IsSorted}
use kaysentinel.Cse.{Address}
use kaysentinel.Builder.Ir.{CanonicalKey, key_ord, ReducedVariant}
use kaysentinel.Builder.Lifecycle.Certificate.{
  GenerationResolutionError, VerifiedGeneration, AccountSnapshotSource, ResolvedAccountSnapshot,
  awaiting_derivation, CanonicalAccountCertificate, no_fields, CertificateBuilder, recover_fields,
  fill, finish_certificate,
}
use kaysentinel.Builder.Lifecycle.Certificate.Fields.{
  IsKeyed, terminal_nonce, terminal_balance, terminal_code, first_of, fields_from,
  fields_from-nonce, fields_from-balance, fields_from-code,
}

-- A field taken from the table where that has a value, and else from the snapshot.
abbrev pub IsTakenFrom :
    {T : Type 0}
    → Option T
    → Result GenerationResolutionError ResolvedAccountSnapshot
    → (ResolvedAccountSnapshot → T)
    → T
    → Type 0
IsTakenFrom (some t) r field x = x ≡ t
IsTakenFrom none r field x = (s : ResolvedAccountSnapshot) × (r ≡ ok s) × (x ≡ field s)

module _ {T : Type 0} (r : Result GenerationResolutionError ResolvedAccountSnapshot)
    (field : ResolvedAccountSnapshot → T) where
  taken_recovered :
      (o : Option T) (s : ResolvedAccountSnapshot) (x : T)
      → r ≡ ok s
      → some x ≡ fill o (field s)
      → IsTakenFrom o r field x
  taken_recovered none s x p e = (s, p, cc)
  taken_recovered (some t) s x p e = cc

  taken_unrecovered : (o : Option T) (x : T) → o ≡ some x → IsTakenFrom o r field x
  taken_unrecovered none x e = absurd (ground arith)
  taken_unrecovered (some t) x e = cc

  pub from_table :
      (o : Option T) (x : T) → IsTakenFrom (first_of o none) r field x → IsTakenFrom o r field x
  from_table none x h = h
  from_table (some t) x h = h

module _ (source : AccountSnapshotSource) where
  -- A finished certificate, if the snapshot can be recovered, and if it cannot.
  finish_recovered :
      (a : Address) (b : CertificateBuilder) (s : ResolvedAccountSnapshot)
      (x : Address × CanonicalAccountCertificate)
      → source.recover_account_snapshot a ≡ ok s
      → finish_certificate source a b ≡ ok x
      → (some x.1.nonce ≡ fill b.fields.nonce s.nonce)
        × (some x.1.balance ≡ fill b.fields.balance s.balance)
        × (some x.1.code_hash ≡ fill b.fields.code_hash s.code_hash)
  unfolding finish_certificate recover_fields
  finish_recovered a b s x p h = ground (arith, p)

  finish_unrecovered :
      (a : Address) (b : CertificateBuilder) (e : GenerationResolutionError)
      (x : Address × CanonicalAccountCertificate)
      → source.recover_account_snapshot a ≡ err e
      → finish_certificate source a b ≡ ok x
      → (b.fields.nonce ≡ some x.1.nonce)
        × (b.fields.balance ≡ some x.1.balance)
        × (b.fields.code_hash ≡ some x.1.code_hash)
  unfolding finish_certificate recover_fields
  finish_unrecovered a b e x p h = ground (arith, p)

  pub finish_certificate-parts :
      (a : Address) (b : CertificateBuilder) (x : Address × CanonicalAccountCertificate)
      → finish_certificate source a b ≡ ok x
      → (x.0 ≡ a)
        × (x.1.address ≡ b.address)
        × (x.1.generation ≡ b.generation)
        × (x.1.storage_root ≡ awaiting_derivation)
  unfolding finish_certificate recover_fields
  finish_certificate-parts a b x h = ground arith

  module _ (table : BTreeMap CanonicalKey ReducedVariant) (sorted : IsSorted table)
      (keyed : IsKeyed table) (a : Address) where
    -- The three fields of a finished certificate.
    pub finish_fields :
        (g : VerifiedGeneration) (x : Address × CanonicalAccountCertificate)
        → finish_certificate source a
            (record { address = a; generation = g; fields = fields_from a no_fields table })
          ≡ ok x
        → IsTakenFrom
            (first_of (terminal_nonce table a) none)
            (source.recover_account_snapshot a)
            (λ s. s.nonce)
            x.1.nonce
          × IsTakenFrom
              (first_of (terminal_balance table a) none)
              (source.recover_account_snapshot a)
              (λ s. s.balance)
              x.1.balance
          × IsTakenFrom
              (first_of (terminal_code table a) none)
              (source.recover_account_snapshot a)
              (λ s. s.code_hash)
              x.1.code_hash
    finish_fields g x h =
        let b : CertificateBuilder = record {
          address = a;
          generation = g;
          fields = fields_from a no_fields table;
        } in
        rw
          (
            ← fields_from-nonce a no_fields table sorted keyed,
            ← fields_from-balance a no_fields table sorted keyed,
            ← fields_from-code a no_fields table sorted keyed,
          )
          (elim (Result-cases (source.recover_account_snapshot a)) [
            | inl (s, p) ↦
                let (n, w, c) = finish_recovered a b s x p h in
                (
                  taken_recovered _ _ b.fields.nonce s _ p n,
                  taken_recovered _ _ b.fields.balance s _ p w,
                  taken_recovered _ _ b.fields.code_hash s _ p c,
                )
            | inr (e, p) ↦
                let (n, w, c) = finish_unrecovered a b e x p h in
                (
                  taken_unrecovered _ _ b.fields.nonce _ n,
                  taken_unrecovered _ _ b.fields.balance _ w,
                  taken_unrecovered _ _ b.fields.code_hash _ c,
                )
          ])
