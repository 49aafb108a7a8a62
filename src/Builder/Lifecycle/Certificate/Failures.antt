-- ===== src/Builder/Lifecycle/Certificate/Failures.antt =====
-- The error paths of `build_canonical_certificates` (lifecycle/certificate.rs).
use kaysentinel.Base.{
  ◌≡◌, ◌↔◌, ◌⊎◌, true, none, some, List, [], ◌∷◌, ok, err, All, arith, Result-cases, Option-cases,
  inl, inr,
}
use kaysentinel.Base.Classes.{bytes_eq, bytes_ord, bytes_beq_iff}
use kaysentinel.Base.BTreeMap.{BTreeMap, get, insert, IsSorted, try_collect}
use kaysentinel.Base.BTreeMap.Values.{get_entries}
use kaysentinel.Cse.{Address}
use kaysentinel.Builder.Ir.{CanonicalKey, key_address, key_ord, ReducedVariant}
use kaysentinel.Builder.Lifecycle.Keys.{CanonicalGeneration}
use kaysentinel.Builder.Lifecycle.Certificate.{
  GenerationResolutionError, VerifiedGeneration, AccountSnapshotSource, ResolvedAccountSnapshot,
  CanonicalAccountCertificate, no_fields, CertificateBuilder, set_field, recover_fields,
  finish_certificate, generation_of, builder_for, gather_builders, build_canonical_certificates,
}
use kaysentinel.Builder.Lifecycle.Certificate.Fields.{
  IsKeyed, is_projected, terminal_nonce, terminal_balance, terminal_code, fields_from,
  fields_from-nonce, fields_from-balance, fields_from-code,
}
use kaysentinel.Builder.Lifecycle.Certificate.Gathered.{gather_builders-get}
use kaysentinel.Builder.Lifecycle.Certificate.Built.{IsBuiltFrom, build_canonical_certificates-each}
use kaysentinel.Builder.Lifecycle.Hydration.Agreement.{gather_valid}

-- The table has not all three fields of the account.
abbrev pub LacksField : BTreeMap CanonicalKey ReducedVariant → Address → Type 0
LacksField table a =
    (terminal_nonce table a ≡ none)
    ⊎ ((terminal_balance table a ≡ none) ⊎ (terminal_code table a ≡ none))

module _ (source : AccountSnapshotSource) (generations : List CanonicalGeneration) where
  builder_for-err :
      (a : Address) (B : BTreeMap Address CertificateBuilder) (e : GenerationResolutionError)
      → builder_for source generations a B ≡ err e
      → generation_of source generations a ≡ err e
  unfolding builder_for
  builder_for-err a B e h = ground arith

  gather_builders-err :
      (table : BTreeMap CanonicalKey ReducedVariant) (B : BTreeMap Address CertificateBuilder)
      (e : GenerationResolutionError)
      → gather_builders source generations B table ≡ err e
      → (a : Address) × (is_projected a table ≡ true) × (generation_of source generations a ≡ err e)
  unfolding gather_builders
  gather_builders-err [] B e h = absurd (ground arith)
  gather_builders-err ((k, v) ∷ table) B e h =
      elim (Result-cases (builder_for source generations (key_address k) B)) [
        | inl (b, p) ↦
            let (a, there, fails) =
              gather_builders-err table
                (insert (key_address k) (record b { fields = set_field v b.fields }) B) e
                (rw p at h) in
            (a, ground (arith, there), fails)
        | inr (x, p) ↦ (
          key_address k,
          ground (arith, bytes_beq_iff (key_address k) (key_address k)),
          builder_for-err (key_address k) B e (ground (arith, p, (rw p at h))),
        )
      ]

  -- An entry of the builders fails to finish.
  finish-err :
      (part whole : BTreeMap Address CertificateBuilder)
      (acc : BTreeMap Address CanonicalAccountCertificate) (e : GenerationResolutionError)
      → All (λ x. get x.0 whole ≡ some x.1) part
      → try_collect (finish_certificate source) acc part ≡ err e
      → (a : Address) × (b : CertificateBuilder) × (get a whole ≡ some b)
        × (finish_certificate source a b ≡ err e)
  unfolding try_collect
  finish-err [] whole acc e all h = absurd (ground arith)
  finish-err ((a, b) ∷ part) whole acc e all h =
      elim (Result-cases (finish_certificate source a b)) [
        | inl (x, p) ↦ finish-err part whole (insert x.0 x.1 acc) e all.1 (rw p at h)
        | inr (x, p) ↦ (a, b, all.0, ground (arith, p, (rw p at h)))
      ]

  -- It fails because its snapshot is needed and cannot be recovered.
  finish_certificate-err :
      (a : Address) (b : CertificateBuilder) (e : GenerationResolutionError)
      → finish_certificate source a b ≡ err e
      → (source.recover_account_snapshot a ≡ err e)
        × ((b.fields.nonce ≡ none) ⊎ ((b.fields.balance ≡ none) ⊎ (b.fields.code_hash ≡ none)))
  unfolding finish_certificate recover_fields
  finish_certificate-err a b e h = elim (Result-cases (source.recover_account_snapshot a)) [
    | inl (s, p) ↦ ground (arith, p)
    | inr (x, p) ↦ ground (arith, p)
  ]

  -- An account of the table without a generation, or one that lacks a field without a snapshot; the
  -- error is that of the snapshot source.
  abbrev pub FailsAt :
      BTreeMap CanonicalKey ReducedVariant → GenerationResolutionError → Address → Type 0
  FailsAt table e a =
      (is_projected a table ≡ true)
      × ((generation_of source generations a ≡ err e)
          ⊎ ((source.recover_account_snapshot a ≡ err e) × LacksField table a))

  -- Every account of the table has a generation, and a snapshot if it lacks a field.
  abbrev pub HasSources : BTreeMap CanonicalKey ReducedVariant → Type 0
  HasSources table =
      (a : Address)
      → is_projected a table ≡ true
      → ((g : VerifiedGeneration) × (generation_of source generations a ≡ ok g))
        × (LacksField table a
            → (s : ResolvedAccountSnapshot) × (source.recover_account_snapshot a ≡ ok s))

  module _ (table : BTreeMap CanonicalKey ReducedVariant) (sorted : IsSorted table)
      (keyed : IsKeyed table) where
    lacks_of :
        (a : Address)
        → ((fields_from a no_fields table).nonce ≡ none)
          ⊎ (((fields_from a no_fields table).balance ≡ none)
              ⊎ ((fields_from a no_fields table).code_hash ≡ none))
        → LacksField table a
    lacks_of a h = ground (
      arith,
      h,
      fields_from-nonce a no_fields table sorted keyed,
      fields_from-balance a no_fields table sorted keyed,
      fields_from-code a no_fields table sorted keyed,
    )

    build-FailsAt :
        (e : GenerationResolutionError)
        → build_canonical_certificates source generations table ≡ err e
        → (a : Address) × FailsAt table e a
    unfolding build_canonical_certificates get
    build-FailsAt e h = elim (Result-cases (gather_builders source generations [] table)) [
      | inr (x, p) ↦
          let (a, there, fails) = gather_builders-err table [] e (ground (arith, p, (rw p at h))) in
          (a, (there, inl fails))
      | inl (C, p) ↦
          let (ordered, own) = gather_valid source generations table [] C tt tt p in
          let (a, b, reads, fails) = finish-err C C [] e (get_entries C ordered) (rw p at h) in
          let (lost, lacks) = finish_certificate-err a b e fails in
          elim (gather_builders-get source generations a table [] C p) [
            | inl (absent, none_there) ↦ absurd (ground (arith, reads, none_there))
            | inr (present, (g, resolved, there)) ↦
                let same : b.fields ≡ fields_from a no_fields table = cc (reads, there) in
                (a, (present, inr (lost, lacks_of a (rw same at lacks))))
          ]
    ]

    -- A built certificate that lacks a field was completed from a snapshot.
    recovered_of :
        (a : Address) (c : CanonicalAccountCertificate)
        → IsBuiltFrom source generations table a c
        → LacksField table a
        → (s : ResolvedAccountSnapshot) × (source.recover_account_snapshot a ≡ ok s)
    recovered_of a c v (inl n) = let (s, r, x) = rw n at v.nonce in (s, r)
    recovered_of a c v (inr (inl n)) = let (s, r, x) = rw n at v.balance in (s, r)
    recovered_of a c v (inr (inr n)) = let (s, r, x) = rw n at v.code_hash in (s, r)

    HasSources-of :
        (cs : BTreeMap Address CanonicalAccountCertificate)
        → build_canonical_certificates source generations table ≡ ok cs
        → HasSources table
    HasSources-of cs h a present =
        let (ordered, each) =
          build_canonical_certificates-each source generations table cs sorted keyed h in
        let here = each a in
        elim (Option-cases (get a cs)) [
          | inl n ↦ absurd (ground (arith, present, (rw n at here)))
          | inr (c, n) ↦
              let (there, built) = rw n at here in
              ((c.generation, built.generation), recovered_of a c built)
        ]

    not_FailsAt :
        (e : GenerationResolutionError) (a : Address) → HasSources table → ¬ FailsAt table e a
    not_FailsAt e a h (present, inl f) =
        let ((g, resolved), fills) = h a present in ground (arith, f, resolved)
    not_FailsAt e a h (present, inr (lost, lacks)) =
        let (gen, fills) = h a present in
        let (s, recovered) = fills lacks in ground (arith, lost, recovered)

  -- For a sorted table whose entries have the variants of their keys: certificates are built if
  -- and only if every account of the table has a generation and, if the table has not all of its
  -- nonce, balance and code hash, a snapshot that is recovered. If they are not built, some
  -- account of the table has no generation, or lacks a field and has no snapshot, and the error is
  -- the one of that lookup.
  pub build_canonical_certificates-ok_iff :
      (table : BTreeMap CanonicalKey ReducedVariant)
      → IsSorted table
      → IsKeyed table
      → (((certificates : BTreeMap Address CanonicalAccountCertificate)
            × (build_canonical_certificates source generations table ≡ ok certificates))
          ↔ HasSources table)
        × ((e : GenerationResolutionError)
            → build_canonical_certificates source generations table ≡ err e
            → (a : Address) × FailsAt table e a)
  build_canonical_certificates-ok_iff table sorted keyed = (
    (
      λ h. HasSources-of table sorted keyed h.0 h.1,
      λ h. elim (Result-cases (build_canonical_certificates source generations table)) [
        | inl (cs, p) ↦ (cs, p)
        | inr (e, p) ↦
            let (a, fails) = build-FailsAt table sorted keyed e p in
            absurd (not_FailsAt table sorted keyed e a h fails)
      ],
    ),
    build-FailsAt table sorted keyed,
  )
