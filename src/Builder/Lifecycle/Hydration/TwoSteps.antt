-- ===== src/Builder/Lifecycle/Hydration/TwoSteps.antt =====
-- Hydration and then assembly against the direct builder.
use kaysentinel.Base.{
  ◌≡◌, refl, ap, ◌∙◌, Option, none, some, List, [], ◌∷◌, Result, ok, err, ◌>>=◌, arith, All,
  All-imp, inl, inr, Result-cases,
}
use kaysentinel.Base.Classes.{bytes_eq, bytes_ord, bytes_beq_iff}
use kaysentinel.Base.BTreeMap.{BTreeMap, get, IsSorted, map_values, map_option, try_collect}
use kaysentinel.Base.BTreeMap.Values.{
  get-map_values, get_entries, map_values-IsSorted, try_collect_sorted,
}
use kaysentinel.Cse.{Address}
use kaysentinel.Builder.Ir.{CanonicalKey, ReducedVariant}
use kaysentinel.Builder.Lifecycle.Keys.{CanonicalGeneration}
use kaysentinel.Builder.Lifecycle.Certificate.{
  GenerationResolutionError, VerifiedGeneration, AccountSnapshotSource, CanonicalAccountCertificate,
  CertificateBuilder, CertificateFields, finish_certificate, gather_builders,
  build_canonical_certificates,
}
use kaysentinel.Builder.Lifecycle.Hydration.{
  HydratedAccountState, hydrate_all, gather_fields, hydrate_accounts, certificate_of, assemble_one,
  assemble_certificates,
}
use kaysentinel.Builder.Lifecycle.Hydration.Agreement.{
  CollectAgrees, gens, flds, gather_agree, gather_valid, collect_agree,
}

assemble_own :
    (h : BTreeMap Address HydratedAccountState)
    → All (λ e. e.1.address ≡ e.0) h
    → All (λ e. assemble_one e.0 e.1 ≡ ok (e.0, certificate_of e.1)) h
unfolding assemble_one
assemble_own [] o = tt
assemble_own ((a, s) ∷ h) o =
    (ground (arith, (bytes_beq_iff s.address a).1 o.0), assemble_own h o.1)

-- On hydrated accounts with ascending keys, each stored under its own address, assembly succeeds
-- and gives each its certificate under the same key.
pub assemble_certificates-ok :
    (h : BTreeMap Address HydratedAccountState)
    → IsSorted h
    → All (λ e. e.1.address ≡ e.0) h
    → assemble_certificates h ≡ ok (map_values certificate_of h)
unfolding assemble_certificates
assemble_certificates-ok h s o =
    try_collect_sorted assemble_one certificate_of [] h (map_values-IsSorted certificate_of h s)
      (assemble_own h o)

-- How hydration and then assembly compare with the direct builder. Hydration never panics.
abbrev pub TwoSteps :
    Option (Result GenerationResolutionError (BTreeMap Address HydratedAccountState))
    → Result GenerationResolutionError (BTreeMap Address CanonicalAccountCertificate)
    → Type 0
TwoSteps none r = ⊥
TwoSteps (some (ok h)) r =
    (certificates : BTreeMap Address CanonicalAccountCertificate) × (assemble_certificates h
      ≡ ok certificates)
    × (r ≡ ok certificates)
TwoSteps (some (err e)) r = r ≡ err e

module _ (source : AccountSnapshotSource) (generations : List CanonicalGeneration) where
  hydrate_lem :
      (table : BTreeMap CanonicalKey ReducedVariant) (known : BTreeMap Address VerifiedGeneration)
      (fields : BTreeMap Address CertificateFields)
      → gather_fields source generations [] [] table ≡ ok (known, fields)
      → hydrate_accounts source generations table ≡ hydrate_all source known [] fields
  unfolding hydrate_accounts
  hydrate_lem table known fields p = rw (p, hydrate_accounts)

  hydrate_fails :
      (table : BTreeMap CanonicalKey ReducedVariant) (e : GenerationResolutionError)
      → gather_fields source generations [] [] table ≡ err e
      → hydrate_accounts source generations table ≡ some (err e)
  unfolding hydrate_accounts
  hydrate_fails table e p = rw (p, hydrate_accounts)

  build_lem :
      (table : BTreeMap CanonicalKey ReducedVariant)
      → build_canonical_certificates source generations table ≡ (
          gather_builders source generations [] table >>= λ C.
          try_collect (finish_certificate source) [] C)
  unfolding build_canonical_certificates
  build_lem table = refl

  two_steps :
      (known : BTreeMap Address VerifiedGeneration)
      (r : Option (Result GenerationResolutionError (BTreeMap Address HydratedAccountState)))
      (c : Result GenerationResolutionError (BTreeMap Address CanonicalAccountCertificate))
      → CollectAgrees source known r c
      → TwoSteps r c
  two_steps known none c h = absurd h
  two_steps known (some (ok h)) c (e, s, o) =
      (map_values certificate_of h, assemble_certificates-ok h s o, e)
  two_steps known (some (err x)) c e = e

  -- The generations that hydration has gathered, at every builder of a sorted map.
  known_generations :
      (C : BTreeMap Address CertificateBuilder)
      → IsSorted C
      → All (λ e. get e.0 (gens C) ≡ some e.1.generation) C
  known_generations C s =
      All-imp
        (λ e h. get-map_values (λ b. b.generation) e.0 C ∙ ap (map_option (λ b. b.generation)) h) C
        (get_entries C s)

  -- For any snapshot source, generations and table: hydration does not panic; where it succeeds,
  -- assembly succeeds and the direct builder returns the same certificates; where it fails, the
  -- direct builder fails with the same error.
  pub hydrate-build :
      (table : BTreeMap CanonicalKey ReducedVariant)
      → TwoSteps
          (hydrate_accounts source generations table)
          (build_canonical_certificates source generations table)
  hydrate-build table =
      let both = gather_agree source generations table [] in
      elim (Result-cases (gather_builders source generations [] table)) [
        | inl (C, p) ↦
            let (s, own) = gather_valid source generations table [] C tt tt p in
            rw (hydrate_lem table (gens C) (flds C) (rw p at both), build_lem table, p)
              (two_steps (gens C) _ _
                (collect_agree source (gens C) C [] (known_generations C s) own tt tt))
        | inr (e, p) ↦ rw (hydrate_fails table e (rw p at both), build_lem table, p) refl
      ]
