-- ===== src/Builder/Lifecycle/Hydration.antt =====
-- lifecycle/hydration.rs: hydration and assembly, the two-step way to the certificates. The outer
-- `Option` of a result is `none` where the source panics.
pub mod Agreement
pub mod TwoSteps
use kaysentinel.Base.{
  ℕ, Bool, not, Option, none, some, List, [], ◌∷◌, Result, ok, err, ◌>>=◌, ◌>>◌, ok_or, fail_if,
  if◌then◌else◌,
}
use kaysentinel.Base.Classes.{◌==◌, bytes_eq, bytes_ord}
use kaysentinel.Base.BTreeMap.{
  BTreeMap, get, insert, contains_key, update_entry, map_option, try_collect,
}
use kaysentinel.Cse.{Address, Word}
use kaysentinel.Builder.Ir.{CanonicalKey, key_address, ReducedVariant}
use kaysentinel.Builder.Lifecycle.Keys.{CanonicalGeneration}
use kaysentinel.Builder.Lifecycle.Certificate.{
  GenerationResolutionError, insufficient_state_information, VerifiedGeneration,
  ResolvedAccountSnapshot, AccountSnapshotSource, StorageRootState, awaiting_derivation,
  CanonicalAccountCertificate, CertificateFields, no_fields, set_field, recover_fields,
  generation_of,
}

pub record HydratedAccountState : Type 0 where
  pub address : Address
  pub snapshot : ResolvedAccountSnapshot
  pub generation : VerifiedGeneration
  pub storage_root : StorageRootState

pub data CertificateAssemblyError : Type 0 where
  identity_mismatched_key : Address → Address → CertificateAssemblyError

-- `PartialFields` of the source has the fields of `CertificateFields`.
abbrev pub PartialFields : Type 0
PartialFields = CertificateFields

module _ (source : AccountSnapshotSource) where
  -- The base attributes of an address, in one round of the second loop.
  unfoldable pub hydrate_fields :
      Address → PartialFields → Result GenerationResolutionError ResolvedAccountSnapshot
  hydrate_fields address fields = do
    f ← recover_fields source address fields
    nonce ← ok_or f.nonce (insufficient_state_information address "nonce")
    balance ← ok_or f.balance (insufficient_state_information address "balance")
    code_hash ← ok_or f.code_hash (insufficient_state_information address "code_hash")
    ok (record { nonce = nonce; balance = balance; code_hash = code_hash })

  -- The state of an address. `generation_by_address[&address]` panics on a missing key.
  unfoldable pub hydrate_address :
      BTreeMap Address VerifiedGeneration
      → Address
      → PartialFields
      → Option (Result GenerationResolutionError HydratedAccountState)
  unfolding hydrate_fields
  hydrate_address generation_by_address address fields = elim (hydrate_fields address fields) [
    | err e ↦ some (err e)
    | ok snapshot ↦
        map_option
          (λ generation. ok (record {
            address = address;
            snapshot = snapshot;
            generation = generation;
            storage_root = awaiting_derivation;
          }))
          (get address generation_by_address)
  ]

  -- The second loop.
  unfoldable pub hydrate_all :
      BTreeMap Address VerifiedGeneration
      → BTreeMap Address HydratedAccountState
      → BTreeMap Address PartialFields
      → Option (Result GenerationResolutionError (BTreeMap Address HydratedAccountState))
  unfolding hydrate_address
  hydrate_all generation_by_address hydrated [] = some (ok hydrated)
  hydrate_all generation_by_address hydrated ((address, fields) ∷ rest) =
      elim (hydrate_address generation_by_address address fields) [
        | none ↦ none
        | some (err e) ↦ some (err e)
        | some (ok state) ↦ hydrate_all generation_by_address (insert address state hydrated) rest
      ]

  module _ (generations : List CanonicalGeneration) where
    -- The first loop's test: an address without a generation gets one.
    unfoldable pub with_generation :
        Address
        → BTreeMap Address VerifiedGeneration
        → Result GenerationResolutionError (BTreeMap Address VerifiedGeneration)
    with_generation address known =
        if not (contains_key address known)
        then (generation_of source generations address >>= λ g. ok (insert address g known))
        else ok known

    -- The first loop, over its two maps.
    unfoldable pub gather_fields :
        BTreeMap Address VerifiedGeneration
        → BTreeMap Address PartialFields
        → BTreeMap CanonicalKey ReducedVariant
        → Result GenerationResolutionError
            (BTreeMap Address VerifiedGeneration × BTreeMap Address PartialFields)
    gather_fields known fields [] = ok (known, fields)
    gather_fields known fields ((key, variant) ∷ table) = do
      known' ← with_generation (key_address key) known
      gather_fields known' (update_entry (key_address key) no_fields (set_field variant) fields)
          table

    unfoldable pub hydrate_accounts :
        BTreeMap CanonicalKey ReducedVariant
        → Option (Result GenerationResolutionError (BTreeMap Address HydratedAccountState))
    unfolding gather_fields with_generation hydrate_all
    hydrate_accounts state_table = elim (gather_fields [] [] state_table) [
      | err e ↦ some (err e)
      | ok (generation_by_address, fields_by_address) ↦
          hydrate_all generation_by_address [] fields_by_address
    ]

abbrev pub certificate_of : HydratedAccountState → CanonicalAccountCertificate
certificate_of state = record {
  address = state.address;
  generation = state.generation;
  nonce = state.snapshot.nonce;
  balance = state.snapshot.balance;
  code_hash = state.snapshot.code_hash;
  storage_root = state.storage_root;
}

-- The closure of `assemble_certificates`.
unfoldable pub assemble_one :
    Address
    → HydratedAccountState
    → Result CertificateAssemblyError (Address × CanonicalAccountCertificate)
assemble_one key state =
    if not (state.address == key)
    then err (identity_mismatched_key state.address key)
    else ok (key, certificate_of state)

unfoldable pub assemble_certificates :
    BTreeMap Address HydratedAccountState
    → Result CertificateAssemblyError (BTreeMap Address CanonicalAccountCertificate)
unfolding assemble_one
assemble_certificates hydrated = try_collect assemble_one [] hydrated

-- Phase 5 errors. The payloads of `BackendError` are opaque error values of other crates.
pub data StorageDerivationError : Type 0 where
  missing_base_state invalid_mutation corrupt_snapshot : StorageDerivationError

pub data BackendError : Type 0 where
  database trie_corruption io : BackendError

pub data DerivationError : Type 0 where
  domain : StorageDerivationError → DerivationError
  infrastructure : BackendError → DerivationError
