-- ===== src/Builder/Lifecycle/Certificate.antt =====
-- lifecycle/certificate.rs: the resolved generation of an address, and its certificate.
pub mod Terminal
pub mod Fields
pub mod Gathered
pub mod Finished
pub mod Built
pub mod Failures
use Prim.Native.Nat.{max}
use Prim.Native.String.{String}
use kaysentinel.Base.{
  ℕ, Bool, true, false, ◌||◌, Option, none, some, List, [], ◌∷◌, Result, ok, err, ◌>>=◌, or_else,
  ok_or, length, ltb, if◌then◌else◌, replicate,
}
use kaysentinel.Base.Classes.{◌==◌, nat_eq, bytes_eq, bytes_ord}
use kaysentinel.Base.BTreeMap.{BTreeMap, get, insert, try_collect}
use kaysentinel.Cse.{Address, Word}
use kaysentinel.Builder.Ir.{CanonicalKey, key_address, ReducedVariant}
use kaysentinel.Builder.Lifecycle.Keys.{GenerationKey, CanonicalGeneration}

pub data GenerationResolutionError : Type 0 where
  identity_absent : Address → GenerationResolutionError
  identity_ambiguous : Address → GenerationResolutionError
  provenance_metadata_divergence : Address → ℕ → GenerationResolutionError
  malformed_provenance_chain : Address → GenerationResolutionError
  state_database_corruption : Address → GenerationResolutionError
  insufficient_state_information : Address → String → GenerationResolutionError

pub record VerifiedGeneration : Type 0 where
  pub key : GenerationKey
  pub state_table_proof_root : Word

-- `[0u8; 32]`
abbrev pub zero_word : Word
zero_word = replicate 32 0

-- `.filter(|g| g.key.address == address)`
unfoldable pub with_address : Address → List CanonicalGeneration → List CanonicalGeneration
with_address address [] = []
with_address address (g ∷ gs) =
    let rest = with_address address gs in if g.key.address == address then g ∷ rest else rest

-- `.map(|g| g.key.generation_id).max()`, of a list with a first element
unfoldable pub max_generation_id : ℕ → List CanonicalGeneration → ℕ
max_generation_id best [] = best
max_generation_id best (g ∷ gs) = max_generation_id (max best g.key.generation_id) gs

-- `.filter(|g| g.key.generation_id == max_generation_id)`
unfoldable pub with_generation_id : ℕ → List CanonicalGeneration → List CanonicalGeneration
with_generation_id id [] = []
with_generation_id id (g ∷ gs) =
    let rest = with_generation_id id gs in if g.key.generation_id == id then g ∷ rest else rest

abbrev pub verified : CanonicalGeneration → VerifiedGeneration
verified g = record { key = g.key; state_table_proof_root = zero_word }

-- The choice among the terminal generations. There is at least one (`terminals-nonempty`), so
-- the source's `terminal[0]` is in bounds and the first clause is never taken.
unfoldable pub pick_terminal :
    Address → List CanonicalGeneration → Result GenerationResolutionError VerifiedGeneration
pick_terminal address [] = err (identity_absent address)
pick_terminal address (g ∷ gs) =
    if ltb 1 (length (g ∷ gs)) then err (identity_ambiguous address) else ok (verified g)

unfoldable pub resolve_matches :
    Address → List CanonicalGeneration → Result GenerationResolutionError VerifiedGeneration
resolve_matches address [] = err (identity_absent address)
resolve_matches address (g ∷ gs) =
    pick_terminal address (with_generation_id (max_generation_id g.key.generation_id gs) (g ∷ gs))

unfoldable pub resolve_generation_for_address :
    List CanonicalGeneration → Address → Result GenerationResolutionError VerifiedGeneration
unfolding with_address max_generation_id with_generation_id pick_terminal resolve_matches
resolve_generation_for_address generations address =
    resolve_matches address (with_address address generations)

pub record ResolvedAccountSnapshot : Type 0 where
  pub nonce : ℕ
  pub balance : Word
  pub code_hash : Word

-- The trait `AccountSnapshotSource`; no implementation of it is in the repository.
pub record AccountSnapshotSource : Type 0 where
  pub resolve_identity_generation : Address → Result GenerationResolutionError VerifiedGeneration
  pub recover_account_snapshot : Address → Result GenerationResolutionError ResolvedAccountSnapshot

pub data StorageRootState : Type 0 where
  verified_root : Word → StorageRootState
  awaiting_derivation : StorageRootState

pub record CanonicalAccountCertificate : Type 0 where
  pub address : Address
  pub generation : VerifiedGeneration
  pub nonce : ℕ
  pub balance : Word
  pub code_hash : Word
  pub storage_root : StorageRootState

pub record CertificateFields : Type 0 where
  pub nonce : Option ℕ
  pub balance : Option Word
  pub code_hash : Option Word

abbrev pub no_fields : CertificateFields
no_fields = record { nonce = none; balance = none; code_hash = none }

pub record CertificateBuilder : Type 0 where
  pub address : Address
  pub generation : VerifiedGeneration
  pub fields : CertificateFields

-- `match variant`: what a table entry sets.
unfoldable pub set_field : ReducedVariant → CertificateFields → CertificateFields
set_field (ReducedVariant.balance t) f = record f { balance = some t.terminal }
set_field (ReducedVariant.nonce t) f = record f { nonce = some t.terminal }
set_field (ReducedVariant.code t) f = record f { code_hash = some t.terminal }
set_field (ReducedVariant.storage t) f = f
set_field (ReducedVariant.transient t) f = f

abbrev pub is_none {ℓ} : {A : Type ℓ} → Option A → Bool
is_none none = true
is_none (some a) = false

-- `if field.is_none() { field = Some(value) }`
abbrev pub fill {ℓ} : {A : Type ℓ} → Option A → A → Option A
fill none a = some a
fill (some b) a = some b

abbrev pub fill_fields : CertificateFields → ResolvedAccountSnapshot → CertificateFields
fill_fields f s = record {
  nonce = fill f.nonce s.nonce;
  balance = fill f.balance s.balance;
  code_hash = fill f.code_hash s.code_hash;
}

module _ (source : AccountSnapshotSource) where
  -- The fields of an address, recovered from the snapshot where the projection has none.
  unfoldable pub recover_fields :
      Address → CertificateFields → Result GenerationResolutionError CertificateFields
  recover_fields address f =
      if is_none f.nonce || is_none f.balance || is_none f.code_hash
      then (source.recover_account_snapshot address >>= λ snapshot. ok (fill_fields f snapshot))
      else ok f

  -- The closure of the final `map`.
  unfoldable pub finish_certificate :
      Address
      → CertificateBuilder
      → Result GenerationResolutionError (Address × CanonicalAccountCertificate)
  finish_certificate address b = do
    f ← recover_fields address b.fields
    nonce ← ok_or f.nonce (insufficient_state_information address "nonce")
    balance ← ok_or f.balance (insufficient_state_information address "balance")
    code_hash ← ok_or f.code_hash (insufficient_state_information address "code_hash")
    ok (
      address,
      record {
        address = b.address;
        generation = b.generation;
        nonce = nonce;
        balance = balance;
        code_hash = code_hash;
        storage_root = awaiting_derivation;
      },
    )

  module _ (generations : List CanonicalGeneration) where
    unfoldable pub generation_of : Address → Result GenerationResolutionError VerifiedGeneration
    generation_of address =
        or_else (resolve_generation_for_address generations address)
          (source.resolve_identity_generation address)

    -- The builder of an address that the loop meets: the one that is there, or a fresh one.
    unfoldable pub builder_for :
        Address
        → BTreeMap Address CertificateBuilder
        → Result GenerationResolutionError CertificateBuilder
    builder_for address builders = elim (get address builders) [
      | some existing ↦ ok existing
      | none ↦ do
        generation ← generation_of address
        ok (record { address = address; generation = generation; fields = no_fields })
    ]

    -- The loop over the state table.
    unfoldable pub gather_builders :
        BTreeMap Address CertificateBuilder
        → BTreeMap CanonicalKey ReducedVariant
        → Result GenerationResolutionError (BTreeMap Address CertificateBuilder)
    gather_builders builders [] = ok builders
    gather_builders builders ((key, variant) ∷ table) = do
      b ← builder_for (key_address key) builders
      gather_builders
          (insert (key_address key) (record b { fields = set_field variant b.fields }) builders)
          table

    unfoldable pub build_canonical_certificates :
        BTreeMap CanonicalKey ReducedVariant
        → Result GenerationResolutionError (BTreeMap Address CanonicalAccountCertificate)
    unfolding gather_builders finish_certificate recover_fields
    build_canonical_certificates state_table = do
      builders ← gather_builders [] state_table
      try_collect finish_certificate [] builders
