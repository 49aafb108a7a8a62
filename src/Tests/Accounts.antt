-- ===== src/Tests/Accounts.antt =====
-- The theorems on certificates and storage roots, at sample accounts.
use kaysentinel.Base.{◌≡◌, refl, some, [], ◌∷◌, ok}
use kaysentinel.Base.Classes.{Bytes, bytes_ord}
use kaysentinel.Base.BTreeMap.{BTreeMap, get, IsSorted, map_values, map_entries}
use kaysentinel.Cse.{Address, Word}
use kaysentinel.Builder.Ir.{CanonicalKey, key_ord, key_cmp, ReducedVariant}
use kaysentinel.Builder.Lifecycle.Certificate.{
  VerifiedGeneration, ResolvedAccountSnapshot, AccountSnapshotSource, CanonicalAccountCertificate,
  build_canonical_certificates, awaiting_derivation,
}
use kaysentinel.Builder.Lifecycle.Hydration.{HydratedAccountState, hydrate_accounts, certificate_of}
use kaysentinel.Builder.Lifecycle.Hydration.TwoSteps.{TwoSteps, hydrate-build}
use kaysentinel.Builder.Lifecycle.StorageRoot.{derive, with_root, resolve_storage_roots}
use kaysentinel.Builder.Lifecycle.StorageRoot.Resolved.{
  storage_tree_root, slots_of, terminal_slot, resolve_storage_roots-each, slots_of-terminal,
}
use kaysentinel.Ssz.Merkle.{commit_certificate_batch}
use kaysentinel.Ssz.Merkle.Resolved.{resolve-commit_certificate_batch}
use kaysentinel.Tests.{alice, word}

abbrev same : Bytes → Bytes
same bytes = bytes

abbrev generation : VerifiedGeneration
generation = record {
  key = record { address = alice; generation_id = 0 };
  state_table_proof_root = word 0;
}

abbrev snapshot : ResolvedAccountSnapshot
snapshot = record { nonce = 7; balance = word 3; code_hash = word 4 }

-- A source that knows every account, always the same.
abbrev source : AccountSnapshotSource
source = record {
  resolve_identity_generation = λ a. ok generation;
  recover_account_snapshot = λ a. ok snapshot;
}

abbrev table : BTreeMap CanonicalKey ReducedVariant
table =
    (
      CanonicalKey.nonce alice,
      ReducedVariant.nonce (record { initial = 7; terminal = 8; provenance = [] }),
    )
    ∷ (
      CanonicalKey.storage alice (word 1),
      ReducedVariant.storage (record { initial = word 0; terminal = word 2; provenance = [] }),
    )
    ∷ []

table-IsSorted : IsSorted table
unfolding key_cmp
table-IsSorted = ((refl, tt), (tt, tt))

abbrev hydrated : BTreeMap Address HydratedAccountState
hydrated =
    (
      alice,
      record {
        address = alice;
        generation = generation;
        snapshot = snapshot;
        storage_root = awaiting_derivation;
      },
    )
    ∷ []

abbrev certificates : BTreeMap Address CanonicalAccountCertificate
certificates = map_values certificate_of hydrated

hydrate-build_example :
    TwoSteps (hydrate_accounts source [] table) (build_canonical_certificates source [] table)
hydrate-build_example = hydrate-build source [] table

resolve_storage_roots-each_example :
    resolve_storage_roots certificates table (derive same)
    ≡ some (
        ok (
          map_entries
            (λ address. with_root (storage_tree_root same (slots_of table address)))
            certificates))
resolve_storage_roots-each_example = resolve_storage_roots-each same certificates table

slots_of-terminal_example : get (word 1) (slots_of table alice) ≡ terminal_slot table alice (word 1)
slots_of-terminal_example = slots_of-terminal alice (word 1) table table-IsSorted

resolve-commit_certificate_batch_example :
    (root : Word) × (commit_certificate_batch same (
        map_entries
          (λ address. with_root (storage_tree_root same (slots_of table address)))
          certificates)
      ≡ some (ok root))
resolve-commit_certificate_batch_example =
    resolve-commit_certificate_batch same certificates
      (map_entries (λ address. with_root (storage_tree_root same (slots_of table address)))
        certificates)
      table (resolve_storage_roots-each same certificates table)
