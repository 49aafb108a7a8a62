-- ===== src/Builder/Lifecycle/StorageRoot.antt =====
-- lifecycle/storage_root.rs: the storage root of an account, from the slots of the state table. The
-- outer `Option` of a result is `none` where the source panics.
pub mod Resolved
use kaysentinel.Base.{Option, none, some, List, [], ◌∷◌, ◌++◌, Result, ok, err}
use kaysentinel.Base.Classes.{Bytes, bytes_ord}
use kaysentinel.Base.BTreeMap.{BTreeMap, get, insert, update_entry, map_option, unwrap_or}
use kaysentinel.Cse.{Address, Word}
use kaysentinel.Hash.{Domain, to_bytes, derive_commitment}
use kaysentinel.Merkle.{merkle_fold}
use kaysentinel.Builder.Ir.{CanonicalKey, ReducedTransition, ReducedVariant}
use kaysentinel.Builder.Lifecycle.Certificate.{
  CanonicalAccountCertificate, StorageRootState, verified_root, zero_word,
}
use kaysentinel.Builder.Lifecycle.Hydration.{DerivationError}

-- The trait `StorageRootDeriver`, at the base state `()`.
abbrev pub StorageRootDeriver : Type 0
StorageRootDeriver = BTreeMap Word Word → Option (Result DerivationError Word)

module _ (blake3 : Bytes → Bytes) where
  unfoldable pub slot_leaf : Word → Word → Word
  slot_leaf slot value = to_bytes (derive_commitment blake3 Domain.trie_leaf (slot ++ value))

  unfoldable pub slot_leaves : BTreeMap Word Word → List Word
  slot_leaves [] = []
  slot_leaves ((slot, value) ∷ slots) = slot_leaf slot value ∷ slot_leaves slots

  unfoldable pub branch : Word → Word → Word
  branch left right = to_bytes (derive_commitment blake3 Domain.trie_branch (left ++ right))

  -- `SimpleStorageRootDeriver::derive`
  unfoldable pub derive : StorageRootDeriver
  derive terminal_slots =
      map_option (λ root. ok root) (merkle_fold branch zero_word (slot_leaves terminal_slots))

-- One entry of the first loop: only persistent storage counts.
unfoldable pub note_slot :
    CanonicalKey
    → ReducedVariant
    → BTreeMap Address (BTreeMap Word Word)
    → BTreeMap Address (BTreeMap Word Word)
note_slot (CanonicalKey.storage address slot) (ReducedVariant.storage t) slots_by_address =
    update_entry address [] (insert slot t.terminal) slots_by_address
note_slot _ _ slots_by_address = slots_by_address

-- The first loop.
unfoldable pub note_slots :
    BTreeMap Address (BTreeMap Word Word)
    → BTreeMap CanonicalKey ReducedVariant
    → BTreeMap Address (BTreeMap Word Word)
note_slots slots_by_address [] = slots_by_address
note_slots slots_by_address ((key, variant) ∷ table) =
    note_slots (note_slot key variant slots_by_address) table

-- `cert.storage_root = StorageRootState::Verified(root)`
abbrev pub with_root : Word → CanonicalAccountCertificate → CanonicalAccountCertificate
with_root root cert = record cert { storage_root = verified_root root }

-- The second loop, over the certificates.
unfoldable pub set_roots :
    StorageRootDeriver
    → BTreeMap Address (BTreeMap Word Word)
    → BTreeMap Address CanonicalAccountCertificate
    → Option (Result DerivationError (BTreeMap Address CanonicalAccountCertificate))
set_roots deriver slots_by_address [] = some (ok [])
set_roots deriver slots_by_address ((address, cert) ∷ certificates) =
    let rest = set_roots deriver slots_by_address certificates in
    elim (deriver (unwrap_or [] (get address slots_by_address))) [
      | none ↦ none
      | some (err e) ↦ some (err e)
      | some (ok root) ↦
          map_option
            (λ r. elim r [ err e ↦ err e | ok done ↦ ok ((address, with_root root cert) ∷ done) ])
            rest
    ]

unfoldable pub resolve_storage_roots :
    BTreeMap Address CanonicalAccountCertificate
    → BTreeMap CanonicalKey ReducedVariant
    → StorageRootDeriver
    → Option (Result DerivationError (BTreeMap Address CanonicalAccountCertificate))
unfolding note_slots note_slot set_roots
resolve_storage_roots certificates state_table deriver =
    set_roots deriver (note_slots [] state_table) certificates
