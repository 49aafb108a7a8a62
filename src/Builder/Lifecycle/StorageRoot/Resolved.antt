-- ===== src/Builder/Lifecycle/StorageRoot/Resolved.antt =====
-- What `resolve_storage_roots` writes with `SimpleStorageRootDeriver`.
use Prim.Native.Nat.Ordering.{eq}
use kaysentinel.Base.{◌≢◌, ◌≡◌, refl, ap, Option, none, some, [], ◌∷◌, ok, arith, length}
use kaysentinel.Base.Classes.{Bytes, bytes_ord, bytes_eq_of_cmp}
use kaysentinel.Base.BTreeMap.{
  BTreeMap, get, insert, update_entry, map_option, unwrap_or, IsSorted, map_entries,
}
use kaysentinel.Base.BTreeMap.Laws.{get-insert, get-insert_self, get_not-Above}
use kaysentinel.Cse.{Address, Word}
use kaysentinel.Merkle.{or_zero_leaf}
use kaysentinel.Merkle.Root.{merkle_fold-root, node, leaf_at, depth}
use kaysentinel.Builder.Ir.{CanonicalKey, key_ord, key_cmp, key_eq_of_cmp, ReducedVariant}
use kaysentinel.Builder.Lifecycle.Certificate.{CanonicalAccountCertificate, zero_word}
use kaysentinel.Builder.Lifecycle.StorageRoot.{
  slot_leaves, branch, derive, note_slot, with_root, note_slots, set_roots, resolve_storage_roots,
}

-- The root of the perfect tree over the leaves of the slots.
unfoldable pub storage_tree_root : (Bytes → Bytes) → BTreeMap Word Word → Word
storage_tree_root blake3 slots =
    let leaves = slot_leaves blake3 slots in
    node (branch blake3) (leaf_at zero_word leaves) (depth (length (or_zero_leaf zero_word leaves)))
      0

-- The value that the table ends an address's slot with.
unfoldable pub terminal_slot : BTreeMap CanonicalKey ReducedVariant → Address → Word → Option Word
terminal_slot table address slot = elim (get (CanonicalKey.storage address slot) table) [
  | some (ReducedVariant.storage t) ↦ some t.terminal
  | _ ↦ none
]

-- The slots that the table ends an account with.
unfoldable pub slots_of : BTreeMap CanonicalKey ReducedVariant → Address → BTreeMap Word Word
slots_of table address = unwrap_or [] (get address (note_slots [] table))

pub derive-root :
    (blake3 : Bytes → Bytes) (slots : BTreeMap Word Word)
    → derive blake3 slots ≡ some (ok (storage_tree_root blake3 slots))
unfolding derive storage_tree_root
derive-root blake3 slots =
    ap (map_option (λ root. ok root))
      (merkle_fold-root (branch blake3) zero_word (slot_leaves blake3 slots))

module _ (blake3 : Bytes → Bytes) (slots_by_address : BTreeMap Address (BTreeMap Word Word)) where
  set_roots-each :
      (certificates : BTreeMap Address CanonicalAccountCertificate)
      → set_roots (derive blake3) slots_by_address certificates
        ≡ some (
            ok (
              map_entries
                (λ address.
                  with_root
                    (storage_tree_root blake3 (unwrap_or [] (get address slots_by_address))))
                certificates))
  unfolding set_roots
  set_roots-each [] = refl
  set_roots-each ((address, cert) ∷ certificates) = ground (
    arith,
    derive-root blake3 (unwrap_or [] (get address slots_by_address)),
    set_roots-each certificates,
  )

-- With the simple deriver, resolving storage roots neither fails nor panics. Every certificate
-- gets as its verified root the root of the tree over the slots that the table holds for its
-- account, and nothing else of it changes.
pub resolve_storage_roots-each :
    (blake3 : Bytes → Bytes) (certificates : BTreeMap Address CanonicalAccountCertificate)
    (table : BTreeMap CanonicalKey ReducedVariant)
    → resolve_storage_roots certificates table (derive blake3)
      ≡ some (
          ok (
            map_entries
              (λ address. with_root (storage_tree_root blake3 (slots_of table address)))
              certificates))
unfolding resolve_storage_roots slots_of
resolve_storage_roots-each blake3 certificates table =
    set_roots-each blake3 (note_slots [] table) certificates

-- The first of two options that has a value.
abbrev unwrap_first : Option Word → Option Word → Option Word
unwrap_first (some a) b = some a
unwrap_first none b = b

-- One entry of the table, at a key that is not the slot's, and at the slot's.
note_slot-other :
    (address : Address) (slot : Word) (key : CanonicalKey) (variant : ReducedVariant)
    (acc : BTreeMap Address (BTreeMap Word Word))
    → key_cmp (CanonicalKey.storage address slot) key ≢ eq
    → get slot (unwrap_or [] (get address (note_slot key variant acc)))
      ≡ get slot (unwrap_or [] (get address acc))
unfolding note_slot update_entry key_cmp
note_slot-other address slot (CanonicalKey.storage a t) (ReducedVariant.storage r) acc h = ground (
  arith,
  get-insert address a (insert t r.terminal (unwrap_or [] (get a acc))) acc,
  get-insert slot t r.terminal (unwrap_or [] (get a acc)),
  bytes_eq_of_cmp address a,
)
note_slot-other address slot key variant acc h = ground arith

note_slot-same :
    (address : Address) (slot : Word) (variant : ReducedVariant)
    (acc : BTreeMap Address (BTreeMap Word Word))
    → get slot
        (unwrap_or [] (get address (note_slot (CanonicalKey.storage address slot) variant acc)))
      ≡ (elim variant [
        | ReducedVariant.storage t ↦ some t.terminal
        | _ ↦ get slot (unwrap_or [] (get address acc))
      ])
unfolding note_slot update_entry
note_slot-same address slot (ReducedVariant.storage t) acc =
    let slots = unwrap_or [] (get address acc) in
    rw (get-insert_self address (insert slot t.terminal slots) acc)
      (get-insert_self slot t.terminal slots)
note_slot-same address slot variant acc = ground arith

note_slots-terminal :
    (address : Address) (slot : Word) (acc : BTreeMap Address (BTreeMap Word Word))
    (table : BTreeMap CanonicalKey ReducedVariant)
    → IsSorted table
    → get slot (unwrap_or [] (get address (note_slots acc table)))
      ≡ unwrap_first (terminal_slot table address slot) (get slot (unwrap_or [] (get address acc)))
unfolding note_slots terminal_slot get
note_slots-terminal address slot acc [] s = refl
note_slots-terminal address slot acc ((key, variant) ∷ table) s = ground (
  arith,
  note_slots-terminal address slot (note_slot key variant acc) table s.1,
  note_slot-other address slot key variant acc,
  note_slot-same address slot variant acc,
  key_eq_of_cmp (CanonicalKey.storage address slot) key,
  get_not-Above (CanonicalKey.storage address slot) key table,
)

-- The slots gathered from a sorted table hold for an account, at each slot, the terminal value of
-- the storage entry of the table at that account and slot, and nothing where there is none.
-- Transient entries do not count.
pub slots_of-terminal :
    (address : Address) (slot : Word) (table : BTreeMap CanonicalKey ReducedVariant)
    → IsSorted table
    → get slot (slots_of table address) ≡ terminal_slot table address slot
unfolding slots_of get
slots_of-terminal address slot table s = ground (arith, note_slots-terminal address slot [] table s)
