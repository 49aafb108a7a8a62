-- ===== src/Ssz/Merkle/Batch.antt =====
-- The root of a batch of certificates.
use kaysentinel.Base.{
  ◌≡◌, refl, ap, ◌∙◌, Option, none, some, List, [], ◌∷◌, ◌++◌, Result, ok, err, ok_or, length,
  arith,
}
use kaysentinel.Base.Classes.{Bytes}
use kaysentinel.Base.BTreeMap.{BTreeMap, values, map_option}
use kaysentinel.Cse.{Address, Word}
use kaysentinel.Merkle.{or_zero_leaf}
use kaysentinel.Merkle.Root.{merkle_fold-root, node, leaf_at, depth}
use kaysentinel.Builder.Lifecycle.Certificate.{
  CanonicalAccountCertificate, StorageRootState, verified_root, awaiting_derivation, zero_word,
}
use kaysentinel.Ssz.Encode.{
  SszError, unresolved_storage_root, encode_certificate, encode_certificate_with, encode_root,
}
use kaysentinel.Ssz.Merkle.{
  chunkify, hash_pair, merkleize, ssr_root, flat_chunks, commit_chunks, commit_certificate_batch,
}

-- The root of the perfect tree over chunks, the specification of `merkleize`.
unfoldable pub chunk_tree_root : (Bytes → Bytes) → List Word → Word
chunk_tree_root blake3 chunks =
    node (hash_pair blake3) (leaf_at zero_word chunks)
      (depth (length (or_zero_leaf zero_word chunks))) 0

merkleize-root :
    (blake3 : Bytes → Bytes) (chunks : List Word)
    → merkleize blake3 chunks ≡ some (chunk_tree_root blake3 chunks)
unfolding merkleize chunk_tree_root
merkleize-root blake3 chunks = merkle_fold-root (hash_pair blake3) zero_word chunks

-- `ssr_root` is total: the root of the tree over the chunks.
pub ssr_root-root :
    (blake3 : Bytes → Bytes) (bytes : Bytes)
    → ssr_root blake3 bytes ≡ some (chunk_tree_root blake3 (chunkify bytes))
unfolding ssr_root
ssr_root-root blake3 bytes = merkleize-root blake3 (chunkify bytes)

-- The chunks of certificates whose storage roots are known, and whether all are.
unfoldable pub root_chunks : CanonicalAccountCertificate → StorageRootState → Option (List Word)
root_chunks c (verified_root root) = some (chunkify (encode_certificate_with c root))
root_chunks c awaiting_derivation = none

unfoldable pub batch_chunks : List CanonicalAccountCertificate → Option (List Word)
batch_chunks [] = some []
batch_chunks (c ∷ cs) = elim (root_chunks c c.storage_root) [
  | none ↦ none
  | some here ↦ map_option (λ rest. here ++ rest) (batch_chunks cs)
]

-- What committing such a batch returns.
unfoldable pub batch_root : (Bytes → Bytes) → Option (List Word) → Result SszError Word
batch_root blake3 none = err unresolved_storage_root
batch_root blake3 (some chunks) = ok (chunk_tree_root blake3 chunks)

flat_chunks-eq :
    (certs : List CanonicalAccountCertificate)
    → flat_chunks certs ≡ ok_or (batch_chunks certs) unresolved_storage_root
unfolding flat_chunks batch_chunks root_chunks encode_certificate encode_root
flat_chunks-eq [] = refl
flat_chunks-eq (c ∷ cs) = ground (arith, flat_chunks-eq cs)

commit_chunks-eq :
    (blake3 : Bytes → Bytes) (chunks : Option (List Word))
    → commit_chunks blake3 (ok_or chunks unresolved_storage_root) ≡ some (batch_root blake3 chunks)
unfolding commit_chunks batch_root
commit_chunks-eq blake3 none = refl
commit_chunks-eq blake3 (some c) = ap (map_option (λ root. ok root)) (merkleize-root blake3 c)

-- Committing a batch of certificates never panics. If every certificate has a verified storage
-- root, the result is the root of the tree over the chunks of all of them in key order; otherwise
-- it is the error of the unresolved storage root.
pub commit_certificate_batch-eq :
    (blake3 : Bytes → Bytes) (certificates : BTreeMap Address CanonicalAccountCertificate)
    → commit_certificate_batch blake3 certificates
      ≡ some (batch_root blake3 (batch_chunks (values certificates)))
unfolding commit_certificate_batch
commit_certificate_batch-eq blake3 certificates =
    ap (commit_chunks blake3) (flat_chunks-eq (values certificates))
    ∙ commit_chunks-eq blake3 (batch_chunks (values certificates))
