-- ===== src/Ssz/Merkle/Resolved.antt =====
-- The commitment of certificates whose storage roots were resolved.
use kaysentinel.Base.{◌≡◌, refl, ap, ◌∙◌, subst, some, List, [], ◌∷◌, ◌++◌, ok}
use kaysentinel.Base.Classes.{Bytes}
use kaysentinel.Base.BTreeMap.{BTreeMap, values, map_entries, map_option}
use kaysentinel.Cse.{Address, Word}
use kaysentinel.Builder.Ir.{CanonicalKey, ReducedVariant}
use kaysentinel.Builder.Lifecycle.Certificate.{CanonicalAccountCertificate}
use kaysentinel.Builder.Lifecycle.StorageRoot.{derive, with_root, resolve_storage_roots}
use kaysentinel.Builder.Lifecycle.StorageRoot.Resolved.{
  storage_tree_root, slots_of, resolve_storage_roots-each,
}
use kaysentinel.Ssz.Encode.{encode_certificate_with}
use kaysentinel.Ssz.Merkle.{chunkify, commit_certificate_batch}
use kaysentinel.Ssz.Merkle.Batch.{
  root_chunks, batch_chunks, batch_root, chunk_tree_root, commit_certificate_batch-eq,
}

batch_chunks-with_root :
    (root : Address → Word) (cs : BTreeMap Address CanonicalAccountCertificate)
    → (chunks : List Word) × (batch_chunks (values (map_entries (λ a. with_root (root a)) cs))
        ≡ some chunks)
unfolding batch_chunks root_chunks
batch_chunks-with_root root [] = ([], refl)
batch_chunks-with_root root ((a, c) ∷ cs) =
    let (rest, e) = batch_chunks-with_root root cs in
    let here = chunkify (encode_certificate_with (with_root (root a) c) (root a)) in
    (here ++ rest, ap (map_option (λ r. here ++ r)) e)

-- Certificates whose storage roots were resolved with the simple deriver can be committed as a
-- batch: the commitment returns a root, never the error of an unresolved storage root.
pub resolve-commit_certificate_batch :
    (blake3 : Bytes → Bytes) (certificates done : BTreeMap Address CanonicalAccountCertificate)
    (table : BTreeMap CanonicalKey ReducedVariant)
    → resolve_storage_roots certificates table (derive blake3) ≡ some (ok done)
    → (root : Word) × (commit_certificate_batch blake3 done ≡ some (ok root))
unfolding batch_root
resolve-commit_certificate_batch blake3 certificates done table h =
    let root = λ (a : Address). storage_tree_root blake3 (slots_of table a) in
    let all = map_entries (λ a. with_root (root a)) certificates in
    let (chunks, e) = batch_chunks-with_root root certificates in
    let same : all ≡ done = cc (h, resolve_storage_roots-each blake3 certificates table) in
    let committed : commit_certificate_batch blake3 all
        ≡ some (ok (chunk_tree_root blake3 chunks)) =
      commit_certificate_batch-eq blake3 all ∙ ap (λ c. some (batch_root blake3 c)) e in
    (
      chunk_tree_root blake3 chunks,
      subst (λ d. commit_certificate_batch blake3 d ≡ some (ok (chunk_tree_root blake3 chunks)))
          same committed,
    )
