-- ===== src/Ssz/Merkle.antt =====
-- runtime/ssz/src/lib.rs and certificate.rs: chunks, Merkle roots and the root of a batch of
-- certificates. The outer `Option` of a result is `none` where the source panics.
pub mod Chunks
pub mod Batch
pub mod Resolved
use kaysentinel.Base.{
  ℕ, zero, suc, ◌-◌, Option, none, some, List, [], ◌∷◌, ◌++◌, Result, ok, err, ◌>>=◌, length, take,
  drop, replicate,
}
use kaysentinel.Base.Classes.{Bytes}
use kaysentinel.Base.BTreeMap.{BTreeMap, values, map_option}
use kaysentinel.Cse.{Address, Word}
use kaysentinel.Hash.{Domain, to_bytes, derive_commitment}
use kaysentinel.Merkle.{merkle_fold}
use kaysentinel.Builder.Lifecycle.Certificate.{CanonicalAccountCertificate, zero_word}
use kaysentinel.Ssz.Encode.{SszError, encode_certificate}

-- `chunk[..end - i].copy_from_slice(&bytes[i..end])` into a zeroed chunk
unfoldable pub zero_padded : Bytes → Word
zero_padded bytes = bytes ++ replicate (32 - length bytes) 0

-- The loop of `chunkify`: each round takes at most 32 bytes, and at least one.
unfoldable pub chunk_loop : ℕ → Bytes → List Word
chunk_loop zero bytes = []
chunk_loop (suc fuel) [] = []
chunk_loop (suc fuel) (b ∷ bytes) =
    zero_padded (take 32 (b ∷ bytes)) ∷ chunk_loop fuel (drop 32 (b ∷ bytes))

unfoldable pub chunkify : Bytes → List Word
unfolding chunk_loop zero_padded
chunkify [] = zero_word ∷ []
chunkify (b ∷ bytes) = chunk_loop (length (b ∷ bytes)) (b ∷ bytes)

module _ (blake3 : Bytes → Bytes) where
  unfoldable pub hash_pair : Word → Word → Word
  hash_pair left right = to_bytes (derive_commitment blake3 Domain.ssr_root (left ++ right))

  unfoldable pub merkleize : List Word → Option Word
  merkleize chunks = merkle_fold hash_pair zero_word chunks

  unfoldable pub ssr_root : Bytes → Option Word
  ssr_root serialized_bytes = merkleize (chunkify serialized_bytes)

-- The loop that gathers the chunks of the certificates.
unfoldable pub flat_chunks : List CanonicalAccountCertificate → Result SszError (List Word)
flat_chunks [] = ok []
flat_chunks (cert ∷ certs) =
    let rest = flat_chunks certs in
    encode_certificate cert >>= λ bytes. rest >>= λ chunks. ok (chunkify bytes ++ chunks)

-- What is done with the gathered chunks, or with the error of the loop.
unfoldable pub commit_chunks :
    (Bytes → Bytes) → Result SszError (List Word) → Option (Result SszError Word)
commit_chunks blake3 (err e) = some (err e)
commit_chunks blake3 (ok chunks) = map_option (λ root. ok root) (merkleize blake3 chunks)

unfoldable pub commit_certificate_batch :
    (Bytes → Bytes) → BTreeMap Address CanonicalAccountCertificate → Option (Result SszError Word)
unfolding flat_chunks commit_chunks
commit_certificate_batch blake3 certificates =
    commit_chunks blake3 (flat_chunks (values certificates))
