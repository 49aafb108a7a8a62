-- ===== src/Lib.antt =====
-- Kaysentinel turns the trace of an Ethereum execution into account certificates, serializes and
-- commits them, and replays the trace against them. This library models its Rust workspace,
-- runtime/. A stream of Go tracer events goes through runtime/bridge, which makes canonical events
-- of it; runtime/cse defines those events and validates their stream; runtime/builder partitions
-- the stream into transactions, reduces the history of every state location to one transition,
-- resolves the generations of an account's identity and builds one certificate per account;
-- runtime/ssz encodes, decodes and commits certificates and snapshots with the digests of
-- runtime/hash; runtime/verify replays the events and compares the result with the certificates.
--
-- Which file models what:
--
--   Base          lists, results, order and equality, and BTreeMap as a sorted association list
--   Cse           runtime/cse/src: Context, Payloads, Event (`validate`), Validator (`CseValidator`)
--   Hash          runtime/hash/src/lib.rs: `Digest`, `to_hex`, `Domain`, `derive_commitment`
--   Builder       runtime/builder/src: Errors, Ir (ir/timeline.rs, ir/reduced.rs, traits.rs),
--                 Partition (partition.rs), Reduce (reduce.rs), Lifecycle (lifecycle/)
--   Builder.Lifecycle
--                 Keys (keys.rs, canonical.rs), Certificate (certificate.rs), Hydration
--                 (hydration.rs), StorageRoot (storage_root.rs), Resolve (resolve.rs, semantic.rs,
--                 diagnostics.rs), Canonicalize (canonicalize.rs), Process (mod.rs)
--   Merkle        the fold that runtime/ssz (`merkleize`) and storage_root.rs (`derive`) share
--   Ssz           runtime/ssz/src: Encode, Decode (decode.rs), Merkle (`chunkify` to
--                 `commit_certificate_batch`)
--   Bridge        runtime/bridge/src: Hex, Parse and Wire (wire.rs: `decode_fixed_hex`,
--                 `parse_event_stream`, the events), Translate (translate.rs)
--   Verify        runtime/verify/src/lib.rs: `replay_and_verify`; Pipeline composes it with the
--                 builder, as runtime/verify/tests/full_pipeline.rs does
--   Tests         sample streams, tables and certificates, and the results applied to them
--
-- A struct is a record and an enum a data type, with the fields and constructors of the source. A
-- loop is a recursion over what it walks through, and the variables that it changes are a record
-- (`Partitioning`, `Replay`, `Translation`, `Walk`, `Schema`). A function that changes an object
-- returns the new one; an early return is the `err` of a result. Where the Merkle folds, the
-- replay, the hydration and the hex decoding could panic, by an index, an `expect` or a slice
-- inside a character, the result is an `Option`, and `none` is the panic. The other indexing of
-- the source stands behind a check of the length: the slices of the decoders and the first
-- terminal generation. Functions keep their names; `process`, which three modules of the builder
-- have, is told apart by its module, and `ssz_encode` and `ssz_decode` are `encode_` and `decode_`
-- with the name of the type.
--
-- An integer is a natural number. Where the source wraps or truncates, the remainder is written
-- out: the validator's counter, generation ids, the transaction index and the sequence numbers. An
-- array of bytes is a list; the predicates `IsSummary`, `IsSnapshot` and `IsCertificate` say what
-- the Rust types fix. The chunks of a snapshot's body are counted down from their number. Three
-- loops run on fuel: the doubling of the tree size and the folding of the layers (Merkle), whose
-- fuel is the number of leaves and the size, and the cutting into chunks (Ssz.Merkle), whose fuel
-- is the number of bytes. Each round uses at least one unit of what the fuel counts, and the
-- results below do not depend on it.
--
-- BLAKE3 is a crate, so a hash function is a parameter, and any function will do. The snapshot
-- source of the certificates is a trait without an implementation in the repository, so it is a
-- parameter as well. What the crates serde and serde_json read of a document is the parameter
-- `Serde`, the derived deserializers of the event data included; a text is the list of its UTF-8
-- bytes. Not modelled: texts of errors and diagnostics that are formatted from their other fields;
-- runtime/protocol, whose errors nothing uses; the stub runtime/ssr; and the Go tracer, the
-- scripts and the documents.
pub mod Base
pub mod Cse
pub mod Hash
pub mod Builder
pub mod Merkle
pub mod Ssz
pub mod Bridge
pub mod Verify
pub mod Tests
