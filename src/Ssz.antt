-- ===== src/Ssz.antt =====
-- runtime/ssz: the wire encoding of snapshots and certificates, its decoding, and Merkle roots.
pub mod Integers
pub mod Encode
pub mod Decode
pub mod RoundTrip
pub mod Snapshot
pub mod Canonical
pub mod Merkle
pub mod CertificateRoundTrip
