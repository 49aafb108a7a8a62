-- ===== src/Hash.antt =====
-- runtime/hash/src/lib.rs: domain-separated commitments. BLAKE3 is the crate `blake3`, so it is a
-- parameter: any function from byte strings to byte strings.
pub mod Separation
use Prim.Native.Char.{code}
use Prim.Native.String.{String}
use kaysentinel.Base.{
  ℕ, ◌+◌, ◌-◌, ◌/◌, ◌%◌, ltb, Bool, List, [], ◌∷◌, ◌++◌, Result, ok, err, length, if◌then◌else◌,
}
use kaysentinel.Base.Classes.{Bytes, ◌==◌, nat_eq}

-- The bytes of an ASCII text.
abbrev pub codes : String → Bytes
codes String.[] = []
codes (String.◌∷◌ c s) = code c ∷ codes s

pub data DigestError : Type 0 where
  invalid_length : DigestError

-- `Digest([u8; 32])`
pub record Digest : Type 0 where
  pub bytes : Bytes

abbrev pub from_bytes : Bytes → Digest
from_bytes bytes = record { bytes = bytes }

abbrev pub to_bytes : Digest → Bytes
to_bytes d = d.bytes

-- A digit of the format `{:x}`, and a byte in the format `{:02x}`.
abbrev pub hex_digit : ℕ → ℕ
hex_digit n = if ltb n 10 then b'0' + n else b'a' + (n - 10)

abbrev pub hex_byte : ℕ → Bytes
hex_byte b = hex_digit (b / 16) ∷ hex_digit (b % 16) ∷ []

-- `bytes.iter().map(|b| format!("{:02x}", b)).collect()`
unfoldable pub hex_text : Bytes → Bytes
hex_text [] = []
hex_text (b ∷ bs) = hex_byte b ++ hex_text bs

unfoldable pub to_hex : Digest → Bytes
unfolding hex_text
to_hex d = hex_text d.bytes

-- `TryFrom<&[u8]>`
unfoldable pub try_from : Bytes → Result DigestError Digest
try_from slice = if length slice == 32 then ok (from_bytes slice) else err invalid_length

pub data Domain : Type 0 where
  trie_leaf trie_branch life_cert ssr_root gate2_replay : Domain

unfoldable pub as_bytes : Domain → Bytes
as_bytes trie_leaf = codes "KAY_TRIE_LEAF"
as_bytes trie_branch = codes "KAY_TRIE_BRANCH"
as_bytes life_cert = codes "KAY_LIFE_CERT"
as_bytes ssr_root = codes "KAY_SSR_ROOT"
as_bytes gate2_replay = codes "KAY_GATE2_REPLAY"

-- What the hasher has been fed.
unfoldable pub hash_input : Domain → Bytes → Bytes
hash_input domain canonical_bytes = as_bytes domain ++ canonical_bytes

unfoldable pub derive_commitment : (Bytes → Bytes) → Domain → Bytes → Digest
derive_commitment blake3 domain canonical_bytes =
    from_bytes (blake3 (hash_input domain canonical_bytes))
