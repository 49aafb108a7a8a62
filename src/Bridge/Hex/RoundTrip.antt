-- ===== src/Bridge/Hex/RoundTrip.antt =====
-- `to_hex` of runtime/hash against `decode_fixed_hex` of the bridge.
use kaysentinel.Base.{ℕ, ◌/◌, ◌%◌, ◌<◌, ◌≡◌, inl, refl, some, [], ◌∷◌, ◌++◌, ok, length, arith}
use kaysentinel.Base.Classes.{Bytes}
use kaysentinel.Hash.{codes, Digest, hex_digit, hex_text, to_hex}
use kaysentinel.Ssz.Integers.{IsBytes}
use kaysentinel.Bridge.Hex.{to_digit, decode_fixed_hex, hash_len}
use kaysentinel.Bridge.Hex.Spelling.{Spells, decode_fixed_hex-ok_iff}

to_digit-hex_digit : (x : ℕ) → x < 16 → to_digit (hex_digit x) ≡ some x
unfolding to_digit
to_digit-hex_digit x h = ground arith

hex_text-Spells : (bs : Bytes) → IsBytes bs → Spells (hex_text bs) bs
unfolding hex_text
hex_text-Spells [] v = tt
hex_text-Spells (b ∷ bs) v = (
  inl (
    b / 16,
    b % 16,
    to_digit-hex_digit (b / 16) (omega (arith, v.0)),
    to_digit-hex_digit (b % 16) (omega arith),
    omega arith,
  ),
  hex_text-Spells bs v.1,
)

-- Decoding the hex text of a digest of 32 bytes, with the prefix 0x before it, gives its bytes
-- back.
pub decode_fixed_hex-to_hex :
    (d : Digest)
    → IsBytes d.bytes
    → length d.bytes ≡ hash_len
    → decode_fixed_hex hash_len (codes "0x" ++ to_hex d) ≡ some (ok d.bytes)
unfolding to_hex
decode_fixed_hex-to_hex d v l =
    (decode_fixed_hex-ok_iff hash_len (codes "0x" ++ hex_text d.bytes) d.bytes).1
      (hex_text d.bytes, refl, hex_text-Spells d.bytes v, l)
