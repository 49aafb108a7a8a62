-- ===== src/Bridge/Hex.antt =====
-- runtime/bridge/src/wire.rs: the hex texts of hashes and addresses. A text is the list of its UTF-8
-- bytes. The outer `Option` of a result is `none` where the source panics: slicing a text inside a
-- character does.
pub mod Spelling
pub mod Panics
pub mod RoundTrip
use kaysentinel.Base.{
  ℕ, zero, suc, ◌+◌, ◌-◌, ◌*◌, ◌%◌, Bool, true, false, not, ◌&&◌, ◌||◌, Option, none, some, List,
  [], ◌∷◌, Result, ok, err, map_err, length, is_empty, leb, ltb, if◌then◌else◌,
}
use kaysentinel.Base.Classes.{Bytes, ◌==◌, nat_eq}
use kaysentinel.Base.BTreeMap.{map_option}
use kaysentinel.Cse.{Word}
use kaysentinel.Hash.{codes}

abbrev pub hash_len : ℕ
hash_len = 32

abbrev pub address_len : ℕ
address_len = 20

-- `std::num::IntErrorKind`, as `from_str_radix` reports it
pub data IntErrorKind : Type 0 where
  empty invalid_digit pos_overflow : IntErrorKind

-- The error texts of the decoder, by what they are made of; the text that is decoded is left out.
pub data HexError : Type 0 where
  missing_prefix odd_length : HexError
  invalid_byte : IntErrorKind → HexError
  wrong_length : ℕ → ℕ → HexError

-- `str::strip_prefix`
unfoldable pub strip_prefix : Bytes → Bytes → Option Bytes
strip_prefix [] s = some s
strip_prefix (p ∷ ps) [] = none
strip_prefix (p ∷ ps) (c ∷ s) = let rest = strip_prefix ps s in if p == c then rest else none

-- `char::to_digit(16)`
unfoldable pub to_digit : ℕ → Option ℕ
to_digit c =
    if leb b'0' c && leb c b'9'
    then some (c - b'0')
    else if leb b'a' c && leb c b'f'
    then some (c - b'a' + 10)
    else if leb b'A' c && leb c b'F'
    then some (c - b'A' + 10)
    else none

-- The digits of a `u8`, after those that made `value`.
unfoldable pub radix_digits : ℕ → Bytes → Result IntErrorKind ℕ
radix_digits value [] = ok value
radix_digits value (c ∷ cs) = elim (to_digit c) [
  | none ↦ err invalid_digit
  | some d ↦
      let rest = radix_digits (value * 16 + d) cs in
      if leb 256 (value * 16 + d) then err pos_overflow else rest
]

-- `u8::from_str_radix(src, 16)`
unfoldable pub from_str_radix : Bytes → Result IntErrorKind ℕ
unfolding radix_digits
from_str_radix [] = err empty
from_str_radix (c ∷ cs) =
    if (c == b'+' || c == b'-') && is_empty cs
    then err invalid_digit
    else radix_digits 0 (if c == b'+' then cs else c ∷ cs)

-- `is_char_boundary`, at the place where these bytes of the text begin
unfoldable pub is_char_boundary : Bytes → Bool
is_char_boundary [] = true
is_char_boundary (b ∷ bs) = ltb b 128 || leb 192 b

-- The loop over the pairs of bytes. A pair begins where the one before it ended, so its slice panics
-- only if it ends inside a character. The clause of a single byte is not reached: the length is even.
unfoldable pub hex_pairs : Bytes → Option (Result HexError Bytes)
unfolding from_str_radix is_char_boundary
hex_pairs [] = some (ok [])
hex_pairs (c ∷ []) = none
hex_pairs (c ∷ d ∷ s) =
    let rest = hex_pairs s in
    if not (is_char_boundary s) then none else elim (from_str_radix (c ∷ d ∷ [])) [
      | err kind ↦ some (err (invalid_byte kind))
      | ok b ↦ map_option (λ r. elim r [ err e ↦ err e | ok bs ↦ ok (b ∷ bs) ]) rest
    ]

unfoldable pub hex_decode : Bytes → Option (Result HexError Bytes)
unfolding hex_pairs
hex_decode s = if not (length s % 2 == 0) then some (err odd_length) else hex_pairs s

-- `if bytes.len() != N { return Err(..) }`, and the array
unfoldable pub fixed : ℕ → Bytes → Result HexError Bytes
fixed n bytes = if not (length bytes == n) then err (wrong_length (length bytes) n) else ok bytes

unfoldable pub decode_fixed_hex : ℕ → Bytes → Option (Result HexError Bytes)
unfolding strip_prefix hex_decode fixed
decode_fixed_hex n s = elim (strip_prefix (codes "0x") s) [
  | none ↦ some (err missing_prefix)
  | some t ↦ map_option (λ r. elim r [ err e ↦ err e | ok bytes ↦ fixed n bytes ]) (hex_decode t)
]

-- `HexHash::deserialize` and `HexAddress::deserialize`: the text is read by serde, whose errors the
-- decoder's join through `custom`.
module _ {E : Type 0} (custom : HexError → E) where
  unfoldable pub deserialize_hex : ℕ → Result E Bytes → Option (Result E Bytes)
  deserialize_hex n (err e) = some (err e)
  deserialize_hex n (ok s) = map_option (map_err custom) (decode_fixed_hex n s)

  unfoldable pub deserialize_hash : Result E Bytes → Option (Result E Word)
  unfolding deserialize_hex
  deserialize_hash text = deserialize_hex hash_len text

  unfoldable pub deserialize_address : Result E Bytes → Option (Result E Bytes)
  unfolding deserialize_hex
  deserialize_address text = deserialize_hex address_len text
