-- ===== src/Tests/Hexes.antt =====
-- The theorems on hex texts and on the parsing of events, at texts of two bytes and one document.
use kaysentinel.Base.{
  ℕ, ◌≡◌, ◌≢◌, ◌↔◌, refl, Option, none, some, List, [], ◌∷◌, ◌++◌, replicate, Result, ok, err,
  length, arith,
}
use kaysentinel.Base.Classes.{Bytes}
use kaysentinel.Hash.{codes, Digest, to_hex}
use kaysentinel.Bridge.Wire.{GoEvent, block_start, block_commit}
use kaysentinel.Bridge.Hex
use kaysentinel.Bridge.Hex.{HexError, missing_prefix, odd_length, hash_len, decode_fixed_hex}
use kaysentinel.Bridge.Hex.Spelling.{Spells, decode_fixed_hex-ok_iff}
use kaysentinel.Bridge.Hex.Panics.{decode_fixed_hex-ne-none}
use kaysentinel.Bridge.Hex.RoundTrip.{decode_fixed_hex-to_hex}
use kaysentinel.Bridge.Parse.{TaggedEvent, Serde, parse_event_stream}
use kaysentinel.Bridge.Parse.Events.{AreEvents, parse_event_stream-ok_iff}

-- Both cases, and a plus sign in the place of a digit.
both_cases : decode_fixed_hex 2 (codes "0xaF+7") ≡ some (ok (175 ∷ 7 ∷ []))
unfolding decode_fixed_hex Hex.strip_prefix Hex.hex_decode Hex.hex_pairs Hex.from_str_radix
    Hex.radix_digits Hex.to_digit Hex.is_char_boundary Hex.fixed
both_cases = refl

no_prefix : decode_fixed_hex 2 (codes "aF07") ≡ some (err missing_prefix)
unfolding decode_fixed_hex Hex.strip_prefix
no_prefix = refl

odd : decode_fixed_hex 2 (codes "0xaF0") ≡ some (err odd_length)
unfolding decode_fixed_hex Hex.strip_prefix Hex.hex_decode
odd = refl

-- The three bytes of a euro sign and a digit: the first slice ends inside the sign.
euro_panics : decode_fixed_hex 2 (codes "0x" ++ (226 ∷ 130 ∷ 172 ∷ 49 ∷ [])) ≡ none
unfolding decode_fixed_hex Hex.strip_prefix Hex.hex_decode Hex.hex_pairs Hex.is_char_boundary
euro_panics = refl

decode_fixed_hex-ok_iff_example :
    (decode_fixed_hex 2 (codes "0xaF+7") ≡ some (ok (175 ∷ 7 ∷ []))) ↔ (
      (t : Bytes) × (codes "0xaF+7" ≡ codes "0x" ++ t)
      × Spells t (175 ∷ 7 ∷ [])
      × (length {A = ℕ} (175 ∷ 7 ∷ []) ≡ 2))
decode_fixed_hex-ok_iff_example = decode_fixed_hex-ok_iff 2 (codes "0xaF+7") (175 ∷ 7 ∷ [])

decode_fixed_hex-ne-none_example : decode_fixed_hex 2 (codes "0xaF07") ≢ none
decode_fixed_hex-ne-none_example = decode_fixed_hex-ne-none 2 (codes "0xaF07") (omega arith)

abbrev digest : Digest
digest = record { bytes = replicate 32 171 }

decode_fixed_hex-to_hex_example :
    decode_fixed_hex hash_len (codes "0x" ++ to_hex digest) ≡ some (ok digest.bytes)
decode_fixed_hex-to_hex_example = decode_fixed_hex-to_hex digest (omega arith) refl

-- A reader whose JSON values are numbers, and which reads one document: the start of a block and its
-- commit. Other data it refuses.
abbrev refused : {A B : Type 0} → A → Option (Result ℕ B)
refused a = some (err 1)

abbrev reader : Serde ℕ ℕ
reader = record {
  read_envelope = λ json. ok (
      record { kind = codes "BlockStart"; payload = 42 }
      ∷ record { kind = codes "BlockCommit"; payload = 0 }
      ∷ []);
  block_start = λ v. some (ok (record { number = v }));
  transaction_start = refused;
  frame_enter = refused;
  frame_exit = refused;
  transaction_end = refused;
  balance_mutation = refused;
  nonce_mutation = refused;
  code_mutation = refused;
  storage_mutation = refused;
  account_created = refused;
  self_destruct = refused;
}

abbrev block_events : List GoEvent
block_events = block_start (record { number = 42 }) ∷ block_commit ∷ []

parse_event_stream-ok_iff_example : (parse_event_stream reader [] ≡ some (ok block_events)) ↔ (
    (ts : List (TaggedEvent ℕ)) × (reader.read_envelope [] ≡ ok ts)
    × AreEvents reader ts block_events)
parse_event_stream-ok_iff_example = parse_event_stream-ok_iff reader [] block_events
