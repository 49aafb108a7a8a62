-- ===== src/Bridge/Hex/Panics.antt =====
-- When decoding a text panics.
use kaysentinel.Base.{
  ◌%◌, ◌<◌, ◌≡◌, ◌≢◌, inl, inr, refl, subst, none, [], ◌∷◌, ◌++◌, All, length, true, arith,
  Bool-cases, Option-cases, Result-cases, ℕ,
}
use kaysentinel.Base.Classes.{Bytes, ◌==◌, nat_eq}
use kaysentinel.Hash.{codes}
use kaysentinel.Bridge.Hex.{
  strip_prefix, from_str_radix, is_char_boundary, hex_pairs, hex_decode, decode_fixed_hex,
}
use kaysentinel.Bridge.Hex.Spelling.{strip_prefix-some}

-- Every character of the text is ASCII.
abbrev pub IsAscii : Bytes → Type 0
IsAscii s = All (λ c. c < 128) s

IsAscii-boundary : (t : Bytes) → IsAscii t → is_char_boundary t ≡ true
unfolding is_char_boundary
IsAscii-boundary [] a = refl
IsAscii-boundary (c ∷ t) a = ground (arith, a.0)

hex_pairs-ne-none : (t : Bytes) → IsAscii t → length t % 2 ≡ 0 → hex_pairs t ≢ none
unfolding hex_pairs
hex_pairs-ne-none [] a e h = cc
hex_pairs-ne-none (c ∷ []) a e h = absurd (omega arith)
hex_pairs-ne-none (c ∷ d ∷ t) a e h =
    let even : length t % 2 ≡ 0 = omega (arith, e) in
    elim (Result-cases (from_str_radix (c ∷ d ∷ []))) [
      | inr (kind, p) ↦ ground (arith, rw (IsAscii-boundary t a.1.1, p) at h)
      | inl (b, p) ↦
          ground (arith, hex_pairs-ne-none t a.1.1 even, rw (IsAscii-boundary t a.1.1, p) at h)
    ]

hex_decode-ne-none : (t : Bytes) → IsAscii t → hex_decode t ≢ none
unfolding hex_decode
hex_decode-ne-none t a h = elim (Bool-cases (length t % 2 == 0)) [
  | inl even ↦ hex_pairs-ne-none t a (ground (arith, even)) (rw even at h)
  | inr odd ↦ ground (arith, rw odd at h)
]

IsAscii-behind : (p t : Bytes) → IsAscii (p ++ t) → IsAscii t
IsAscii-behind [] t a = a
IsAscii-behind (c ∷ p) t a = IsAscii-behind p t a.1

-- Decoding a text of ASCII characters does not panic, whatever the text.
pub decode_fixed_hex-ne-none : (n : ℕ) (s : Bytes) → IsAscii s → decode_fixed_hex n s ≢ none
unfolding decode_fixed_hex
decode_fixed_hex-ne-none n s a h = elim (Option-cases (strip_prefix (codes "0x") s)) [
  | inl missing ↦ ground (arith, rw missing at h)
  | inr (t, p) ↦
      let ascii =
        IsAscii-behind (codes "0x") t (subst IsAscii (strip_prefix-some (codes "0x") s t p) a) in
      ground (arith, hex_decode-ne-none t ascii, rw p at h)
]
