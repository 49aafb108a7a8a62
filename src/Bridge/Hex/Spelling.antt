-- ===== src/Bridge/Hex/Spelling.antt =====
-- Which texts decode, and to what.
use kaysentinel.Base.{
  ℕ, ◌+◌, ◌*◌, ◌%◌, ◌<◌, ◌≡◌, ◌≢◌, ◌↔◌, ◌⊎◌, inl, inr, refl, sym, subst, true, Option, none, some,
  [], ◌∷◌, ◌++◌, Result, ok, err, length, arith, Bool-cases, Option-cases, Result-cases,
}
use kaysentinel.Base.Classes.{Bytes, ◌==◌, nat_eq}
use kaysentinel.Base.BTreeMap.{map_option}
use kaysentinel.Hash.{codes}
use kaysentinel.Bridge.Hex.{
  HexError, strip_prefix, to_digit, radix_digits, from_str_radix, is_char_boundary, hex_pairs,
  hex_decode, fixed, decode_fixed_hex,
}

-- Two characters spell a byte: two hex digits, or a plus sign and a hex digit.
abbrev pub SpellsByte : ℕ → ℕ → ℕ → Type 0
SpellsByte c d b =
    ((x : ℕ) × (y : ℕ) × (to_digit c ≡ some x) × (to_digit d ≡ some y) × (b ≡ x * 16 + y))
    ⊎ ((c ≡ b'+') × (to_digit d ≡ some b))

-- The text spells the bytes, two characters each.
abbrev pub Spells : Bytes → Bytes → Type 0
Spells [] [] = Unit
Spells [] (b ∷ bs) = ⊥
Spells (c ∷ []) bs = ⊥
Spells (c ∷ d ∷ t) [] = ⊥
Spells (c ∷ d ∷ t) (b ∷ bs) = SpellsByte c d b × Spells t bs

to_digit-lt : (c x : ℕ) → to_digit c ≡ some x → (x < 16) × (c < 128)
unfolding to_digit
to_digit-lt c x h = ground arith

to_digit-sign : (c x : ℕ) → to_digit c ≡ some x → (c ≢ b'+') × (c ≢ b'-')
unfolding to_digit
to_digit-sign c x h = ground arith

to_digit-plus : to_digit b'+' ≡ none
unfolding to_digit
to_digit-plus = refl

-- A pair of characters as a byte.
pair_ok : (c d b : ℕ) → SpellsByte c d b → from_str_radix (c ∷ d ∷ []) ≡ ok b
unfolding from_str_radix radix_digits
pair_ok c d b (inl (x, y, p, q, e)) =
    ground (arith, p, q, e, to_digit-lt c x, to_digit-lt d y, to_digit-sign c x)
pair_ok c d b (inr (p, q)) = ground (arith, p, q, to_digit-lt d b)

pair_spells : (c d b : ℕ) → from_str_radix (c ∷ d ∷ []) ≡ ok b → SpellsByte c d b
unfolding from_str_radix radix_digits
pair_spells c d b h = elim (Bool-cases (c == b'+')) [
  | inl plus ↦ elim (Option-cases (to_digit d)) [
    | inl no_digit ↦ absurd (ground (arith, h, plus, no_digit))
    | inr (y, q) ↦ inr (ground (arith, plus), ground (arith, h, plus, q, to_digit-lt d y))
  ]
  | inr digit ↦ elim (Option-cases (to_digit c)) [
    | inl no_digit ↦ absurd (ground (arith, h, digit, no_digit))
    | inr (x, p) ↦ elim (Option-cases (to_digit d)) [
      | inl no_digit ↦ absurd (ground (arith, h, digit, p, no_digit))
      | inr (y, q) ↦
          inl (x, y, p, q, ground (arith, h, digit, p, q, to_digit-lt c x, to_digit-lt d y))
    ]
  ]
]

SpellsByte-ascii : (c d b : ℕ) → SpellsByte c d b → c < 128
SpellsByte-ascii c d b (inl (x, y, p, q, e)) = (to_digit-lt c x p).1
SpellsByte-ascii c d b (inr (p, q)) = omega (arith, p)

Spells-boundary : (t bs : Bytes) → Spells t bs → is_char_boundary t ≡ true
unfolding is_char_boundary
Spells-boundary [] bs h = refl
Spells-boundary (c ∷ []) bs h = absurd h
Spells-boundary (c ∷ d ∷ t) [] h = absurd h
Spells-boundary (c ∷ d ∷ t) (b ∷ bs) h = ground (arith, SpellsByte-ascii c d b h.0)

Spells-length : (t bs : Bytes) → Spells t bs → length t ≡ 2 * length bs
Spells-length [] [] h = refl
Spells-length [] (b ∷ bs) h = absurd h
Spells-length (c ∷ []) bs h = absurd h
Spells-length (c ∷ d ∷ t) [] h = absurd h
Spells-length (c ∷ d ∷ t) (b ∷ bs) h = omega (arith, Spells-length t bs h.1)

Spells-hex_pairs : (t bs : Bytes) → Spells t bs → hex_pairs t ≡ some (ok bs)
unfolding hex_pairs
Spells-hex_pairs [] [] h = refl
Spells-hex_pairs [] (b ∷ bs) h = absurd h
Spells-hex_pairs (c ∷ []) bs h = absurd h
Spells-hex_pairs (c ∷ d ∷ t) [] h = absurd h
Spells-hex_pairs (c ∷ d ∷ t) (b ∷ bs) h =
    rw (Spells-boundary t bs h.1, pair_ok c d b h.0, Spells-hex_pairs t bs h.1)

-- The result of the pairs behind the first one.
after_pair : ℕ → Option (Result HexError Bytes) → Option (Result HexError Bytes)
after_pair b rest = map_option (λ r. elim r [ err e ↦ err e | ok bs ↦ ok (b ∷ bs) ]) rest

after_pair-ok :
    (b : ℕ) (rest : Option (Result HexError Bytes)) (bs : Bytes)
    → after_pair b rest ≡ some (ok bs)
    → (cs : Bytes) × (rest ≡ some (ok cs)) × (bs ≡ b ∷ cs)
unfolding after_pair
after_pair-ok b none bs h = absurd (ground arith)
after_pair-ok b (some (err e)) bs h = absurd (ground arith)
after_pair-ok b (some (ok cs)) bs h = (cs, refl, ground arith)

hex_pairs-Spells : (t bs : Bytes) → hex_pairs t ≡ some (ok bs) → Spells t bs
unfolding hex_pairs after_pair
hex_pairs-Spells [] [] h = tt
hex_pairs-Spells [] (b ∷ bs) h = absurd (ground arith)
hex_pairs-Spells (c ∷ []) bs h = absurd (ground arith)
hex_pairs-Spells (c ∷ d ∷ t) bs h = elim (Bool-cases (is_char_boundary t)) [
  | inr inside ↦ absurd (ground (arith, h, inside))
  | inl boundary ↦ elim (Result-cases (from_str_radix (c ∷ d ∷ []))) [
    | inr (kind, p) ↦ absurd (ground (arith, h, boundary, p))
    | inl (b, p) ↦
        let (cs, q, e) = after_pair-ok b (hex_pairs t) bs (rw (boundary, p) at h) in
        subst (Spells (c ∷ d ∷ t)) (sym e) (pair_spells c d b p, hex_pairs-Spells t cs q)
  ]
]

pub strip_prefix-some : (p s t : Bytes) → strip_prefix p s ≡ some t → s ≡ p ++ t
unfolding strip_prefix
strip_prefix-some [] s t h = ground arith
strip_prefix-some (c ∷ p) [] t h = absurd (ground arith)
strip_prefix-some (c ∷ p) (d ∷ s) t h = ground (arith, strip_prefix-some p s t)

hex_decode_iff : (t bs : Bytes) → (hex_decode t ≡ some (ok bs)) ↔ Spells t bs
unfolding hex_decode
hex_decode_iff t bs = elim (Bool-cases (length t % 2 == 0)) [
  | inl even ↦ rw even (hex_pairs-Spells t bs, Spells-hex_pairs t bs)
  | inr odd ↦
      rw odd (λ h. absurd (ground arith), λ h. absurd (ground (arith, odd, Spells-length t bs h)))
]

-- The decoded bytes, cut to their fixed length.
abbrev cut : ℕ → Option (Result HexError Bytes) → Option (Result HexError Bytes)
cut n decoded = map_option (λ r. elim r [ err e ↦ err e | ok bytes ↦ fixed n bytes ]) decoded

cut-ok :
    (n : ℕ) (decoded : Option (Result HexError Bytes)) (bs : Bytes)
    → (cut n decoded ≡ some (ok bs)) ↔ ((decoded ≡ some (ok bs)) × (length bs ≡ n))
unfolding fixed
cut-ok n none bs = ground arith
cut-ok n (some (err e)) bs = ground arith
cut-ok n (some (ok cs)) bs = ground arith

-- A text decodes to N bytes if and only if it is the prefix 0x and characters that spell these N
-- bytes, two for each byte: two hex digits of either case, or a plus sign and one hex digit.
pub decode_fixed_hex-ok_iff :
    (n : ℕ) (s bs : Bytes)
    → (decode_fixed_hex n s ≡ some (ok bs))
      ↔ ((t : Bytes) × (s ≡ codes "0x" ++ t) × Spells t bs × (length bs ≡ n))
unfolding decode_fixed_hex
decode_fixed_hex-ok_iff n s bs = (
  λ h. elim (Option-cases (strip_prefix (codes "0x") s)) [
    | inl missing ↦ absurd (ground (arith, h, missing))
    | inr (t, p) ↦
        let (q, l) = (cut-ok n (hex_decode t) bs).0 (rw p at h) in
        (t, strip_prefix-some (codes "0x") s t p, (hex_decode_iff t bs).0 q, l)
  ],
  λ h.
      let (t, e, spelled, l) = h in
      rw e ((cut-ok n (hex_decode t) bs).1 ((hex_decode_iff t bs).1 spelled, l)),
)
