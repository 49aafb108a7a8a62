-- ===== src/Ssz/Merkle/Chunks.antt =====
-- The chunks of a byte string.
use kaysentinel.Base.{
  subst, ℕ, zero, suc, ◌-◌, ◌≤◌, ◌<◌, ◌≡◌, refl, ap, sym, ◌∙◌, List, [], ◌∷◌, ◌++◌, append_assoc,
  append-nil, All, length, length-append, length-take, length-drop, length-replicate, take, drop,
  take-append-drop, replicate, arith, true, false, Bool-cases, ltb→lt, ltb, inl, inr,
}
use kaysentinel.Base.Classes.{Bytes}
use kaysentinel.Cse.{Word}
use kaysentinel.Ssz.Merkle.{zero_padded, chunk_loop, chunkify}

abbrev pub concat : List Word → Bytes
concat [] = []
concat (w ∷ ws) = w ++ concat ws

length-zero : (l : Bytes) → length l ≡ 0 → l ≡ []
length-zero [] h = refl
length-zero (b ∷ l) h = absurd (omega arith)

-- Chunks of 32 bytes that spell the bytes, with fewer than 32 zeros behind them.
abbrev pub IsChunking : Bytes → List Word → Type 0
IsChunking bytes chunks =
    All (λ c. length c ≡ 32) chunks
    × ((padding : ℕ) × (padding < 32) × (concat chunks ≡ bytes ++ replicate padding 0))

length-zero_padded : (bytes : Bytes) → length bytes ≤ 32 → length (zero_padded bytes) ≡ 32
unfolding zero_padded
length-zero_padded bytes h = omega (
  arith,
  length-append bytes (replicate (32 - length bytes) 0),
  length-replicate {A = ℕ} (32 - length bytes) 0,
)

zero_padded-full : (bytes : Bytes) → length bytes ≡ 32 → zero_padded bytes ≡ bytes
unfolding zero_padded
zero_padded-full bytes h = rw h (append-nil bytes)

chunk_loop-nil : (fuel : ℕ) → chunk_loop fuel [] ≡ []
unfolding chunk_loop
chunk_loop-nil zero = refl
chunk_loop-nil (suc fuel) = refl

module _ (all : Bytes) where
  nothing_later : ltb 32 (length all) ≡ false → drop 32 all ≡ []
  nothing_later last = length-zero (drop 32 all) (ground (arith, length-drop 32 all))

  all_first : ltb 32 (length all) ≡ false → take 32 all ≡ all
  all_first last =
      sym (append-nil (take 32 all))
      ∙ ap (λ t. take 32 all ++ t) (sym (nothing_later last))
      ∙ take-append-drop 32 all

  -- A full chunk in front of a chunking of what is behind it.
  full_chunk :
      (rest : List Word)
      → ltb 32 (length all) ≡ true
      → IsChunking (drop 32 all) rest
      → IsChunking all (zero_padded (take 32 all) ∷ rest)
  unfolding zero_padded
  full_chunk rest more (lens, (padding, small, spelt)) =
      let first = take 32 all in
      let full : zero_padded first ≡ first =
        zero_padded-full first (omega (arith, length-take 32 all, ltb→lt 32 (length all) more)) in
      (
        (length-zero_padded first (omega (arith, length-take 32 all)), lens),
        (
          padding,
          small,
          rw (full, spelt)
              (sym (append_assoc first (drop 32 all) (replicate padding 0))
                ∙ ap (λ t. t ++ replicate padding 0) (take-append-drop 32 all)),
        ),
      )

  -- The last chunk.
  last_chunk :
      ltb 32 (length all) ≡ false → 1 ≤ length all → IsChunking all (zero_padded (take 32 all) ∷ [])
  unfolding zero_padded
  last_chunk last h =
      rw (all_first last)
        ((length-zero_padded all (ground arith), tt), (32 - length all, omega arith, append-nil _))

chunk_loop-IsChunking :
    (fuel : ℕ) (bytes : Bytes) → length bytes ≤ fuel → IsChunking bytes (chunk_loop fuel bytes)
unfolding chunk_loop zero_padded
chunk_loop-IsChunking zero [] h = (tt, (0, omega arith, refl))
chunk_loop-IsChunking zero (b ∷ bytes) h = absurd (omega arith)
chunk_loop-IsChunking (suc fuel) [] h = (tt, (0, omega arith, refl))
chunk_loop-IsChunking (suc fuel) (b ∷ bytes) h =
    let all = b ∷ bytes in
    elim (Bool-cases (ltb 32 (length all))) [
      | inl more ↦
          full_chunk all (chunk_loop fuel (drop 32 all)) more
            (chunk_loop-IsChunking fuel (drop 32 all) (omega (arith, length-drop 32 all)))
      | inr last ↦
          subst (λ rest. IsChunking all (zero_padded (take 32 all) ∷ rest))
            (sym (ap (chunk_loop fuel) (nothing_later all last) ∙ chunk_loop-nil fuel))
            (last_chunk all last (omega arith))
    ]

-- The chunks of a byte string that is not empty are 32 bytes long each, and one behind the other
-- they are the bytes followed by fewer than 32 zeros.
pub chunkify-IsChunking : (bytes : Bytes) → 1 ≤ length bytes → IsChunking bytes (chunkify bytes)
unfolding chunkify
chunkify-IsChunking [] h = absurd (omega arith)
chunkify-IsChunking (b ∷ bytes) h =
    chunk_loop-IsChunking (length (b ∷ bytes)) (b ∷ bytes) (omega arith)
