-- ===== src/Merkle.antt =====
-- The Merkle fold that runtime/ssz/src/lib.rs (`merkleize`) and
-- runtime/builder/src/lifecycle/storage_root.rs (`derive`) both write out: pad the leaves to a power
-- of two, then hash them pairwise until one is left. The pair hash and the zero leaf are parameters.
pub mod Root
use kaysentinel.Base.{
  ℕ, zero, suc, ◌-◌, ◌*◌, Option, none, some, List, [], ◌∷◌, ◌++◌, length, replicate, ltb,
  if◌then◌else◌,
}

-- `while size < n { size <<= 1 }`. The size is at least one and doubles, so `n` rounds are enough.
unfoldable pub double_until : ℕ → ℕ → ℕ → ℕ
double_until zero n size = size
double_until (suc fuel) n size =
    let rest = double_until fuel n (2 * size) in if ltb size n then rest else size

module _ {ℓ} {A : Type ℓ} (zero_leaf : A) where
  -- `if leaves.is_empty() { leaves.push([0u8; 32]) }`
  unfoldable pub or_zero_leaf : List A → List A
  or_zero_leaf [] = zero_leaf ∷ []
  or_zero_leaf (a ∷ rest) = a ∷ rest

  -- `while leaves.len() < size { leaves.push([0u8; 32]) }`
  unfoldable pub pad_to : ℕ → List A → List A
  pad_to size leaves = leaves ++ replicate (size - length leaves) zero_leaf

module _ {ℓ} {A : Type ℓ} (hash_pair : A → A → A) where
  -- One layer: `for pair in leaves.chunks(2)`. `pair[1]` is out of bounds in a chunk of one.
  unfoldable pub pair_up : List A → Option (List A)
  pair_up [] = some []
  pair_up (a ∷ []) = none
  pair_up (a ∷ b ∷ rest) = elim (pair_up rest) [
    | none ↦ none
    | some hashes ↦ some (hash_pair a b ∷ hashes)
  ]

  -- `while leaves.len() > 1`, then `leaves[0]`; `none` is an index out of bounds, or fuel that is
  -- spent.
  unfoldable pub fold_layers : ℕ → List A → Option A
  fold_layers zero leaves = none
  fold_layers (suc fuel) [] = none
  fold_layers (suc fuel) (a ∷ []) = some a
  fold_layers (suc fuel) (a ∷ b ∷ rest) = elim (pair_up (a ∷ b ∷ rest)) [
    | none ↦ none
    | some next ↦ fold_layers fuel next
  ]

module _ {ℓ} {A : Type ℓ} (hash_pair : A → A → A) (zero_leaf : A) where
  unfoldable pub fold_padded : List A → Option A
  unfolding double_until pad_to fold_layers pair_up
  fold_padded leaves =
      let size = double_until (length leaves) (length leaves) 1 in
      fold_layers hash_pair size (pad_to zero_leaf size leaves)

  unfoldable pub merkle_fold : List A → Option A
  unfolding or_zero_leaf fold_padded
  merkle_fold leaves = fold_padded (or_zero_leaf zero_leaf leaves)
