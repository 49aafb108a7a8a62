-- ===== src/Merkle/Root.antt =====
-- The fold against the perfect binary tree over the leaves, filled up with zero leaves.
use kaysentinel.Base.{
  ℕ, zero, suc, ◌+◌, ◌-◌, ◌*◌, ◌≤◌, ◌<◌, ◌≡◌, refl, ap, ◌∙◌, some, List, [], ◌∷◌, ◌++◌, length,
  length-append, length-replicate, replicate, ltb, if◌then◌else◌, arith, ◌⊎◌,
}
use kaysentinel.Merkle.{
  double_until, or_zero_leaf, pad_to, pair_up, fold_layers, fold_padded, merkle_fold,
}

-- The leaves of a perfect tree of a depth.
unfoldable pub pow2 : ℕ → ℕ
pow2 zero = 1
pow2 (suc d) = 2 * pow2 d

-- How often the size doubles.
unfoldable pub doublings : ℕ → ℕ → ℕ → ℕ
doublings zero n size = 0
doublings (suc fuel) n size =
    let rest = doublings fuel n (2 * size) in if ltb size n then suc rest else 0

unfoldable pub depth : ℕ → ℕ
unfolding doublings
depth n = doublings n n 1

module _ {ℓ} {A : Type ℓ} where
  unfoldable pub leaf_at : A → List A → ℕ → A
  leaf_at z [] i = z
  leaf_at z (a ∷ rest) zero = a
  leaf_at z (a ∷ rest) (suc i) = leaf_at z rest i

  -- The node at a height and a position of the tree over the leaves.
  unfoldable pub node : (A → A → A) → (ℕ → A) → ℕ → ℕ → A
  node h leaf zero i = leaf i
  node h leaf (suc d) i = h (node h leaf d (2 * i)) (node h leaf d (2 * i + 1))

pub pow2-pos : (d : ℕ) → 1 ≤ pow2 d
unfolding pow2
pow2-pos zero = omega arith
pow2-pos (suc d) = omega (arith, pow2-pos d)

pub double_until-eq :
    (fuel n size d : ℕ)
    → size ≡ pow2 d
    → double_until fuel n size ≡ pow2 (doublings fuel n size + d)
unfolding double_until doublings pow2
double_until-eq zero n size d h = rw h (ap pow2 (omega arith))
double_until-eq (suc fuel) n size d h =
    let ih = double_until-eq fuel n (2 * size) (suc d) (ap (λ p. 2 * p) h) in
    let shift : doublings fuel n (2 * size) + suc d ≡ suc (doublings fuel n (2 * size)) + d =
      omega arith in
    ground (arith, ih, h, ap pow2 shift)

pub double_until-le : (fuel n size : ℕ) → 1 ≤ size → n ≤ size + fuel → n ≤ double_until fuel n size
unfolding double_until
double_until-le zero n size h k = omega (arith, h, k)
double_until-le (suc fuel) n size h k =
    ground (arith, double_until-le fuel n (2 * size) (omega arith) (omega arith))

module _ {ℓ} {A : Type ℓ} (h : A → A → A) (z : A) where
  -- Filling up with zero leaves changes no leaf.
  leaf_at-replicate : (k i : ℕ) → leaf_at z (replicate k z) i ≡ z
  unfolding leaf_at
  leaf_at-replicate zero i = refl
  leaf_at-replicate (suc k) zero = refl
  leaf_at-replicate (suc k) (suc i) = leaf_at-replicate k i

  leaf_at-pad : (k : ℕ) (l : List A) (i : ℕ) → leaf_at z (l ++ replicate k z) i ≡ leaf_at z l i
  unfolding leaf_at
  leaf_at-pad k [] i = leaf_at-replicate k i
  leaf_at-pad k (a ∷ l) zero = refl
  leaf_at-pad k (a ∷ l) (suc i) = leaf_at-pad k l i

  node-ext : (f g : ℕ → A) → ((i : ℕ) → f i ≡ g i) → (d i : ℕ) → node h f d i ≡ node h g d i
  unfolding node
  node-ext f g e zero i = e i
  node-ext f g e (suc d) i = rw (node-ext f g e d (2 * i), node-ext f g e d (2 * i + 1))

  -- A layer of pairs is the tree without its lowest level.
  node-lift :
      (f g : ℕ → A) (d i : ℕ)
      → ((j : ℕ) → j < pow2 d * suc i → f j ≡ node h g 1 j)
      → node h f d i ≡ node h g (suc d) i
  unfolding node pow2
  node-lift f g zero i e = e i (omega arith)
  node-lift f g (suc d) i e = rw (
    node-lift f g d (2 * i) (λ j b. e j (omega arith)),
    node-lift f g d (2 * i + 1) (λ j b. e j (omega arith)),
  )

  -- A layer of even length pairs up without an index out of bounds.
  pair_up-some :
      (n : ℕ) (l : List A)
      → length l ≡ 2 * n
      → (next : List A) × (pair_up h l ≡ some next)
        × (length next ≡ n)
        × ((j : ℕ) → j < n → leaf_at z next j ≡ node h (leaf_at z l) 1 j)
  unfolding pair_up leaf_at node
  pair_up-some zero [] e = ([], refl, refl, λ j b. absurd (omega arith))
  pair_up-some zero (a ∷ l) e = absurd (omega arith)
  pair_up-some (suc n) [] e = absurd (omega arith)
  pair_up-some (suc n) (a ∷ []) e = absurd (omega arith)
  pair_up-some (suc n) (a ∷ b ∷ rest) e = more (pair_up-some n rest (omega arith))
    where
      more :
          ((next : List A) × (pair_up h rest ≡ some next)
            × (length next ≡ n)
            × ((j : ℕ) → j < n → leaf_at z next j ≡ node h (leaf_at z rest) 1 j))
          → (next : List A) × (pair_up h (a ∷ b ∷ rest) ≡ some next)
            × (length next ≡ suc n)
            × ((j : ℕ) → j < suc n → leaf_at z next j ≡ node h (leaf_at z (a ∷ b ∷ rest)) 1 j)
      more (next, p, q, r) = (h a b ∷ next, rw (p, pair_up), ap suc q, at)
        where
          at :
              (j : ℕ)
              → j < suc n
              → leaf_at z (h a b ∷ next) j ≡ node h (leaf_at z (a ∷ b ∷ rest)) 1 j
          at zero k = refl
          at (suc j) k =
              let even : 2 * suc j ≡ suc (suc (2 * j)) = omega arith in
              let odd : suc (suc (2 * j)) + 1 ≡ suc (suc (2 * j + 1)) = omega arith in
              rw (even, odd) (r j (omega arith))

  -- Layers of a power of two fold to the root of their tree.
  fold_layers-root :
      (d fuel : ℕ) (l : List A)
      → length l ≡ pow2 d
      → d < fuel
      → fold_layers h fuel l ≡ some (node h (leaf_at z l) d 0)
  unfolding fold_layers pow2 leaf_at node pair_up
  fold_layers-root d zero l e b = absurd (omega arith)
  fold_layers-root zero (suc fuel) [] e b = absurd (omega arith)
  fold_layers-root zero (suc fuel) (x ∷ []) e b = refl
  fold_layers-root zero (suc fuel) (x ∷ y ∷ l) e b = absurd (omega arith)
  fold_layers-root (suc d) (suc fuel) [] e b = absurd (omega (arith, pow2-pos d))
  fold_layers-root (suc d) (suc fuel) (x ∷ []) e b = absurd (omega arith)
  fold_layers-root (suc d) (suc fuel) (x ∷ y ∷ l) e b =
      let (next, p, q, r) = pair_up-some (pow2 d) (x ∷ y ∷ l) e in
      rw p (
        fold_layers-root d fuel next q (omega arith)
        ∙ ap some
            (node-lift (leaf_at z next) (leaf_at z (x ∷ y ∷ l)) d 0 (λ j k. r j (omega arith))))

  depth_lt : (d : ℕ) → d < pow2 d
  unfolding pow2
  depth_lt zero = omega arith
  depth_lt (suc d) = omega (arith, depth_lt d)

  fold_padded-root :
      (l : List A) → fold_padded h z l ≡ some (node h (leaf_at z l) (depth (length l)) 0)
  unfolding fold_padded pad_to depth pow2
  fold_padded-root l =
      let n = length l in
      let d = doublings n n 1 in
      let size_eq : double_until n n 1 ≡ pow2 d =
        double_until-eq n n 1 0 pow2_zero ∙ ap pow2 (omega arith) in
      let enough = double_until-le n n 1 (omega arith) (omega arith) in
      let padded = l ++ replicate (double_until n n 1 - n) z in
      let len : length padded ≡ pow2 d = omega (
        arith,
        length-append l (replicate (double_until n n 1 - n) z),
        length-replicate (double_until n n 1 - n) z,
        enough,
        size_eq,
      ) in
      fold_layers-root d (double_until n n 1) padded len (omega (arith, size_eq, depth_lt d))
      ∙ ap some
          (node-ext (leaf_at z padded) (leaf_at z l) (leaf_at-pad (double_until n n 1 - n) l) d 0)
    where
      pow2_zero : 1 ≡ pow2 0
      pow2_zero = refl

  -- For any pair hash, zero leaf and leaves, none among them, the fold ends, without an index out
  -- of bounds, in the root of the perfect binary tree of least depth whose leaves are the given
  -- ones followed by zero leaves.
  pub merkle_fold-root :
      (l : List A)
      → merkle_fold h z l ≡ some (node h (leaf_at z l) (depth (length (or_zero_leaf z l))) 0)
  unfolding merkle_fold or_zero_leaf leaf_at
  merkle_fold-root [] = fold_padded-root (z ∷ []) ∙ ap some (node-ext _ _ only (depth 1) 0)
    where
      only : (i : ℕ) → leaf_at z (z ∷ []) i ≡ leaf_at z [] i
      only zero = refl
      only (suc i) = refl
  merkle_fold-root (a ∷ l) = fold_padded-root (a ∷ l)

pub doublings-least :
    (fuel n size k d : ℕ) → size ≡ pow2 k → k ≤ d → n ≤ pow2 d → doublings fuel n size + k ≤ d
unfolding doublings pow2
doublings-least zero n size k d p b e = omega (arith, b)
doublings-least (suc fuel) n size k d p b e =
    let size_mono : (k ≡ d) → size ≡ pow2 d = λ q. p ∙ ap pow2 q in
    ground (arith, doublings-least fuel n (2 * size) (suc k) d (ap (λ s. 2 * s) p), size_mono, p)

-- The depth is enough for the leaves, and the least that is.
depth-least : (n : ℕ) → (n ≤ pow2 (depth n)) × ((d : ℕ) → n ≤ pow2 d → depth n ≤ d)
unfolding depth pow2
depth-least n =
    let size_eq : double_until n n 1 ≡ pow2 (doublings n n 1) =
      double_until-eq n n 1 0 refl ∙ ap pow2 (omega arith) in
    (
      omega (arith, size_eq, double_until-le n n 1 (omega arith) (omega arith)),
      λ d e. omega (arith, doublings-least n n 1 0 d refl (omega arith) e),
    )

pow2_mono : (d e : ℕ) → d ≤ e → pow2 d ≤ pow2 e
unfolding pow2
pow2_mono zero e h = pow2-pos e
pow2_mono (suc d) zero h = absurd (omega arith)
pow2_mono (suc d) (suc e) h = omega (arith, pow2_mono d e (omega arith))

double_until-lt : (fuel n size : ℕ) → size < 2 * n → double_until fuel n size < 2 * n
unfolding double_until
double_until-lt zero n size h = h
double_until-lt (suc fuel) n size h = ground (arith, double_until-lt fuel n (2 * size))

-- A number is below the bound, or what holds of numbers not below it holds.
below_or_not : {P : Type 0} (m n : ℕ) → (n ≤ m → P) → (m < n) ⊎ P
below_or_not m n f = ground arith

-- For one leaf or more and a fuel of at least their number, the loop that doubles the size from 1
-- ends with a power of two that is not below the number of leaves and is below twice that number.
-- It is the least such power: any power of two is below the number of leaves, or not below the
-- loop's result.
pub double_until-least :
    (fuel n e : ℕ)
    → 1 ≤ n
    → n ≤ fuel
    → (d : ℕ) × (double_until fuel n 1 ≡ pow2 d)
      × (n ≤ double_until fuel n 1)
      × (double_until fuel n 1 < 2 * n)
      × ((pow2 e < n) ⊎ (double_until fuel n 1 ≤ pow2 e))
unfolding pow2
double_until-least fuel n e b f =
    let d = doublings fuel n 1 in
    let size : double_until fuel n 1 ≡ pow2 d =
      double_until-eq fuel n 1 0 refl ∙ ap pow2 (omega arith) in
    (
      d,
      size,
      double_until-le fuel n 1 (omega arith) (omega (arith, f)),
      double_until-lt fuel n 1 (omega (arith, b)),
      below_or_not (pow2 e) n (λ h.
          let least = doublings-least fuel n 1 0 e refl (omega arith) h in
          omega (arith, size, pow2_mono d e (omega (arith, least)))),
    )
