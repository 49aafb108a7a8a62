-- ===== src/Base/Classes.antt =====
-- The traits `PartialEq` and `Ord` as records of operations and laws, with the instances for
-- integers and byte arrays (an array `[u8; N]` is the list of its bytes, compared
-- lexicographically).
use Prim.Native.Nat.{ℕ, compare, Ordering}
use Prim.Native.Nat.Ordering.{lt, eq, gt}
use mathlib.Core.Path.{◌≡◌, refl}
use mathlib.Core.Logic.{◌↔◌, ◌⊎◌, inl, inr}
use mathlib.Core.Bool.{Bool, true, false, ◌&&◌}
use mathlib.Core.List.{List, [], ◌∷◌}
use native.Mathlib.Omega.{arith}
use kaysentinel.Base.Tests.{nat_beq, nat_beq_iff}

abbrev pub Bytes : Type 0
Bytes = List ℕ

-- `PartialEq`, of a type whose `==` is equality.
pub record PartialEq {κ} (K : Type κ) : Type κ where
  pub beq : K → K → Bool
  pub beq_iff : (x y : K) → (beq x y ≡ true) ↔ (x ≡ y)

infix 50 ◌==◌
abbrev pub ◌==◌ {κ} : {K : Type κ} ⦃o : PartialEq K⦄ → K → K → Bool
◌==◌ ⦃o⦄ = o.beq

instance abbrev pub nat_eq : PartialEq ℕ
nat_eq = record { beq = nat_beq; beq_iff = nat_beq_iff }

unfoldable pub bytes_beq : Bytes → Bytes → Bool
bytes_beq [] [] = true
bytes_beq [] (y ∷ ys) = false
bytes_beq (x ∷ xs) [] = false
bytes_beq (x ∷ xs) (y ∷ ys) = nat_beq x y && bytes_beq xs ys

pub bytes_beq_iff : (a b : Bytes) → (bytes_beq a b ≡ true) ↔ (a ≡ b)
unfolding bytes_beq
bytes_beq_iff [] [] = ground arith
bytes_beq_iff [] (y ∷ ys) = ground arith
bytes_beq_iff (x ∷ xs) [] = ground arith
bytes_beq_iff (x ∷ xs) (y ∷ ys) = ground (arith, bytes_beq_iff xs ys)

pub bytes_beq_comm : (a b : Bytes) → bytes_beq a b ≡ bytes_beq b a
bytes_beq_comm a b = ground (arith, bytes_beq_iff a b, bytes_beq_iff b a)

instance abbrev pub bytes_eq : PartialEq Bytes
bytes_eq = record { beq = bytes_beq; beq_iff = bytes_beq_iff }

abbrev pub flip : Ordering → Ordering
flip lt = gt
flip eq = eq
flip gt = lt

pub record Ord {ℓ} (K : Type ℓ) : Type ℓ where
  pub cmp : K → K → Ordering
  pub cmp_refl : (a : K) → cmp a a ≡ eq
  pub eq_of_cmp : (a b : K) → cmp a b ≡ eq → a ≡ b
  pub cmp_flip : (a b : K) → cmp b a ≡ flip (cmp a b)
  pub lt_trans : (a b c : K) → cmp a b ≡ lt → cmp b c ≡ lt → cmp a c ≡ lt

pub Ordering-cases : (c : Ordering) → (c ≡ lt) ⊎ ((c ≡ eq) ⊎ (c ≡ gt))
Ordering-cases lt = inl refl
Ordering-cases eq = inr (inl refl)
Ordering-cases gt = inr (inr refl)

-- `first.then(second)`
abbrev pub then_cmp : Ordering → Ordering → Ordering
then_cmp lt o = lt
then_cmp eq o = o
then_cmp gt o = gt

pub nat_cmp_refl : (a : ℕ) → compare a a ≡ eq
nat_cmp_refl a = ground arith

pub nat_eq_of_cmp : (a b : ℕ) → compare a b ≡ eq → a ≡ b
nat_eq_of_cmp a b h = ground arith

pub nat_cmp_flip : (a b : ℕ) → compare b a ≡ flip (compare a b)
nat_cmp_flip a b = ground arith

pub nat_lt_trans : (a b c : ℕ) → compare a b ≡ lt → compare b c ≡ lt → compare a c ≡ lt
nat_lt_trans a b c h k = ground arith

instance abbrev pub nat_ord : Ord ℕ
nat_ord = record {
  cmp = compare;
  cmp_refl = nat_cmp_refl;
  eq_of_cmp = nat_eq_of_cmp;
  cmp_flip = nat_cmp_flip;
  lt_trans = nat_lt_trans;
}

unfoldable pub bytes_cmp : Bytes → Bytes → Ordering
bytes_cmp [] [] = eq
bytes_cmp [] (y ∷ ys) = lt
bytes_cmp (x ∷ xs) [] = gt
bytes_cmp (x ∷ xs) (y ∷ ys) = then_cmp (compare x y) (bytes_cmp xs ys)

pub bytes_cmp_refl : (a : Bytes) → bytes_cmp a a ≡ eq
unfolding bytes_cmp
bytes_cmp_refl [] = refl
bytes_cmp_refl (x ∷ xs) = ground (arith, bytes_cmp_refl xs)

pub bytes_eq_of_cmp : (a b : Bytes) → bytes_cmp a b ≡ eq → a ≡ b
unfolding bytes_cmp
bytes_eq_of_cmp [] [] h = refl
bytes_eq_of_cmp [] (y ∷ ys) h = cc
bytes_eq_of_cmp (x ∷ xs) [] h = cc
bytes_eq_of_cmp (x ∷ xs) (y ∷ ys) h = ground (arith, bytes_eq_of_cmp xs ys)

pub bytes_cmp-flip : (a b : Bytes) → bytes_cmp b a ≡ flip (bytes_cmp a b)
unfolding bytes_cmp
bytes_cmp-flip [] [] = refl
bytes_cmp-flip [] (y ∷ ys) = refl
bytes_cmp-flip (x ∷ xs) [] = refl
bytes_cmp-flip (x ∷ xs) (y ∷ ys) = ground (arith, bytes_cmp-flip xs ys)

pub bytes_lt_trans : (a b c : Bytes) → bytes_cmp a b ≡ lt → bytes_cmp b c ≡ lt → bytes_cmp a c ≡ lt
unfolding bytes_cmp
bytes_lt_trans [] [] c h k = k
bytes_lt_trans [] (y ∷ ys) [] h k = cc
bytes_lt_trans [] (y ∷ ys) (z ∷ zs) h k = refl
bytes_lt_trans (x ∷ xs) [] c h k = cc
bytes_lt_trans (x ∷ xs) (y ∷ ys) [] h k = cc
bytes_lt_trans (x ∷ xs) (y ∷ ys) (z ∷ zs) h k = ground (arith, bytes_lt_trans xs ys zs)

instance abbrev pub bytes_ord : Ord Bytes
bytes_ord = record {
  cmp = bytes_cmp;
  cmp_refl = bytes_cmp_refl;
  eq_of_cmp = bytes_eq_of_cmp;
  cmp_flip = bytes_cmp-flip;
  lt_trans = bytes_lt_trans;
}
