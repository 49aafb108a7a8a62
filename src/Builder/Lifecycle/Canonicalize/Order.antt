-- ===== src/Builder/Lifecycle/Canonicalize/Order.antt =====
-- `sort_by` and `dedup_by` of `CanonicalizationPipeline::process`, for any record with a key.
use Prim.Native.Nat.{Ordering}
use Prim.Native.Nat.Ordering.{lt, eq, gt}
use kaysentinel.Base.{
  ◌≡◌, ◌≢◌, refl, sym, List, [], ◌∷◌, All, All-imp, arith, Bool-cases, inl, inr, ◌⊎◌, subst,
}
use kaysentinel.Base.Classes.{◌==◌, Ordering-cases}
use kaysentinel.Base.Members.{IsIn}
use kaysentinel.Builder.Lifecycle.Keys.{GenerationKey, generation_key_eq}
use kaysentinel.Builder.Lifecycle.Canonicalize.{insert_sorted, sort_by, dedup_after, dedup_by_key}

-- A comparison that is a total order up to what it does not look at, and looks at the key.
pub record IsKeyOrder {T : Type 0} (key : T → GenerationKey) (cmp : T → T → Ordering) : Type 0 where
  pub flips : (a b : T) → cmp a b ≡ gt → cmp b a ≢ gt
  pub not_gt_trans : (a b c : T) → cmp a b ≢ gt → cmp b c ≢ gt → cmp a c ≢ gt
  pub less_trans : (a b c : T) → cmp a b ≡ lt → cmp b c ≡ lt → cmp a c ≡ lt
  pub key_of_eq : (a b : T) → cmp a b ≡ eq → key a ≡ key b
  pub not_gt_refl : (a : T) → cmp a a ≢ gt

-- Every element is in the relation to all later ones.
abbrev pub IsPairwise : {T : Type 0} → (T → T → Type 0) → List T → Type 0
IsPairwise R [] = Unit
IsPairwise R (a ∷ xs) = All (R a) xs × IsPairwise R xs

pub IsPairwise-imp :
    {T : Type 0} {R S : T → T → Type 0}
    → ((a b : T) → R a b → S a b)
    → (xs : List T) → IsPairwise R xs
    → IsPairwise S xs
IsPairwise-imp f [] h = tt
IsPairwise-imp f (a ∷ xs) h = (All-imp (f a) xs h.0, IsPairwise-imp f xs h.1)

-- One element of a list that stands for another: it has its key and is not after it.
abbrev pub IsKept : {T : Type 0} → (T → GenerationKey) → (T → T → Ordering) → List T → T → Type 0
IsKept {T} key cmp out a = (b : T) × IsIn b out × (key b ≡ key a) × (cmp b a ≢ gt)

module _ {T : Type 0} (key : T → GenerationKey) (cmp : T → T → Ordering)
    (o : IsKeyOrder key cmp) where
  abbrev NotAfter : T → T → Type 0
  NotAfter a b = cmp a b ≢ gt

  abbrev Less : T → T → Type 0
  Less a b = cmp a b ≡ lt

  Less-of : (a b : T) → NotAfter a b → key b ≢ key a → Less a b
  Less-of a b h n = elim (Ordering-cases (cmp a b)) [
    | inl l ↦ l
    | inr (inl e) ↦ absurd (n (sym (o.key_of_eq a b e)))
    | inr (inr g) ↦ absurd (h g)
  ]

  -- Where an element is inserted: in front, or behind the first.
  insert_sorted-cases :
      (a b : T) (bs : List T)
      → (NotAfter a b × (insert_sorted cmp a (b ∷ bs) ≡ a ∷ b ∷ bs))
        ⊎ ((cmp a b ≡ gt) × (insert_sorted cmp a (b ∷ bs) ≡ b ∷ insert_sorted cmp a bs))
  unfolding insert_sorted
  insert_sorted-cases a b bs = elim (Ordering-cases (cmp a b)) [
    | inl l ↦ inl (ground (arith, l), ground (arith, l))
    | inr (inl e) ↦ inl (ground (arith, e), ground (arith, e))
    | inr (inr g) ↦ inr (g, ground (arith, g))
  ]

  All-insert_sorted :
      (P : T → Type 0) (a : T) (bs : List T) → P a → All P bs → All P (insert_sorted cmp a bs)
  unfolding insert_sorted
  All-insert_sorted P a [] p h = (p, tt)
  All-insert_sorted P a (b ∷ bs) p h = elim (insert_sorted-cases a b bs) [
    | inl (q, e) ↦ subst (All P) (sym e) (p, h)
    | inr (q, e) ↦ subst (All P) (sym e) (h.0, All-insert_sorted P a bs p h.1)
  ]

  insert_sorted-IsPairwise :
      (a : T) (bs : List T) → IsPairwise NotAfter bs → IsPairwise NotAfter (insert_sorted cmp a bs)
  unfolding insert_sorted
  insert_sorted-IsPairwise a [] h = (tt, tt)
  insert_sorted-IsPairwise a (b ∷ bs) h = elim (insert_sorted-cases a b bs) [
    | inl (q, e) ↦
        subst (λ l. IsPairwise NotAfter l) (sym e)
          ((q, All-imp (λ x r. o.not_gt_trans a b x q r) bs h.0), h)
    | inr (q, e) ↦
        subst (λ l. IsPairwise NotAfter l) (sym e)
          (
            All-insert_sorted (λ x. NotAfter b x) a bs (o.flips a b q) h.0,
            insert_sorted-IsPairwise a bs h.1,
          )
  ]

  sort_by-IsPairwise : (xs : List T) → IsPairwise NotAfter (sort_by cmp xs)
  unfolding sort_by
  sort_by-IsPairwise [] = tt
  sort_by-IsPairwise (a ∷ xs) = insert_sorted-IsPairwise a (sort_by cmp xs) (sort_by-IsPairwise xs)

  -- What holds of all elements holds of all sorted ones, and conversely.
  All-sort_by : (P : T → Type 0) (xs : List T) → All P xs → All P (sort_by cmp xs)
  unfolding sort_by
  All-sort_by P [] h = tt
  All-sort_by P (a ∷ xs) h = All-insert_sorted P a (sort_by cmp xs) h.0 (All-sort_by P xs h.1)

  All-of_insert_sorted :
      (P : T → Type 0) (a : T) (bs : List T) → All P (insert_sorted cmp a bs) → P a × All P bs
  unfolding insert_sorted
  All-of_insert_sorted P a [] h = (h.0, tt)
  All-of_insert_sorted P a (b ∷ bs) h = elim (insert_sorted-cases a b bs) [
    | inl (q, e) ↦ subst (All P) e h
    | inr (q, e) ↦
        let h' = subst (All P) e h in
        let (p, rest) = All-of_insert_sorted P a bs h'.1 in (p, (h'.0, rest))
  ]

  All-of_sort_by : (P : T → Type 0) (xs : List T) → All P (sort_by cmp xs) → All P xs
  unfolding sort_by
  All-of_sort_by P [] h = tt
  All-of_sort_by P (a ∷ xs) h =
      let (p, rest) = All-of_insert_sorted P a (sort_by cmp xs) h in (p, All-of_sort_by P xs rest)

  -- Behind a kept element that no element is before, those that stay are after it, and ascend.
  dedup_after-ascends :
      (a : T) (xs : List T)
      → All (NotAfter a) xs
      → IsPairwise NotAfter xs
      → All (Less a) (dedup_after key a xs) × IsPairwise Less (dedup_after key a xs)
  unfolding dedup_after
  dedup_after-ascends a [] h p = (tt, tt)
  dedup_after-ascends a (b ∷ bs) h p = elim (Bool-cases (key b == key a)) [
    | inl same ↦ rw same (dedup_after-ascends a bs h.1 p.1)
    | inr new ↦
        let n : key b ≢ key a =
          λ e. ground (arith, new, generation_key_eq.beq_iff (key b) (key a), e) in
        let l = Less-of a b h.0 n in
        let (above, ascends) = dedup_after-ascends b bs p.0 p.1 in
        rw new ((l, All-imp (λ x q. o.less_trans a b x l q) _ above), (above, ascends))
  ]

  All-dedup_after : (P : T → Type 0) (a : T) (xs : List T) → All P xs → All P (dedup_after key a xs)
  unfolding dedup_after
  All-dedup_after P a [] h = tt
  All-dedup_after P a (b ∷ bs) h = elim (Bool-cases (key b == key a)) [
    | inl same ↦ rw same (All-dedup_after P a bs h.1)
    | inr new ↦ rw new (h.0, All-dedup_after P b bs h.1)
  ]

  -- Every element is kept, or another of its key that is not after it.
  dedup_after-IsKept :
      (a : T) (xs : List T)
      → All (NotAfter a) xs
      → IsPairwise NotAfter xs
      → All (IsKept key cmp (a ∷ dedup_after key a xs)) xs
  unfolding dedup_after
  dedup_after-IsKept a [] h p = tt
  dedup_after-IsKept a (b ∷ bs) h p = elim (Bool-cases (key b == key a)) [
    | inl same ↦
        let skipped : dedup_after key a (b ∷ bs) ≡ dedup_after key a bs = ground (arith, same) in
        subst (λ out. All (IsKept key cmp (a ∷ out)) (b ∷ bs)) (sym skipped)
          (
            (a, inl refl, sym ((generation_key_eq.beq_iff (key b) (key a)).0 same), h.0),
            dedup_after-IsKept a bs h.1 p.1,
          )
    | inr new ↦
        let taken : dedup_after key a (b ∷ bs) ≡ b ∷ dedup_after key b bs = ground (arith, new) in
        subst (λ out. All (IsKept key cmp (a ∷ out)) (b ∷ bs)) (sym taken)
          (
            (b, inr (inl refl), refl, o.not_gt_refl b),
            All-imp (λ x k. (k.0, inr k.1, k.2, k.3)) bs (dedup_after-IsKept b bs p.0 p.1),
          )
  ]

  dedup-ascends : (xs : List T) → IsPairwise NotAfter xs → IsPairwise Less (dedup_by_key key xs)
  unfolding dedup_by_key
  dedup-ascends [] p = tt
  dedup-ascends (a ∷ xs) p = dedup_after-ascends a xs p.0 p.1

  All-dedup : (P : T → Type 0) (xs : List T) → All P xs → All P (dedup_by_key key xs)
  unfolding dedup_by_key
  All-dedup P [] h = tt
  All-dedup P (a ∷ xs) h = (h.0, All-dedup_after P a xs h.1)

  dedup-IsKept :
      (xs : List T) → IsPairwise NotAfter xs → All (IsKept key cmp (dedup_by_key key xs)) xs
  unfolding dedup_by_key
  dedup-IsKept [] p = tt
  dedup-IsKept (a ∷ xs) p = ((a, inl refl, refl, o.not_gt_refl a), dedup_after-IsKept a xs p.0 p.1)

  All-self : (xs : List T) → All (λ x. IsIn x xs) xs
  All-self [] = tt
  All-self (a ∷ xs) = (inl refl, All-imp (λ x i. inr i) xs (All-self xs))

  -- A sorted list without repetitions ascends strictly, has elements of the input only, and keeps
  -- for each of these one with its key that is not after it.
  pub sort-dedup :
      (xs : List T)
      → let out = dedup_by_key key (sort_by cmp xs) in
        IsPairwise (λ a b. cmp a b ≡ lt) out
        × All (λ a. IsIn a xs) out
        × All (IsKept key cmp out) xs
  sort-dedup xs =
      let sorted = sort_by-IsPairwise xs in
      (
        dedup-ascends (sort_by cmp xs) sorted,
        All-dedup (λ a. IsIn a xs) (sort_by cmp xs) (All-sort_by (λ a. IsIn a xs) xs (All-self xs)),
        All-of_sort_by (IsKept key cmp (dedup_by_key key (sort_by cmp xs))) xs
            (dedup-IsKept (sort_by cmp xs) sorted),
      )
