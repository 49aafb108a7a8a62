-- ===== src/Builder/Lifecycle/Process/Found.antt =====
-- The generations of one account, as `resolve_generation_for_address` filters them from a table's.
use kaysentinel.Base.{
  ◌≡◌, ◌≢◌, refl, ap, sym, subst, ◌∙◌, Option, none, some, Option-cases, List, [], ◌∷◌, ◌++◌,
  append-nil, All, inl, inr, arith,
}
use kaysentinel.Base.Classes.{
  bytes_eq, bytes_ord, bytes_cmp, bytes_beq_iff, bytes_cmp_refl, bytes_eq_of_cmp, Ordering-cases,
}
use kaysentinel.Base.BTreeMap.{BTreeMap, get, IsSorted}
use kaysentinel.Base.BTreeMap.Laws.{All_of_get, get_not-Above}
use kaysentinel.Cse.{Address}
use kaysentinel.Builder.Ir.{ObservedLifecycle}
use kaysentinel.Builder.Lifecycle.Keys.{CanonicalGeneration}
use kaysentinel.Builder.Lifecycle.Certificate.{with_address}
use kaysentinel.Builder.Lifecycle.Process.Lives.{lives_of, table_lives}
use kaysentinel.Builder.Lifecycle.Process.Ordered.{HasAccountTraces, lives_of-Of}
use kaysentinel.Builder.Lifecycle.Process.Observed.{observed, IsFilled, HasFilled}

with_address-append :
    (a : Address) (xs ys : List CanonicalGeneration)
    → with_address a (xs ++ ys) ≡ with_address a xs ++ with_address a ys
unfolding with_address
with_address-append a [] ys = refl
with_address-append a (x ∷ xs) ys = ground (arith, with_address-append a xs ys)

with_address-own :
    (a : Address) (gs : List CanonicalGeneration)
    → All (λ g. g.key.address ≡ a) gs
    → with_address a gs ≡ gs
unfolding with_address
with_address-own a [] h = refl
with_address-own a (g ∷ gs) h =
    rw ((bytes_beq_iff g.key.address a).1 h.0, with_address-own a gs h.1) refl

with_address-other :
    (a b : Address) (gs : List CanonicalGeneration)
    → b ≢ a
    → All (λ g. g.key.address ≡ b) gs
    → with_address a gs ≡ []
unfolding with_address
with_address-other a b [] n h = refl
with_address-other a b (g ∷ gs) n h =
    ground (arith, bytes_beq_iff g.key.address a, h.0, with_address-other a b gs n h.1)

-- The generations that an entry of the table gives.
abbrev entry_lives : Address → Option (List ObservedLifecycle) → List CanonicalGeneration
entry_lives a none = []
entry_lives a (some os) = lives_of a os

entry_after :
    (a : Address) (table : BTreeMap Address (List ObservedLifecycle))
    → IsSorted table
    → HasAccountTraces table
    → with_address a (table_lives table) ≡ entry_lives a (get a table)
unfolding table_lives with_address get
entry_after a [] s h = refl
entry_after a ((b, os) ∷ table) s h =
    let ih = entry_after a table s.1 h.1 in
    let split = with_address-append a (lives_of b os) (table_lives table) in
    let own = lives_of-Of b os h.0 in
    let other : b ≢ a → with_address a (lives_of b os) ≡ [] =
      λ n. with_address-other a b (lives_of b os) n own in
    elim (Ordering-cases (bytes_cmp a b)) [
      | inl l ↦
          let n : b ≢ a = λ e. ground (arith, l, bytes_cmp_refl a, e) in
          let gone = get_not-Above a b table (λ g. ground (arith, l, g)) s.0 in
          rw (split, other n, ih, gone, l, get) refl
      | inr (inl e) ↦
          let same = bytes_eq_of_cmp a b e in
          let gone = get_not-Above a b table (λ g. ground (arith, e, g)) s.0 in
          rw (split, ih, gone, e, get)
            (append-nil (with_address a (lives_of b os))
              ∙ with_address-own a (lives_of b os)
                  (subst (λ t. All (λ g. g.key.address ≡ t) (lives_of b os)) (sym same) own)
              ∙ ap (λ t. lives_of t os) (sym same))
      | inr (inr g) ↦
          let n : b ≢ a = λ e. ground (arith, g, bytes_cmp_refl a, e) in
          rw (split, other n, ih, g, get) refl
    ]

-- The generations of an account with these observations.
abbrev pub lives_found : Address → List ObservedLifecycle → List CanonicalGeneration
lives_found a [] = []
lives_found a (o ∷ os) = lives_of a (o ∷ os)

-- Of a sorted table without empty entries, the generations of an account are those of its
-- observations.
pub with_address-table_lives :
    (a : Address) (table : BTreeMap Address (List ObservedLifecycle))
    → IsSorted table
    → HasAccountTraces table
    → HasFilled table
    → with_address a (table_lives table) ≡ lives_found a (observed a table)
with_address-table_lives a table s h f =
    entry_after a table s h ∙ elim (Option-cases (get a table)) [
      | inl e ↦ rw e refl
      | inr (os, e) ↦ rw e (filled os (All_of_get (λ x. IsFilled x.1) a os table f e))
    ]
  where
    filled : (os : List ObservedLifecycle) → IsFilled os → lives_of a os ≡ lives_found a os
    filled [] i = absurd i
    filled (o ∷ os) i = refl
