-- ===== src/Builder/Lifecycle/Process/Verdict.antt =====
-- The spacing of generations, which the schema check asks for, in terms of the observations.
use Prim.Native.Nat.Ordering.{lt}
use kaysentinel.Base.{
  ℕ, suc, ◌+◌, ◌%◌, ◌<◌, ◌≡◌, ◌↔◌, refl, sym, ◌∙◌, Bool, true, false, some, List, [], ◌∷◌, ◌++◌,
  length, All, arith,
}
use kaysentinel.Base.Classes.{bytes_ord, bytes_cmp, bytes_cmp_refl}
use kaysentinel.Base.BTreeMap.{BTreeMap, IsSorted}
use kaysentinel.Cse.{Address, u32_mod}
use kaysentinel.Builder.Ir.{
  TraceProvenance, CseLifecyclePayload, created, destroyed, ObservedLifecycle,
}
use kaysentinel.Builder.Lifecycle.Keys.{CanonicalGeneration}
use kaysentinel.Builder.Lifecycle.Resolve.Ids.{seen_in}
use kaysentinel.Builder.Lifecycle.Canonicalize.Report.{EndsAfter, BeginsAfter}
use kaysentinel.Builder.Lifecycle.Process.Lives.{life, lives_from, lives_of, table_lives}
use kaysentinel.Builder.Lifecycle.Process.Ordered.{
  AscendsFrom, AscendsFrom-weaken, StartsFrom, lives_from-StartsFrom, HasAccountTraces,
  IsAccountTrace, lives_of-Of, table_lives-above, length-seen_in,
}

-- Every destruction directly follows a creation; at first, a creation may have gone before.
abbrev pub Alternates : Bool → List (CseLifecyclePayload × TraceProvenance) → Type 0
Alternates is_open [] = Unit
Alternates is_open ((created p, at) ∷ os) = Alternates true os
Alternates is_open ((destroyed p, at) ∷ os) = (is_open ≡ true) × Alternates false os

-- Every destruction directly follows a creation.
abbrev pub IsAlternating : List ObservedLifecycle → Type 0
IsAlternating os = Alternates false (seen_in os)

abbrev LeavesGap : CanonicalGeneration → List CanonicalGeneration → Type 0
LeavesGap g [] = Unit
LeavesGap g (h ∷ hs) = g.key.address ≡ h.key.address → BeginsAfter g.end h.begin

-- Every generation ends after its begin, and before the next one of its account begins.
abbrev pub IsSpaced : List CanonicalGeneration → Type 0
IsSpaced [] = Unit
IsSpaced (g ∷ gs) = EndsAfter g.begin g.end × LeavesGap g gs × IsSpaced gs

abbrev SpacedAfter : CanonicalGeneration → Bool → List CanonicalGeneration → Type 0
SpacedAfter g true gs = IsSpaced gs
SpacedAfter g false gs = LeavesGap g gs × IsSpaced gs

gap_before :
    (a : Address) (m n : ℕ) (from to at : TraceProvenance) (gs : List CanonicalGeneration)
    → to.trace_ordinal < at.trace_ordinal
    → All (StartsFrom a n at.trace_ordinal) gs
    → LeavesGap (life a m from (some to)) gs
gap_before a m n from to at [] l h = tt
gap_before a m n from to at (g ∷ gs) l h = λ e. omega (arith, l, h.0.2)

module _ (a : Address) where
  lives_from-SpacedAfter :
      (m n : ℕ) (from begin : TraceProvenance) (is_open : Bool)
      (os : List (CseLifecyclePayload × TraceProvenance))
      → n + length os < u32_mod
      → AscendsFrom (suc begin.trace_ordinal) os
      → SpacedAfter (life a m from (some begin)) is_open (lives_from a n begin is_open os)
        ↔ Alternates is_open os
  unfolding lives_from
  lives_from-SpacedAfter m n from begin true [] b h = (λ s. tt, λ s. (tt, tt, tt))
  lives_from-SpacedAfter m n from begin false [] b h = (λ s. tt, λ s. (tt, tt))
  lives_from-SpacedAfter m n from begin true ((created p, at) ∷ os) b h =
      lives_from-SpacedAfter m n from at true os (omega arith) h.1
  lives_from-SpacedAfter m n from begin false ((created p, at) ∷ os) b h =
      let ih = lives_from-SpacedAfter m n from at true os (omega arith) h.1 in
      (
        λ s. ih.0 s.1,
        λ s. (
          gap_before a m n from begin at _ (omega (arith, h.0)) (
              lives_from-StartsFrom a n at true os (omega arith)
                (AscendsFrom-weaken _ _ os (omega arith) h.1)),
          ih.1 s,
        ),
      )
  lives_from-SpacedAfter m n from begin true ((destroyed p, at) ∷ os) b h =
      let ih =
        lives_from-SpacedAfter n ((n + 1) % u32_mod) begin at false os (omega (arith, b)) h.1 in
      (λ s. (refl, ih.0 (s.1, s.2)), λ s. let r = ih.1 s.1 in (omega (arith, h.0), r.0, r.1))
  lives_from-SpacedAfter m n from begin false ((destroyed p, at) ∷ os) b h =
      (λ s. absurd (omega (arith, s.0 refl)), λ s. absurd (ground (arith, s.0)))

  -- The first observation.
  first-IsSpaced :
      (p : CseLifecyclePayload) (at : TraceProvenance)
      (os : List (CseLifecyclePayload × TraceProvenance))
      → suc (length os) < u32_mod
      → AscendsFrom (suc at.trace_ordinal) os
      → IsSpaced (lives_from a 0 at true ((p, at) ∷ os)) ↔ Alternates false ((p, at) ∷ os)
  unfolding lives_from
  first-IsSpaced (created p) at os b h = lives_from-SpacedAfter 0 0 at at true os (omega arith) h
  first-IsSpaced (destroyed p) at os b h =
      (λ s. absurd (omega (arith, s.0)), λ s. absurd (ground (arith, s.0)))

  lives_of-IsSpaced :
      (os : List ObservedLifecycle)
      → IsAccountTrace os
      → IsSpaced (lives_of a os) ↔ IsAlternating os
  unfolding lives_from
  lives_of-IsSpaced [] h = (λ s. tt, λ s. (tt, tt, tt))
  lives_of-IsSpaced (o ∷ os) h =
      first-IsSpaced o.payload o.trace_provenance (seen_in os)
        (omega (arith, h.0, length-seen_in os)) h.1.1

-- The generations of two accounts are spaced if those of each are.
IsSpaced-append :
    (a : Address) (xs ys : List CanonicalGeneration)
    → All (λ g. g.key.address ≡ a) xs
    → All (λ g. bytes_cmp a g.key.address ≡ lt) ys
    → IsSpaced (xs ++ ys) ↔ (IsSpaced xs × IsSpaced ys)
IsSpaced-append a [] ys p q = (λ s. (tt, s), λ s. s.1)
IsSpaced-append a (x ∷ []) ys p q = (λ s. ((s.0, tt, tt), s.2), λ s. (s.0.0, apart ys q, s.1))
  where
    apart :
        (ys : List CanonicalGeneration)
        → All (λ g. bytes_cmp a g.key.address ≡ lt) ys
        → LeavesGap x ys
    apart [] q = tt
    apart (y ∷ ys) q = λ e. absurd (ground (arith, q.0, bytes_cmp_refl y.key.address, sym p.0 ∙ e))
IsSpaced-append a (x ∷ z ∷ xs) ys p q =
    let ih = IsSpaced-append a (z ∷ xs) ys p.1 q in
    (λ s. let r = ih.0 s.2 in ((s.0, s.1, r.0), r.1), λ s. (s.0.0, s.0.1, ih.1 (s.0.2, s.1)))

pub table_lives-IsSpaced :
    (table : BTreeMap Address (List ObservedLifecycle))
    → IsSorted table
    → HasAccountTraces table
    → IsSpaced (table_lives table) ↔ All (λ e. IsAlternating e.1) table
unfolding table_lives
table_lives-IsSpaced [] s h = (λ x. tt, λ x. tt)
table_lives-IsSpaced ((a, os) ∷ table) s h =
    let ih = table_lives-IsSpaced table s.1 h.1 in
    let one = lives_of-IsSpaced a os h.0 in
    let both =
      IsSpaced-append a (lives_of a os) (table_lives table) (lives_of-Of a os h.0)
        (table_lives-above a table s.0 h.1) in
    (λ x. let r = both.0 x in (one.0 r.0, ih.0 r.1), λ x. both.1 (one.1 x.0, ih.1 x.1))
