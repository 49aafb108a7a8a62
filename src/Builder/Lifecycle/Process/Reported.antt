-- ===== src/Builder/Lifecycle/Process/Reported.antt =====
-- What one bucket's round of `process` (lifecycle/mod.rs) returns and reports.
use kaysentinel.Base.{
  false, arith, ◌≡◌, ◌↔◌, refl, ap, sym, subst, ◌∙◌, Bool, true, List, [], ◌∷◌, map, All,
}
use kaysentinel.Base.Classes.{bytes_ord}
use kaysentinel.Base.BTreeMap.{BTreeMap, IsSorted}
use kaysentinel.Cse.{Address}
use kaysentinel.Builder.Ir.{ReducedTransactionBucket}
use kaysentinel.Builder.Lifecycle.Keys.{CanonicalPreState, CanonicalGeneration, CanonicalSemanticIr}
use kaysentinel.Builder.Lifecycle.Resolve.{resolve, has_error, is_valid}
use kaysentinel.Builder.Lifecycle.Canonicalize.{sort_by, dedup_by_key, canonicalize}
use kaysentinel.Builder.Lifecycle.Canonicalize.Report.{EndsAfter, HasOrderedPairs, all_hold}
use kaysentinel.Builder.Lifecycle.Canonicalize.Canonical.{IsCanonical, verify_global_schema_iff}
use kaysentinel.Builder.Lifecycle.Process.{
  canonical_generation, canonical_pre_state, process_bucket,
}
use kaysentinel.Builder.Lifecycle.Canonicalize.Diagnosed.{has_error-append, has_error-canonicalize}
use kaysentinel.Builder.Lifecycle.Process.Lives.{resolve-lives}
use kaysentinel.Builder.Lifecycle.Process.Ordered.{
  Precedes-order, IsAscending, IsAscending-keys, sort_by-ascending, dedup_by_key-ascending,
  HasAccountTraces, table_lives-IsAscending,
}
use kaysentinel.Builder.Lifecycle.Process.Verdict.{IsAlternating, IsSpaced, table_lives-IsSpaced}

IsSpaced-of :
    (gs : List CanonicalGeneration)
    → All (λ g. EndsAfter g.begin g.end) gs
    → HasOrderedPairs gs
    → IsSpaced gs
IsSpaced-of [] e o = tt
IsSpaced-of (g ∷ []) e o = (e.0, tt, tt)
IsSpaced-of (g ∷ h ∷ gs) e o = (e.0, o.0.1, IsSpaced-of (h ∷ gs) e.1 o.1)

IsSpaced-ends :
    (gs : List CanonicalGeneration) → IsSpaced gs → All (λ g. EndsAfter g.begin g.end) gs
IsSpaced-ends [] s = tt
IsSpaced-ends (g ∷ gs) s = (s.0, IsSpaced-ends gs s.2)

IsSpaced-pairs : (gs : List CanonicalGeneration) → IsAscending gs → IsSpaced gs → HasOrderedPairs gs
IsSpaced-pairs [] a s = tt
IsSpaced-pairs (g ∷ []) a s = tt
IsSpaced-pairs (g ∷ h ∷ gs) a s = ((Precedes-order g h a.0.0, s.1), IsSpaced-pairs (h ∷ gs) a.1 s.2)

-- A schema of ascending generations and no balances is canonical if they are spaced.
IsCanonical-IsSpaced :
    (ir : CanonicalSemanticIr)
    → IsAscending ir.generations
    → ir.balances ≡ []
    → IsCanonical ir ↔ IsSpaced ir.generations
IsCanonical-IsSpaced ir a b = (
  λ c. IsSpaced-of ir.generations c.ends c.ordered,
  λ s. record {
    distinct = IsAscending-keys ir.generations a;
    ends = IsSpaced-ends ir.generations s;
    referenced = rw b tt;
    ordered = IsSpaced-pairs ir.generations a s;
  },
)

-- Canonicalization does not change ascending generations, and reports on their spacing.
canonicalize-ascending :
    (ps : List CanonicalPreState) (gs : List CanonicalGeneration)
    → IsAscending gs
    → ((canonicalize ps gs []).value.generations ≡ gs)
      × ((all_hold (canonicalize ps gs []).invariant_report ≡ true) ↔ IsSpaced gs)
unfolding canonicalize sort_by dedup_by_key
canonicalize-ascending ps gs a =
    let same =
      ap (λ t. dedup_by_key (λ g. g.key) t) (sort_by-ascending gs a)
      ∙ dedup_by_key-ascending gs a in
    let ir = (canonicalize ps gs []).value in
    let checked = verify_global_schema_iff ir in
    let spaced = IsCanonical-IsSpaced ir (subst (λ t. IsAscending t) (sym same) a) refl in
    (
      same,
      (
        λ h. subst (λ t. IsSpaced t) same (spaced.0 (checked.0 h)),
        λ s. checked.1 (spaced.1 (subst (λ t. IsSpaced t) (sym same) s)),
      ),
    )

-- For a bucket whose lifecycle table ascends by address, with fewer than 2^32 observations of each
-- account and ascending trace ordinals: the canonical generations are those that the resolution
-- finds, unchanged and in the same order. The report has all its flags if and only if in every
-- account's observations each destruction directly follows a creation.
pub process_bucket-report :
    (pre_states : BTreeMap Address Bool) (bucket : ReducedTransactionBucket)
    → IsSorted bucket.lifecycle_table
    → HasAccountTraces bucket.lifecycle_table
    → ((process_bucket pre_states bucket).value.generations
        ≡ map canonical_generation (resolve bucket.lifecycle_table pre_states).value.generations)
      × ((all_hold (process_bucket pre_states bucket).invariant_report ≡ true)
          ↔ All (λ e. IsAlternating e.1) bucket.lifecycle_table)
unfolding process_bucket
process_bucket-report pre_states bucket s h =
    let table = bucket.lifecycle_table in
    let found = resolve-lives pre_states table in
    let (same, flags) =
      canonicalize-ascending _
        (map canonical_generation (resolve table pre_states).value.generations)
        (subst (λ t. IsAscending t) (sym found) (table_lives-IsAscending table s h)) in
    let alternating = table_lives-IsSpaced table s h in
    (
      same,
      (
        λ r. alternating.0 (subst (λ t. IsSpaced t) found (flags.0 r)),
        λ r. flags.1 (subst (λ t. IsSpaced t) (sym found) (alternating.1 r)),
      ),
    )

-- The result is valid if and only if its report has all its flags and the resolution raised no error.
pub process_bucket-is_valid :
    (pre_states : BTreeMap Address Bool) (bucket : ReducedTransactionBucket)
    → (is_valid (process_bucket pre_states bucket) ≡ true) ↔ (
        (all_hold (process_bucket pre_states bucket).invariant_report ≡ true)
        × (has_error (resolve bucket.lifecycle_table pre_states).diagnostics ≡ false))
unfolding process_bucket
process_bucket-is_valid pre_states bucket =
    let found = resolve bucket.lifecycle_table pre_states in
    let ps = map canonical_pre_state found.value.pre_states in
    let gs = map canonical_generation found.value.generations in
    ground (
      arith,
      has_error-append (canonicalize ps gs []).diagnostics found.diagnostics,
      has_error-canonicalize ps gs [],
    )
