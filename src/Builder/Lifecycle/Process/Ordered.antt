-- ===== src/Builder/Lifecycle/Process/Ordered.antt =====
-- The order of the generations that `resolve` finds, and what the sorting and the deduplication of
-- lifecycle/canonicalize.rs do to it.
use Prim.Native.Nat.Ordering.{lt, gt}
use kaysentinel.Base.{
  ℕ, suc, ◌+◌, ◌%◌, ◌<◌, ◌≤◌, ◌≡◌, ◌≢◌, refl, ap, sym, ◌∙◌, Bool, true, false, List, [], ◌∷◌, ◌++◌,
  length, All, All-imp, All-append, inl, inr, ◌⊎◌, arith,
}
use kaysentinel.Base.Classes.{bytes_eq, bytes_ord, bytes_cmp, bytes_cmp_refl}
use kaysentinel.Base.BTreeMap.{BTreeMap, IsSorted}
use kaysentinel.Cse.{Address, u32_mod}
use kaysentinel.Builder.Ir.{
  TraceProvenance, CseLifecyclePayload, created, destroyed, ObservedLifecycle,
}
use kaysentinel.Builder.Lifecycle.Keys.{generation_key_eq, CanonicalGeneration}
use kaysentinel.Builder.Lifecycle.Resolve.{first_provenance}
use kaysentinel.Builder.Lifecycle.Resolve.Ids.{seen_in}
use kaysentinel.Builder.Lifecycle.Canonicalize.{
  insert_sorted, sort_by, dedup_after, dedup_by_key, generation_order,
}
use kaysentinel.Builder.Lifecycle.Canonicalize.Report.{HasDistinctKeys}
use kaysentinel.Builder.Lifecycle.Process.Lives.{lives_from, lives_of, table_lives}

-- Of a smaller address, or an earlier generation of the same account.
abbrev pub Precedes : CanonicalGeneration → CanonicalGeneration → Type 0
Precedes g h =
    (bytes_cmp g.key.address h.key.address ≡ lt)
    ⊎ ((g.key.address ≡ h.key.address)
        × (g.key.generation_id < h.key.generation_id)
        × (g.begin.trace_ordinal ≤ h.begin.trace_ordinal))

abbrev pub IsAscending : List CanonicalGeneration → Type 0
IsAscending [] = Unit
IsAscending (g ∷ gs) = All (λ h. Precedes g h) gs × IsAscending gs

pub Precedes-order : (g h : CanonicalGeneration) → Precedes g h → generation_order g h ≢ gt
unfolding generation_order
Precedes-order g h (inl l) = ground (arith, l)
Precedes-order g h (inr (e, i, b)) = rw (e, bytes_cmp_refl h.key.address) (ground (arith, i, b))

Precedes-key : (g h : CanonicalGeneration) → Precedes g h → h.key ≢ g.key
Precedes-key g h (inl l) = λ e. ground (arith, l, bytes_cmp_refl g.key.address, e)
Precedes-key g h (inr (e, i, b)) = λ q. omega (arith, i, ap (λ k. k.generation_id) q)

pub IsAscending-keys : (gs : List CanonicalGeneration) → IsAscending gs → HasDistinctKeys gs
IsAscending-keys [] h = tt
IsAscending-keys (g ∷ gs) h = (All-imp (Precedes-key g) gs h.0, IsAscending-keys gs h.1)

insert_sorted-front :
    (g : CanonicalGeneration) (gs : List CanonicalGeneration)
    → All (λ h. Precedes g h) gs
    → insert_sorted generation_order g gs ≡ g ∷ gs
unfolding insert_sorted
insert_sorted-front g [] h = refl
insert_sorted-front g (x ∷ gs) h = ground (arith, Precedes-order g x h.0)

pub sort_by-ascending :
    (gs : List CanonicalGeneration) → IsAscending gs → sort_by generation_order gs ≡ gs
unfolding sort_by
sort_by-ascending [] h = refl
sort_by-ascending (g ∷ gs) h =
    ap (λ t. insert_sorted generation_order g t) (sort_by-ascending gs h.1)
    ∙ insert_sorted-front g gs h.0

dedup_after-ascending :
    (g : CanonicalGeneration) (gs : List CanonicalGeneration)
    → IsAscending (g ∷ gs)
    → dedup_after (λ x. x.key) g gs ≡ gs
unfolding dedup_after
dedup_after-ascending g [] h = refl
dedup_after-ascending g (x ∷ gs) h = ground (
  arith,
  Precedes-key g x h.0.0,
  generation_key_eq.beq_iff x.key g.key,
  dedup_after-ascending x gs h.1,
)

pub dedup_by_key-ascending :
    (gs : List CanonicalGeneration) → IsAscending gs → dedup_by_key (λ x. x.key) gs ≡ gs
unfolding dedup_by_key
dedup_by_key-ascending [] h = refl
dedup_by_key-ascending (g ∷ gs) h = ap (λ t. g ∷ t) (dedup_after-ascending g gs h)

-- The trace ordinals ascend, from `lo` on.
abbrev pub AscendsFrom : ℕ → List (CseLifecyclePayload × TraceProvenance) → Type 0
AscendsFrom lo [] = Unit
AscendsFrom lo ((p, at) ∷ os) = (lo ≤ at.trace_ordinal) × AscendsFrom (suc at.trace_ordinal) os

pub AscendsFrom-weaken :
    (lo hi : ℕ) (os : List (CseLifecyclePayload × TraceProvenance))
    → lo ≤ hi
    → AscendsFrom hi os
    → AscendsFrom lo os
AscendsFrom-weaken lo hi [] l h = tt
AscendsFrom-weaken lo hi (o ∷ os) l h = (omega (arith, h.0), h.1)

-- A generation of `a` with at least this id and begin.
abbrev pub StartsFrom : Address → ℕ → ℕ → CanonicalGeneration → Type 0
StartsFrom a n lo g = (g.key.address ≡ a) × (n ≤ g.key.generation_id) × (lo ≤ g.begin.trace_ordinal)

module _ (a : Address) where
  pub lives_from-StartsFrom :
      (n : ℕ) (begin : TraceProvenance) (is_open : Bool)
      (os : List (CseLifecyclePayload × TraceProvenance))
      → n + length os < u32_mod
      → AscendsFrom begin.trace_ordinal os
      → All (StartsFrom a n begin.trace_ordinal) (lives_from a n begin is_open os)
  unfolding lives_from
  lives_from-StartsFrom n begin true [] b h = ((refl, omega arith, omega arith), tt)
  lives_from-StartsFrom n begin false [] b h = tt
  lives_from-StartsFrom n begin is_open ((created p, at) ∷ os) b h =
      All-imp (λ g s. (s.0, s.1, omega (arith, h.0, s.2))) _
        (lives_from-StartsFrom n at true os (omega arith)
          (AscendsFrom-weaken _ _ os (omega arith) h.1))
  lives_from-StartsFrom n begin is_open ((destroyed p, at) ∷ os) b h = (
    (refl, omega arith, omega arith),
    All-imp (λ g s. (s.0, omega (arith, b, s.1), omega (arith, h.0, s.2))) _
        (lives_from-StartsFrom ((n + 1) % u32_mod) at false os (omega (arith, b))
          (AscendsFrom-weaken _ _ os (omega arith) h.1)),
  )

  lives_from-IsAscending :
      (n : ℕ) (begin : TraceProvenance) (is_open : Bool)
      (os : List (CseLifecyclePayload × TraceProvenance))
      → n + length os < u32_mod
      → AscendsFrom begin.trace_ordinal os
      → IsAscending (lives_from a n begin is_open os)
  unfolding lives_from
  lives_from-IsAscending n begin true [] b h = (tt, tt)
  lives_from-IsAscending n begin false [] b h = tt
  lives_from-IsAscending n begin is_open ((created p, at) ∷ os) b h =
      lives_from-IsAscending n at true os (omega arith)
        (AscendsFrom-weaken _ _ os (omega arith) h.1)
  lives_from-IsAscending n begin is_open ((destroyed p, at) ∷ os) b h =
      let later = AscendsFrom-weaken at.trace_ordinal _ os (omega arith) h.1 in
      (
        All-imp (λ g s. inr (sym s.0, omega (arith, b, s.1), omega (arith, h.0, s.2))) _
            (lives_from-StartsFrom ((n + 1) % u32_mod) at false os (omega (arith, b)) later),
        lives_from-IsAscending ((n + 1) % u32_mod) at false os (omega (arith, b)) later,
      )

-- Fewer than 2^32 observations, and ascending.
abbrev pub IsAccountTrace : List ObservedLifecycle → Type 0
IsAccountTrace os = (length os < u32_mod) × AscendsFrom 0 (seen_in os)

abbrev pub HasAccountTraces : BTreeMap Address (List ObservedLifecycle) → Type 0
HasAccountTraces table = All (λ e. IsAccountTrace e.1) table

pub length-seen_in : (os : List ObservedLifecycle) → length (seen_in os) ≡ length os
length-seen_in [] = refl
length-seen_in (o ∷ os) = ap suc (length-seen_in os)

pub AscendsFrom-first :
    (os : List ObservedLifecycle)
    → AscendsFrom 0 (seen_in os)
    → AscendsFrom (first_provenance os).trace_ordinal (seen_in os)
AscendsFrom-first [] h = tt
AscendsFrom-first (o ∷ os) h = (omega arith, h.1)

pub lives_of-Of :
    (a : Address) (os : List ObservedLifecycle)
    → IsAccountTrace os
    → All (λ g. g.key.address ≡ a) (lives_of a os)
lives_of-Of a os h =
    All-imp (λ g s. s.0) _
      (lives_from-StartsFrom a 0 (first_provenance os) true (seen_in os)
        (omega (arith, h.0, length-seen_in os)) (AscendsFrom-first os h.1))

lives_of-IsAscending :
    (a : Address) (os : List ObservedLifecycle) → IsAccountTrace os → IsAscending (lives_of a os)
lives_of-IsAscending a os h =
    lives_from-IsAscending a 0 (first_provenance os) true (seen_in os)
      (omega (arith, h.0, length-seen_in os)) (AscendsFrom-first os h.1)

IsAscending-append :
    (a : Address) (xs ys : List CanonicalGeneration)
    → IsAscending xs
    → IsAscending ys
    → All (λ g. g.key.address ≡ a) xs
    → All (λ g. bytes_cmp a g.key.address ≡ lt) ys
    → IsAscending (xs ++ ys)
IsAscending-append a [] ys h k p q = k
IsAscending-append a (x ∷ xs) ys h k p q = (
  All-append (λ g. Precedes x g) xs ys h.0
      (All-imp (λ g l. inl (ap (λ t. bytes_cmp t g.key.address) p.0 ∙ l)) ys q),
  IsAscending-append a xs ys h.1 k p.1 q,
)

-- Every generation of a table is of one of its accounts.
pub table_lives-above :
    (a : Address) (table : BTreeMap Address (List ObservedLifecycle))
    → All (λ e. bytes_cmp a e.0 ≡ lt) table
    → HasAccountTraces table
    → All (λ g. bytes_cmp a g.key.address ≡ lt) (table_lives table)
unfolding table_lives
table_lives-above a [] h k = tt
table_lives-above a ((b, os) ∷ table) h k =
    All-append (λ g. bytes_cmp a g.key.address ≡ lt) (lives_of b os) (table_lives table)
      (All-imp (λ g e. ap (λ t. bytes_cmp a t) e ∙ h.0) (lives_of b os) (lives_of-Of b os k.0))
      (table_lives-above a table h.1 k.1)

pub table_lives-IsAscending :
    (table : BTreeMap Address (List ObservedLifecycle))
    → IsSorted table
    → HasAccountTraces table
    → IsAscending (table_lives table)
unfolding table_lives
table_lives-IsAscending [] s h = tt
table_lives-IsAscending ((a, os) ∷ table) s h =
    IsAscending-append a (lives_of a os) (table_lives table) (lives_of-IsAscending a os h.0)
      (table_lives-IsAscending table s.1 h.1) (lives_of-Of a os h.0)
      (table_lives-above a table s.0 h.1)
