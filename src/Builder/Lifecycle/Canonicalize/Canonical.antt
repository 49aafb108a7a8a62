-- ===== src/Builder/Lifecycle/Canonicalize/Canonical.antt =====
-- The report against what a canonical schema is.
use kaysentinel.Base.{
  ◌≡◌, ◌≢◌, ◌↔◌, refl, sym, ◌∙◌, Bool, true, false, List, [], ◌∷◌, All, All-imp, arith,
}
use kaysentinel.Base.Classes.{bytes_eq}
use kaysentinel.Builder.Lifecycle.Keys.{
  GenerationKey, generation_key_eq, CanonicalGeneration, CanonicalBalance, CanonicalSemanticIr,
}
use kaysentinel.Builder.Lifecycle.Canonicalize.{
  set_contains, check_generations, check_balances, clean, verify_global_schema,
}
use kaysentinel.Builder.Lifecycle.Canonicalize.Report.{
  check_generations_iff, Fresh, all_hold, EndsAfter, has_key, contains-check_generations,
  check_windows_iff, check_balances_iff, HasDistinctKeys, HasOrderedPairs,
}

-- Keys that are new to those before them are different from each other, and conversely.
Fresh-iff :
    (seen : List GenerationKey) (gs : List CanonicalGeneration)
    → Fresh seen gs ↔ (
        All (λ g. set_contains g.key seen ≡ false) gs
        × HasDistinctKeys gs
        × All (λ g. EndsAfter g.begin g.end) gs)
unfolding set_contains
Fresh-iff seen [] = (λ h. (tt, tt, tt), λ h. tt)
Fresh-iff seen (g ∷ gs) =
    let ih = Fresh-iff (g.key ∷ seen) gs in
    (
      λ h.
          let (new, distinct, ends) = ih.0 h.2 in
          (
            (h.0, All-imp (older seen g) gs new),
            (All-imp (different seen g) gs new, distinct),
            (h.1, ends),
          ),
      λ h. (h.0.0, h.2.0, ih.1 (newer seen g gs h.0.1 h.1.0, h.1.1, h.2.1)),
    )
  where
    older :
        (seen : List GenerationKey) (g h : CanonicalGeneration)
        → set_contains h.key (g.key ∷ seen) ≡ false
        → set_contains h.key seen ≡ false
    older seen g h e = ground arith

    different :
        (seen : List GenerationKey) (g h : CanonicalGeneration)
        → set_contains h.key (g.key ∷ seen) ≡ false
        → h.key ≢ g.key
    different seen g h e = ground (arith, generation_key_eq.beq_iff h.key g.key)

    newer :
        (seen : List GenerationKey) (g : CanonicalGeneration) (gs : List CanonicalGeneration)
        → All (λ h. set_contains h.key seen ≡ false) gs
        → All (λ h. h.key ≢ g.key) gs
        → All (λ h. set_contains h.key (g.key ∷ seen) ≡ false) gs
    newer seen g [] a b = tt
    newer seen g (h ∷ gs) a b =
        (ground (arith, a.0, b.0, generation_key_eq.beq_iff h.key g.key), newer seen g gs a.1 b.1)

-- What a schema must satisfy.
pub record IsCanonical (ir : CanonicalSemanticIr) : Type 0 where
  pub distinct : HasDistinctKeys ir.generations
  pub ends : All (λ g. EndsAfter g.begin g.end) ir.generations
  pub referenced : All (λ b. has_key b.key ir.generations ≡ true) ir.balances
  pub ordered : HasOrderedPairs ir.generations

All-false : (gs : List CanonicalGeneration) → All (λ g. set_contains g.key [] ≡ false) gs
unfolding set_contains
All-false [] = tt
All-false (g ∷ gs) = (refl, All-false gs)

same_known :
    (gs : List CanonicalGeneration) (f g : CanonicalBalance → Bool) (bs : List CanonicalBalance)
    → ((b : CanonicalBalance) → f b ≡ g b)
    → All (λ b. f b ≡ true) bs
    → All (λ b. g b ≡ true) bs
same_known gs f g [] e h = tt
same_known gs f g (b ∷ bs) e h = (sym (e b) ∙ h.0, same_known gs f g bs e h.1)

-- All four flags of the report hold if and only if the schema is canonical: the keys of the
-- generations are pairwise different, every end is after its begin, every balance refers to a
-- generation that is there, and of two neighbours the second is not before the first and, of the
-- same account, begins after the first ends.
pub verify_global_schema_iff :
    (ir : CanonicalSemanticIr) → (all_hold (verify_global_schema ir).report ≡ true) ↔ IsCanonical ir
unfolding verify_global_schema set_contains
verify_global_schema_iff ir =
    let s = check_generations ir.generations clean in
    let t = check_balances ir.balances s in
    let w = check_windows_iff ir.generations t in
    let b = check_balances_iff ir.balances s in
    let g = check_generations_iff ir.generations clean in
    let f = Fresh-iff [] ir.generations in
    let known : (x : CanonicalBalance) → set_contains x.key s.seen ≡ has_key x.key ir.generations =
      λ x. ground (arith, contains-check_generations x.key ir.generations clean) in
    (
      λ h.
          let (ht, pairs) = w.0 h in
          let (hs, refs) = b.0 ht in
          let (hc, fresh) = g.0 hs in
          let (none_seen, distinct, ends) = f.0 fresh in
          record {
            distinct = distinct;
            ends = ends;
            referenced = same_known ir.generations _ _ ir.balances known refs;
            ordered = pairs;
          },
      λ c. w.1 (
        b.1 (
          g.1 (refl, f.1 (All-false ir.generations, c.distinct, c.ends)),
          same_known ir.generations _ _ ir.balances (λ x. sym (known x)) c.referenced,
        ),
        c.ordered,
      ),
    )
