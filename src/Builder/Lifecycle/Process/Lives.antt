-- ===== src/Builder/Lifecycle/Process/Lives.antt =====
-- The generations that `resolve` (lifecycle/resolve.rs) finds, as lists by recursion on the
-- observations.
use kaysentinel.Base.{
  ℕ, ◌+◌, ◌%◌, ◌≡◌, refl, ap, sym, ◌∙◌, Bool, true, false, Option, none, some, List, [], ◌∷◌, ◌++◌,
  append_assoc, append-nil, map, if◌then◌else◌,
}
use kaysentinel.Base.Classes.{bytes_ord}
use kaysentinel.Base.BTreeMap.{BTreeMap, get, unwrap_or}
use kaysentinel.Cse.{Address, u32_mod}
use kaysentinel.Builder.Ir.{
  TraceProvenance, CseLifecyclePayload, created, destroyed, ObservedLifecycle,
}
use kaysentinel.Builder.Lifecycle.Keys.{CanonicalGeneration}
use kaysentinel.Builder.Lifecycle.Resolve.{
  Diagnostic, GenerationRelation, SemanticIr, Walk, observe_payload, observe_all, close_walk,
  begin_walk, first_provenance, resolve_accounts, resolve,
}
use kaysentinel.Builder.Lifecycle.Resolve.Ids.{seen_in}
use kaysentinel.Builder.Lifecycle.Process.{canonical_generation}

abbrev pub life : Address → ℕ → TraceProvenance → Option TraceProvenance → CanonicalGeneration
life a n begin end = record {
  key = record { address = a; generation_id = n };
  begin = begin;
  end = end;
}

-- The generations from the one with id `n` and the given begin on.
unfoldable pub lives_from :
    Address
    → ℕ
    → TraceProvenance
    → Bool
    → List (CseLifecyclePayload × TraceProvenance)
    → List CanonicalGeneration
lives_from a n begin is_open [] = if is_open then life a n begin none ∷ [] else []
lives_from a n begin is_open ((created p, at) ∷ os) = lives_from a n at true os
lives_from a n begin is_open ((destroyed p, at) ∷ os) =
    life a n begin (some at) ∷ lives_from a ((n + 1) % u32_mod) at false os

abbrev pub lives_of : Address → List ObservedLifecycle → List CanonicalGeneration
lives_of a os = lives_from a 0 (first_provenance os) true (seen_in os)

unfoldable pub table_lives : BTreeMap Address (List ObservedLifecycle) → List CanonicalGeneration
table_lives [] = []
table_lives ((a, os) ∷ table) = lives_of a os ++ table_lives table

abbrev canonical : List GenerationRelation → List CanonicalGeneration
canonical gs = map canonical_generation gs

canonical-append :
    (xs ys : List GenerationRelation) → canonical (xs ++ ys) ≡ canonical xs ++ canonical ys
canonical-append [] ys = refl
canonical-append (x ∷ xs) ys = ap (λ t. canonical_generation x ∷ t) (canonical-append xs ys)

module _ (a : Address) (existed : Bool) where
  lives_step :
      (p : CseLifecyclePayload) (at : TraceProvenance)
      (os : List (CseLifecyclePayload × TraceProvenance)) (w : Walk)
      → let u = observe_payload a existed p at w in
        canonical u.generations ++ lives_from a u.current_gen_id u.begin u.gen_open os
        ≡ canonical w.generations ++ lives_from a w.current_gen_id w.begin w.gen_open ((p, at) ∷ os)
  unfolding observe_payload lives_from
  lives_step (created p) at os w = refl
  lives_step (destroyed p) at os w =
      ap (λ t. t ++ lives_from a ((w.current_gen_id + 1) % u32_mod) at false os)
        (canonical-append w.generations _)
      ∙ append_assoc (canonical w.generations) _ _

  walk_lives :
      (os : List ObservedLifecycle) (w : Walk)
      → canonical (close_walk a existed (observe_all a existed os w))
        ≡ canonical w.generations ++ lives_from a w.current_gen_id w.begin w.gen_open (seen_in os)
  unfolding observe_all close_walk lives_from
  walk_lives [] w =
      canonical-append w.generations _ ∙ ap (λ t. canonical w.generations ++ t) (last w w.gen_open)
    where
      last :
          (w : Walk) (is_open : Bool)
          → canonical (
              if is_open
              then record {
                address = a;
                generation_id = w.current_gen_id;
                begin = w.begin;
                end = none;
              }
                ∷ []
              else [])
            ≡ (if is_open then life a w.current_gen_id w.begin none ∷ [] else [])
      last w true = refl
      last w false = refl
  walk_lives (o ∷ os) w =
      walk_lives os (observe_payload a existed o.payload o.trace_provenance w)
      ∙ lives_step o.payload o.trace_provenance (seen_in os) w

module _ (pre_states : BTreeMap Address Bool) where
  accounts_lives :
      (table : BTreeMap Address (List ObservedLifecycle)) (ir : SemanticIr) (ds : List Diagnostic)
      → canonical (resolve_accounts pre_states table ir ds).0.generations
        ≡ canonical ir.generations ++ table_lives table
  unfolding resolve_accounts table_lives
  accounts_lives [] ir ds = sym (append-nil (canonical ir.generations))
  accounts_lives ((a, os) ∷ table) ir ds =
      let existed = unwrap_or false (get a pre_states) in
      accounts_lives table _ _
      ∙ ap (λ t. t ++ table_lives table)
          (canonical-append ir.generations _
            ∙ ap (λ t. canonical ir.generations ++ t) (walk_lives a existed os (begin_walk os ds)))
      ∙ append_assoc (canonical ir.generations) (lives_of a os) (table_lives table)

  -- The generations that the resolution of a table gives.
  pub resolve-lives :
      (table : BTreeMap Address (List ObservedLifecycle))
      → canonical (resolve table pre_states).value.generations ≡ table_lives table
  unfolding resolve
  resolve-lives table = accounts_lives table _ _
