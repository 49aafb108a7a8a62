-- ===== src/Builder/Lifecycle/Process/Identity.antt =====
-- What `resolve_generation_for_address` makes of an account's generations, in terms of its
-- observations.
use Prim.Native.Nat.{max}
use kaysentinel.Base.{
  ℕ, suc, ◌+◌, ◌-◌, ◌%◌, ◌<◌, ◌≡◌, refl, ap, ◌∙◌, Bool, true, false, List, [], ◌∷◌, length, Result,
  ok, err, arith, if◌then◌else◌,
}
use kaysentinel.Base.Classes.{nat_eq}
use kaysentinel.Cse.{Address, u32_mod}
use kaysentinel.Builder.Ir.{
  TraceProvenance, CseLifecyclePayload, created, destroyed, ObservedLifecycle,
}
use kaysentinel.Builder.Lifecycle.Keys.{CanonicalGeneration}
use kaysentinel.Builder.Lifecycle.Resolve.{first_provenance}
use kaysentinel.Builder.Lifecycle.Resolve.Ids.{seen_in}
use kaysentinel.Builder.Lifecycle.Certificate.{
  GenerationResolutionError, identity_absent, VerifiedGeneration, zero_word, max_generation_id,
  with_generation_id, pick_terminal, resolve_matches,
}
use kaysentinel.Builder.Lifecycle.Process.Lives.{lives_from, lives_of}
use kaysentinel.Builder.Lifecycle.Process.Ordered.{IsAccountTrace, length-seen_in}
use kaysentinel.Builder.Lifecycle.Process.Found.{lives_found}

-- Generations of `a` whose ids count up from `n`.
abbrev IsNumbered : Address → ℕ → List CanonicalGeneration → Type 0
IsNumbered a n [] = Unit
IsNumbered a n (g ∷ gs) =
    (g.key ≡ record { address = a; generation_id = n }) × IsNumbered a (suc n) gs

-- How many generations observations give: as many as destructions, and one more if the last
-- observation is no destruction.
abbrev pub lives_count : Bool → List (CseLifecyclePayload × TraceProvenance) → ℕ
lives_count is_open [] = if is_open then 1 else 0
lives_count is_open ((created p, at) ∷ os) = lives_count true os
lives_count is_open ((destroyed p, at) ∷ os) = suc (lives_count false os)

lives_count-positive : (os : List (CseLifecyclePayload × TraceProvenance)) → 0 < lives_count true os
lives_count-positive [] = omega arith
lives_count-positive ((created p, at) ∷ os) = lives_count-positive os
lives_count-positive ((destroyed p, at) ∷ os) = omega arith

skip :
    (t : ℕ) (g : CanonicalGeneration) (gs : List CanonicalGeneration)
    → ¬ (g.key.generation_id ≡ t)
    → with_generation_id t (g ∷ gs) ≡ with_generation_id t gs
unfolding with_generation_id
skip t g gs n = ground arith

module _ (a : Address) where
  lives_from-IsNumbered :
      (n : ℕ) (begin : TraceProvenance) (is_open : Bool)
      (os : List (CseLifecyclePayload × TraceProvenance))
      → n + length os < u32_mod
      → IsNumbered a n (lives_from a n begin is_open os)
        × (length (lives_from a n begin is_open os) ≡ lives_count is_open os)
  unfolding lives_from
  lives_from-IsNumbered n begin true [] b = ((refl, tt), refl)
  lives_from-IsNumbered n begin false [] b = (tt, refl)
  lives_from-IsNumbered n begin is_open ((created p, at) ∷ os) b =
      lives_from-IsNumbered n at true os (omega arith)
  lives_from-IsNumbered n begin is_open ((destroyed p, at) ∷ os) b =
      let next : (n + 1) % u32_mod ≡ suc n = omega (arith, b) in
      let ih = lives_from-IsNumbered (suc n) at false os (omega arith) in
      rw next ((refl, ih.0), ap suc ih.1)

  max-IsNumbered :
      (n : ℕ) (gs : List CanonicalGeneration)
      → IsNumbered a (suc n) gs
      → max_generation_id n gs ≡ n + length gs
  unfolding max_generation_id
  max-IsNumbered n [] h = omega arith
  max-IsNumbered n (g ∷ gs) h =
      let id : max n g.key.generation_id ≡ suc n = rw h.0 (omega arith) in
      rw id (max-IsNumbered (suc n) gs h.1 ∙ omega arith)

  -- Only the last one has the last id.
  last-IsNumbered :
      (t n : ℕ) (g : CanonicalGeneration) (gs : List CanonicalGeneration)
      → t ≡ n + length gs
      → IsNumbered a n (g ∷ gs)
      → (h : CanonicalGeneration) × (h.key ≡ record { address = a; generation_id = t })
        × (with_generation_id t (g ∷ gs) ≡ h ∷ [])
  unfolding with_generation_id
  last-IsNumbered t n g [] e h =
      let id : g.key.generation_id ≡ t = ap (λ k. k.generation_id) h.0 ∙ omega arith in
      (
        g,
        h.0 ∙ ap (λ i. record { address = a; generation_id = i }) (omega arith),
        ground (arith, id),
      )
  last-IsNumbered t n g (x ∷ gs) e h =
      let id : g.key.generation_id ≡ n = ap (λ k. k.generation_id) h.0 in
      let (y, key, found) = last-IsNumbered t (suc n) x gs (omega arith) h.1 in
      (y, key, skip t g (x ∷ gs) (λ q. omega (arith, id, q, e)) ∙ found)

  matches-IsNumbered :
      (g : CanonicalGeneration) (gs : List CanonicalGeneration)
      → IsNumbered a 0 (g ∷ gs)
      → resolve_matches a (g ∷ gs)
        ≡ ok (record {
          key = record { address = a; generation_id = length gs };
          state_table_proof_root = zero_word;
        })
  unfolding resolve_matches pick_terminal
  matches-IsNumbered g gs h =
      let id : g.key.generation_id ≡ 0 = ap (λ k. k.generation_id) h.0 in
      let (y, key, found) = last-IsNumbered (length gs) 0 g gs (omega arith) h in
      let top : max_generation_id g.key.generation_id gs ≡ length gs =
        ap (λ i. max_generation_id i gs) id ∙ max-IsNumbered 0 gs h.1 ∙ omega arith in
      rw (top, found) (ap (λ k. ok (record { key = k; state_table_proof_root = zero_word })) key)

-- What an account with these observations resolves to: the last of its generations.
abbrev pub identity_of :
    Address → List ObservedLifecycle → Result GenerationResolutionError VerifiedGeneration
identity_of a [] = err (identity_absent a)
identity_of a (o ∷ os) = ok (record {
  key = record { address = a; generation_id = lives_count true (seen_in (o ∷ os)) - 1 };
  state_table_proof_root = zero_word;
})

pub resolve_matches-lives_found :
    (a : Address) (os : List ObservedLifecycle)
    → IsAccountTrace os
    → resolve_matches a (lives_found a os) ≡ identity_of a os
unfolding resolve_matches
resolve_matches-lives_found a [] h = refl
resolve_matches-lives_found a (o ∷ os) h =
    let (numbered, count) =
      lives_from-IsNumbered a 0 (first_provenance (o ∷ os)) true (seen_in (o ∷ os))
        (omega (arith, h.0, length-seen_in os)) in
    matched (lives_of a (o ∷ os)) numbered count
  where
    matched :
        (gs : List CanonicalGeneration)
        → IsNumbered a 0 gs
        → length gs ≡ lives_count true (seen_in (o ∷ os))
        → resolve_matches a gs ≡ identity_of a (o ∷ os)
    matched [] n c = absurd (omega (arith, c, lives_count-positive (seen_in (o ∷ os))))
    matched (g ∷ gs) n c =
        matches-IsNumbered a g gs n
        ∙ ap
            (λ i. ok (record {
              key = record { address = a; generation_id = i };
              state_table_proof_root = zero_word;
            }))
            (omega (arith, c))
