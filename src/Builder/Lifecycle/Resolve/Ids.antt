-- ===== src/Builder/Lifecycle/Resolve/Ids.antt =====
-- The generations that an account's observations give.
use kaysentinel.Base.{
  ℕ, suc, ◌+◌, ◌<◌, ◌≤◌, ◌≡◌, refl, ap, ◌∙◌, subst, Bool, true, false, Option, none, some, List, [],
  ◌∷◌, ◌++◌, append_assoc, map, length, length-append, arith, if◌then◌else◌,
}
use kaysentinel.Cse.{Address, u32_mod}
use kaysentinel.Builder.Ir.{
  TraceProvenance, CseLifecyclePayload, created, destroyed, ObservedLifecycle,
}
use kaysentinel.Builder.Lifecycle.Resolve.{
  Diagnostic, GenerationRelation, Walk, observe_payload, observe_all, close_walk, begin_walk,
}

-- The ids count up from `n`.
abbrev pub HasIdsFrom : ℕ → List GenerationRelation → Type 0
HasIdsFrom n [] = Unit
HasIdsFrom n (g ∷ gs) = (g.generation_id ≡ n) × HasIdsFrom (suc n) gs

-- The ends that the observations ask for: every destruction ends a generation; one is left open if
-- the last observation is no destruction.
abbrev pub ends_after :
    Bool → List (CseLifecyclePayload × TraceProvenance) → List (Option TraceProvenance)
ends_after is_open [] = if is_open then none ∷ [] else []
ends_after is_open ((created p, at) ∷ os) = ends_after true os
ends_after is_open ((destroyed p, at) ∷ os) = some at ∷ ends_after false os

abbrev pub seen_in : List ObservedLifecycle → List (CseLifecyclePayload × TraceProvenance)
seen_in os = map (λ o. (o.payload, o.trace_provenance)) os

abbrev pub ends_of : List GenerationRelation → List (Option TraceProvenance)
ends_of gs = map (λ g. g.end) gs

ends_of-append : (xs ys : List GenerationRelation) → ends_of (xs ++ ys) ≡ ends_of xs ++ ends_of ys
ends_of-append [] ys = refl
ends_of-append (x ∷ xs) ys = ap (λ t. x.end ∷ t) (ends_of-append xs ys)

HasIdsFrom-append :
    (n : ℕ) (xs ys : List GenerationRelation)
    → HasIdsFrom n xs
    → HasIdsFrom (n + length xs) ys
    → HasIdsFrom n (xs ++ ys)
HasIdsFrom-append n [] ys h k = subst (λ m. HasIdsFrom m ys) (omega arith) k
HasIdsFrom-append n (x ∷ xs) ys h k =
    (h.0, HasIdsFrom-append (suc n) xs ys h.1 (subst (λ m. HasIdsFrom m ys) (omega arith) k))

-- The id of the next generation is the number of those that are there.
record IsNumbered (w : Walk) : Type 0 where
  ids : HasIdsFrom 0 w.generations
  next : w.current_gen_id ≡ length w.generations

module _ (address : Address) (existed : Bool) where
  -- One observation moves the end that it gives from the list still asked for to the one at hand.
  ends_step :
      (p : CseLifecyclePayload) (at : TraceProvenance)
      (os : List (CseLifecyclePayload × TraceProvenance)) (w : Walk)
      → ends_of (observe_payload address existed p at w).generations
          ++ ends_after (observe_payload address existed p at w).gen_open os
        ≡ ends_of w.generations ++ ends_after w.gen_open ((p, at) ∷ os)
  unfolding observe_payload
  ends_step (created p) at os w = refl
  ends_step (destroyed p) at os w =
      ap (λ t. t ++ ends_after false os) (ends_of-append w.generations _)
      ∙ append_assoc (ends_of w.generations) (some at ∷ []) (ends_after false os)

  ends_of-close :
      (os : List ObservedLifecycle) (w : Walk)
      → ends_of (close_walk address existed (observe_all address existed os w))
        ≡ ends_of w.generations ++ ends_after w.gen_open (seen_in os)
  unfolding observe_all close_walk
  ends_of-close [] w =
      ends_of-append w.generations _ ∙ ap (λ t. ends_of w.generations ++ t) (last_end w w.gen_open)
    where
      last_end :
          (w : Walk) (is_open : Bool)
          → ends_of (
              if is_open
              then record {
                address = address;
                generation_id = w.current_gen_id;
                begin = w.begin;
                end = none;
              }
                ∷ []
              else [])
            ≡ (if is_open then none ∷ [] else [])
      last_end w true = refl
      last_end w false = refl
  ends_of-close (o ∷ os) w =
      ends_of-close os (observe_payload address existed o.payload o.trace_provenance w)
      ∙ ends_step o.payload o.trace_provenance (seen_in os) w

  payload-IsNumbered :
      (p : CseLifecyclePayload) (at : TraceProvenance) (w : Walk)
      → length w.generations + 1 < u32_mod
      → IsNumbered w
      → IsNumbered (observe_payload address existed p at w)
        × (length (observe_payload address existed p at w).generations ≤ length w.generations + 1)
  unfolding observe_payload
  payload-IsNumbered (created p) at w b v = (record { ids = v.ids; next = v.next }, omega arith)
  payload-IsNumbered (destroyed p) at w b v =
      let g : GenerationRelation = record {
        address = address;
        generation_id = w.current_gen_id;
        begin = w.begin;
        end = some at;
      } in
      let longer = length-append w.generations (g ∷ []) in
      (
        record {
          ids = HasIdsFrom-append 0 w.generations (g ∷ []) v.ids (omega (arith, v.next), tt);
          next = omega (arith, v.next, b, longer);
        },
        omega (arith, longer),
      )

  close-HasIdsFrom :
      (os : List ObservedLifecycle) (w : Walk)
      → length w.generations + length os < u32_mod
      → IsNumbered w
      → HasIdsFrom 0 (close_walk address existed (observe_all address existed os w))
  unfolding observe_all close_walk
  close-HasIdsFrom [] w b v = HasIdsFrom-append 0 w.generations _ v.ids (last_id w.gen_open)
    where
      last_id :
          (is_open : Bool)
          → HasIdsFrom (0 + length w.generations) (
              if is_open
              then record {
                address = address;
                generation_id = w.current_gen_id;
                begin = w.begin;
                end = none;
              }
                ∷ []
              else [])
      last_id true = (omega (arith, v.next), tt)
      last_id false = tt
  close-HasIdsFrom (o ∷ os) w b v =
      let (n, l) = payload-IsNumbered o.payload o.trace_provenance w (omega arith) v in
      close-HasIdsFrom os (observe_payload address existed o.payload o.trace_provenance w)
        (omega (arith, l)) n

  -- The generations that fewer than 2^32 observations of an account give are numbered from 0 on
  -- without a gap. Their ends are the places of the destructions in order, and one more generation
  -- has no end if the last observation is no destruction.
  pub observe_all-HasIdsFrom :
      (os : List ObservedLifecycle) (ds : List Diagnostic)
      → length os < u32_mod
      → HasIdsFrom 0
          (close_walk address existed (observe_all address existed os (begin_walk os ds)))
        × (ends_of (close_walk address existed (observe_all address existed os (begin_walk os ds)))
            ≡ ends_after true (seen_in os))
  observe_all-HasIdsFrom os ds b = (
    close-HasIdsFrom os (begin_walk os ds) (omega arith) (record { ids = tt; next = refl }),
    ends_of-close os (begin_walk os ds),
  )
