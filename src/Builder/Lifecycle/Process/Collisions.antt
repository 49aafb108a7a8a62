-- ===== src/Builder/Lifecycle/Process/Collisions.antt =====
-- The errors that `resolve` (lifecycle/resolve.rs) raises: `Collision`.
use kaysentinel.Base.{
  ◌+◌, ◌%◌, ◌<◌, ◌≤◌, ◌≡◌, ◌↔◌, refl, ap, sym, ◌∙◌, Bool, true, false, ◌&&◌, ◌||◌, List, [], ◌∷◌,
  append-nil, length, All, arith, if◌then◌else◌, Bool-cases, inl, inr,
}
use kaysentinel.Base.Classes.{◌==◌, nat_eq, bytes_ord}
use kaysentinel.Base.BTreeMap.{BTreeMap, get, unwrap_or}
use kaysentinel.Cse.{Address, u32_mod}
use kaysentinel.Builder.Ir.{
  TraceProvenance, CseLifecyclePayload, created, destroyed, ObservedLifecycle,
}
use kaysentinel.Builder.Lifecycle.Resolve.{
  collision, Diagnostic, has_error, SemanticIr, Walk, observe_payload, observe_all, begin_walk,
  resolve_accounts, resolve,
}
use kaysentinel.Builder.Lifecycle.Canonicalize.Diagnosed.{raised}
use kaysentinel.Builder.Lifecycle.Process.Ordered.{HasAccountTraces}

abbrev pub is_creation : CseLifecyclePayload → Bool
is_creation (created p) = true
is_creation (destroyed p) = false

-- Whether a creation comes first.
abbrev pub created_first : List ObservedLifecycle → Bool
created_first [] = false
created_first (o ∷ os) = is_creation o.payload

-- Whether the account existed before the transaction; one that is not listed did not.
abbrev pub existed_before : BTreeMap Address Bool → Address → Bool
existed_before pre_states a = unwrap_or false (get a pre_states)

module _ (a : Address) (existed : Bool) where
  -- In generation 0, a creation collides with the account that existed before.
  abbrev collides : Walk → Bool
  collides w = if w.current_gen_id == 0 then existed else false

  payload-errors :
      (p : CseLifecyclePayload) (at : TraceProvenance) (os : List ObservedLifecycle) (w : Walk)
      → w.current_gen_id + 1 < u32_mod
      → (has_error (observe_payload a existed p at w).diagnostics
          || (collides (observe_payload a existed p at w) && created_first os))
        ≡ (has_error w.diagnostics || (collides w && is_creation p))
  unfolding observe_payload
  payload-errors (created p) at os w b = elim (Bool-cases (collides w)) [
    | inl now ↦ rw now (ground (arith, raised at (collision a w.current_gen_id) w.diagnostics))
    | inr never ↦ rw never (ground (arith, append-nil w.diagnostics))
  ]
  payload-errors (destroyed p) at os w b =
      let later : ((w.current_gen_id + 1) % u32_mod == 0) ≡ false = ground (arith, b) in
      rw later (ground (arith, append-nil w.diagnostics))

  payload-id :
      (p : CseLifecyclePayload) (at : TraceProvenance) (w : Walk)
      → (observe_payload a existed p at w).current_gen_id ≤ w.current_gen_id + 1
  unfolding observe_payload
  payload-id (created p) at w = omega arith
  payload-id (destroyed p) at w = omega arith

  observe_all-errors :
      (os : List ObservedLifecycle) (w : Walk)
      → w.current_gen_id + length os < u32_mod
      → has_error (observe_all a existed os w).diagnostics
        ≡ (has_error w.diagnostics || (collides w && created_first os))
  unfolding observe_all
  observe_all-errors [] w b = ground arith
  observe_all-errors (o ∷ os) w b =
      observe_all-errors os (observe_payload a existed o.payload o.trace_provenance w)
        (omega (arith, b, payload-id o.payload o.trace_provenance w))
      ∙ payload-errors o.payload o.trace_provenance os w (omega (arith, b))

-- Whether some account of the table existed before and is created first.
abbrev any_collision : BTreeMap Address Bool → BTreeMap Address (List ObservedLifecycle) → Bool
any_collision pre_states [] = false
any_collision pre_states ((a, os) ∷ table) =
    (existed_before pre_states a && created_first os) || any_collision pre_states table

module _ (pre_states : BTreeMap Address Bool) where
  accounts-errors :
      (table : BTreeMap Address (List ObservedLifecycle)) (ir : SemanticIr) (ds : List Diagnostic)
      → HasAccountTraces table
      → has_error (resolve_accounts pre_states table ir ds).1
        ≡ (has_error ds || any_collision pre_states table)
  unfolding resolve_accounts
  accounts-errors [] ir ds h = ground arith
  accounts-errors ((a, os) ∷ table) ir ds h =
      accounts-errors table _ _ h.1
      ∙ ap (λ b. b || any_collision pre_states table)
          (observe_all-errors a (existed_before pre_states a) os (begin_walk os ds)
            (omega (arith, h.0.0)))
      ∙ ground arith

  no_collision_iff :
      (table : BTreeMap Address (List ObservedLifecycle))
      → (any_collision pre_states table ≡ false)
        ↔ All (λ e. existed_before pre_states e.0 ≡ true → created_first e.1 ≡ false) table
  no_collision_iff [] = (λ h. tt, λ h. refl)
  no_collision_iff ((a, os) ∷ table) = ground (arith, no_collision_iff table)

  -- The resolution raises no error if and only if no account that existed before is created first.
  pub resolve-no_error :
      (table : BTreeMap Address (List ObservedLifecycle))
      → HasAccountTraces table
      → (has_error (resolve table pre_states).diagnostics ≡ false)
        ↔ All (λ e. existed_before pre_states e.0 ≡ true → created_first e.1 ≡ false) table
  unfolding resolve
  resolve-no_error table h =
      let e = accounts-errors table _ [] h in
      let n = no_collision_iff table in (λ q. n.0 (sym e ∙ q), λ q. e ∙ n.1 q)
