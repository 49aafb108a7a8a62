-- ===== src/Builder/Lifecycle/Canonicalize/Diagnosed.antt =====
-- The diagnostics of the schema check (lifecycle/canonicalize.rs) against the flags of its report.
use kaysentinel.Base.{
  ◌≡◌, refl, ◌∙◌, Bool, true, false, not, ◌||◌, inl, inr, Option, none, some, List, [], ◌∷◌, ◌++◌,
  arith, leb, if◌then◌else◌,
}
use kaysentinel.Base.Classes.{◌==◌, bytes_eq, Ordering-cases}
use kaysentinel.Builder.Ir.{TraceProvenance}
use kaysentinel.Builder.Lifecycle.Keys.{
  CanonicalPreState, CanonicalGeneration, CanonicalBalance, CanonicalSemanticIr,
}
use kaysentinel.Builder.Lifecycle.Resolve.{
  Diagnostic, has_error, LifecycleViolation, duplicate_key, integrity_breach, interval_invalid,
  overlap_detected, ordering_breach,
}
use kaysentinel.Builder.Lifecycle.Canonicalize.{
  Schema, clean, report_error, set_contains, check_key, check_interval, check_generations,
  check_balances, check_order, check_overlap, check_window, check_windows, verify_global_schema,
  canonicalize, generation_order,
}
use kaysentinel.Builder.Lifecycle.Canonicalize.Report.{all_hold}

pub has_error-append :
    (ds es : List Diagnostic) → has_error (ds ++ es) ≡ (has_error ds || has_error es)
has_error-append [] es = refl
has_error-append (d ∷ ds) es = ground (arith, has_error-append ds es)

-- There is an error exactly if a flag is cleared.
abbrev IsDiagnosed : Schema → Type 0
IsDiagnosed s = has_error s.diagnostics ≡ not (all_hold s.report)

pub raised :
    (at : TraceProvenance) (v : LifecycleViolation) (ds : List Diagnostic)
    → has_error (report_error at v ds) ≡ true
raised at v [] = refl
raised at v (d ∷ ds) = ground (arith, raised at v ds)

either :
    (b : Bool) (t s : Schema) → IsDiagnosed t → IsDiagnosed s → IsDiagnosed (if b then t else s)
either true t s h k = h
either false t s h k = k

key-IsDiagnosed :
    (g : CanonicalGeneration) (s : Schema) → IsDiagnosed s → IsDiagnosed (check_key g s)
unfolding check_key
key-IsDiagnosed g s h =
    either (set_contains g.key s.seen) _ _ (raised g.begin (duplicate_key g.key) s.diagnostics) h

interval-IsDiagnosed :
    (g : CanonicalGeneration) (e : Option TraceProvenance) (s : Schema)
    → IsDiagnosed s
    → IsDiagnosed (check_interval g e s)
unfolding check_interval
interval-IsDiagnosed g none s h = h
interval-IsDiagnosed g (some e) s h =
    either (leb e.trace_ordinal g.begin.trace_ordinal) _ _
      (raised g.begin (interval_invalid g.key) s.diagnostics ∙ ground arith) h

generations-IsDiagnosed :
    (gs : List CanonicalGeneration) (s : Schema)
    → IsDiagnosed s
    → IsDiagnosed (check_generations gs s)
unfolding check_generations
generations-IsDiagnosed [] s h = h
generations-IsDiagnosed (g ∷ gs) s h =
    generations-IsDiagnosed gs (check_interval g g.end (check_key g s))
      (interval-IsDiagnosed g g.end (check_key g s) (key-IsDiagnosed g s h))

balances-IsDiagnosed :
    (bs : List CanonicalBalance) (s : Schema) → IsDiagnosed s → IsDiagnosed (check_balances bs s)
unfolding check_balances
balances-IsDiagnosed [] s h = h
balances-IsDiagnosed (b ∷ bs) s h = balances-IsDiagnosed bs _ (
    either (not (set_contains b.key s.seen)) _ _
      (raised b.location (integrity_breach b.key) s.diagnostics ∙ ground arith) h)

order-IsDiagnosed :
    (g1 g2 : CanonicalGeneration) (s : Schema) → IsDiagnosed s → IsDiagnosed (check_order g1 g2 s)
unfolding check_order
order-IsDiagnosed g1 g2 s h = elim (Ordering-cases (generation_order g1 g2)) [
  | inl l ↦ rw (l, check_order) h
  | inr (inl e) ↦ rw (e, check_order) h
  | inr (inr g) ↦ rw (g, check_order) (raised g2.begin ordering_breach s.diagnostics ∙ ground arith)
]

overlap-IsDiagnosed :
    (g1 g2 : CanonicalGeneration) (e : Option TraceProvenance) (s : Schema)
    → IsDiagnosed s
    → IsDiagnosed (check_overlap g1 g2 e s)
unfolding check_overlap
overlap-IsDiagnosed g1 g2 none s h = h
overlap-IsDiagnosed g1 g2 (some e) s h =
    either (leb g2.begin.trace_ordinal e.trace_ordinal) _ _
      (raised g2.begin (overlap_detected g2.key.address) s.diagnostics ∙ ground arith) h

window-IsDiagnosed :
    (g1 g2 : CanonicalGeneration) (s : Schema) → IsDiagnosed s → IsDiagnosed (check_window g1 g2 s)
unfolding check_window
window-IsDiagnosed g1 g2 s h =
    let o = order-IsDiagnosed g1 g2 s h in
    either (g1.key.address == g2.key.address) _ _
      (overlap-IsDiagnosed g1 g2 g1.end (check_order g1 g2 s) o) o

windows-IsDiagnosed :
    (gs : List CanonicalGeneration) (s : Schema) → IsDiagnosed s → IsDiagnosed (check_windows gs s)
unfolding check_windows
windows-IsDiagnosed [] s h = h
windows-IsDiagnosed (g ∷ []) s h = h
windows-IsDiagnosed (g1 ∷ g2 ∷ gs) s h =
    windows-IsDiagnosed (g2 ∷ gs) (check_window g1 g2 s) (window-IsDiagnosed g1 g2 s h)

schema-IsDiagnosed : (ir : CanonicalSemanticIr) → IsDiagnosed (verify_global_schema ir)
unfolding verify_global_schema
schema-IsDiagnosed ir =
    let s = check_generations ir.generations clean in
    let t = check_balances ir.balances s in
    windows-IsDiagnosed ir.generations t
      (balances-IsDiagnosed ir.balances s (generations-IsDiagnosed ir.generations clean refl))

-- The canonical form has an error exactly if its report lacks a flag.
pub has_error-canonicalize :
    (ps : List CanonicalPreState) (gs : List CanonicalGeneration) (bs : List CanonicalBalance)
    → has_error (canonicalize ps gs bs).diagnostics
      ≡ not (all_hold (canonicalize ps gs bs).invariant_report)
unfolding canonicalize
has_error-canonicalize ps gs bs = schema-IsDiagnosed (canonicalize ps gs bs).value
