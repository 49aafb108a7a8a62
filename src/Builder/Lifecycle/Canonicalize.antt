-- ===== src/Builder/Lifecycle/Canonicalize.antt =====
-- lifecycle/canonicalize.rs and mod.rs: sorting, deduplication and the check of the schema. A
-- `HashSet` is a list of its elements.
pub mod Order
pub mod Sorted
pub mod Report
pub mod Canonical
pub mod Diagnosed
use Prim.Native.Nat.{compare, Ordering}
use Prim.Native.Nat.Ordering.{lt, eq, gt}
use kaysentinel.Base.{
  ℕ, Bool, true, false, not, ◌||◌, Option, none, some, List, [], ◌∷◌, ◌++◌, map, leb, if◌then◌else◌,
}
use kaysentinel.Base.Classes.{◌==◌, bytes_eq, bytes_cmp, then_cmp}
use kaysentinel.Base.BTreeMap.{BTreeMap}
use kaysentinel.Cse.{Address}
use kaysentinel.Builder.Ir.{TraceProvenance, ReducedTransactionBucket, ReducedIr}
use kaysentinel.Builder.Lifecycle.Keys.{
  GenerationKey, generation_key_eq, generation_key_cmp, CanonicalPreState, CanonicalGeneration,
  CanonicalBalance, CanonicalSemanticIr,
}
use kaysentinel.Builder.Lifecycle.Resolve.{
  Severity, LifecycleViolation, duplicate_key, integrity_breach, interval_invalid, overlap_detected,
  ordering_breach, Diagnostic, InvariantReport, PassOutput, SemanticIr, resolve,
}

module _ {T : Type 0} where
  -- `sort_by`, a stable sort
  unfoldable pub insert_sorted : (T → T → Ordering) → T → List T → List T
  insert_sorted cmp a [] = a ∷ []
  insert_sorted cmp a (b ∷ bs) =
      let rest = insert_sorted cmp a bs in elim (cmp a b) [ gt ↦ b ∷ rest | _ ↦ a ∷ b ∷ bs ]

  unfoldable pub sort_by : (T → T → Ordering) → List T → List T
  unfolding insert_sorted
  sort_by cmp [] = []
  sort_by cmp (a ∷ rest) = insert_sorted cmp a (sort_by cmp rest)

  -- `dedup_by(|a, b| a.key == b.key)`: an element with the key of the one kept before it goes
  unfoldable pub dedup_after : (T → GenerationKey) → T → List T → List T
  dedup_after key kept [] = []
  dedup_after key kept (a ∷ rest) =
      let skipped = dedup_after key kept rest in
      let taken = a ∷ dedup_after key a rest in if key a == key kept then skipped else taken

  unfoldable pub dedup_by_key : (T → GenerationKey) → List T → List T
  unfolding dedup_after
  dedup_by_key key [] = []
  dedup_by_key key (a ∷ rest) = a ∷ dedup_after key a rest

-- The order of generations: address, begin, id.
unfoldable pub generation_order : CanonicalGeneration → CanonicalGeneration → Ordering
generation_order a b = then_cmp (bytes_cmp a.key.address b.key.address) (
    then_cmp (compare a.begin.trace_ordinal b.begin.trace_ordinal)
      (compare a.key.generation_id b.key.generation_id))

unfoldable pub set_contains : GenerationKey → List GenerationKey → Bool
set_contains k [] = false
set_contains k (j ∷ js) = k == j || set_contains k js

-- The variables of the check. The two sets of the source always hold the same keys.
pub record Schema : Type 0 where
  pub diagnostics : List Diagnostic
  pub report : InvariantReport
  pub seen : List GenerationKey

abbrev pub report_error : TraceProvenance → LifecycleViolation → List Diagnostic → List Diagnostic
report_error at violation ds =
    ds ++ record { severity = Severity.error; location = at; violation = violation } ∷ []

unfoldable pub check_key : CanonicalGeneration → Schema → Schema
check_key g s =
    if set_contains g.key s.seen
    then record s {
      report = record s.report { keys_unique = false };
      diagnostics = report_error g.begin (duplicate_key g.key) s.diagnostics;
    }
    else record s { seen = g.key ∷ s.seen }

unfoldable pub check_interval : CanonicalGeneration → Option TraceProvenance → Schema → Schema
check_interval g none s = s
check_interval g (some end_coord) s =
    if leb end_coord.trace_ordinal g.begin.trace_ordinal
    then record s {
      report = record s.report { intervals_valid = false };
      diagnostics = report_error g.begin (interval_invalid g.key) s.diagnostics;
    }
    else s

unfoldable pub check_generations : List CanonicalGeneration → Schema → Schema
check_generations [] s = s
check_generations (g ∷ gs) s = check_generations gs (check_interval g g.end (check_key g s))

unfoldable pub check_balances : List CanonicalBalance → Schema → Schema
check_balances [] s = s
check_balances (b ∷ bs) s = check_balances bs (
    if not (set_contains b.key s.seen)
    then record s {
      report = record s.report { referential_integrity = false };
      diagnostics = report_error b.location (integrity_breach b.key) s.diagnostics;
    }
    else s)

unfoldable pub check_order : CanonicalGeneration → CanonicalGeneration → Schema → Schema
check_order g1 g2 s = elim (generation_order g1 g2) [
  | gt ↦ record s {
    report = record s.report { deterministic_order = false };
    diagnostics = report_error g2.begin ordering_breach s.diagnostics;
  }
  | _ ↦ s
]

unfoldable pub check_overlap :
    CanonicalGeneration → CanonicalGeneration → Option TraceProvenance → Schema → Schema
check_overlap g1 g2 none s = s
check_overlap g1 g2 (some end_coord) s =
    if leb g2.begin.trace_ordinal end_coord.trace_ordinal
    then record s {
      report = record s.report { intervals_valid = false };
      diagnostics = report_error g2.begin (overlap_detected g2.key.address) s.diagnostics;
    }
    else s

unfoldable pub check_window : CanonicalGeneration → CanonicalGeneration → Schema → Schema
check_window g1 g2 s =
    let t = check_order g1 g2 s in
    if g1.key.address == g2.key.address then check_overlap g1 g2 g1.end t else t

-- `ir.generations.windows(2)`
unfoldable pub check_windows : List CanonicalGeneration → Schema → Schema
check_windows [] s = s
check_windows (g1 ∷ []) s = s
check_windows (g1 ∷ g2 ∷ gs) s = check_windows (g2 ∷ gs) (check_window g1 g2 s)

abbrev pub clean : Schema
clean = record {
  diagnostics = [];
  report = record {
    keys_unique = true;
    referential_integrity = true;
    deterministic_order = true;
    intervals_valid = true;
  };
  seen = [];
}

unfoldable pub verify_global_schema : CanonicalSemanticIr → Schema
unfolding check_generations check_key check_interval check_balances check_windows check_window
verify_global_schema ir =
    check_windows ir.generations
      (check_balances ir.balances (check_generations ir.generations clean))

-- `CanonicalizationPipeline::process`
unfoldable pub canonicalize :
    List CanonicalPreState
    → List CanonicalGeneration
    → List CanonicalBalance
    → PassOutput CanonicalSemanticIr
unfolding sort_by dedup_by_key verify_global_schema
canonicalize pre_states generations balances =
    let ir : CanonicalSemanticIr = record {
      pre_states =
          dedup_by_key (λ p. p.key)
            (sort_by (λ (a b : CanonicalPreState). generation_key_cmp a.key b.key) pre_states);
      generations = dedup_by_key (λ g. g.key) (sort_by generation_order generations);
      balances =
          dedup_by_key (λ b. b.key)
            (sort_by (λ (a b : CanonicalBalance). generation_key_cmp a.key b.key) balances);
    } in
    let s = verify_global_schema ir in
    record { value = ir; diagnostics = s.diagnostics; invariant_report = s.report }
