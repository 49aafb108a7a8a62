-- ===== src/Builder/Lifecycle/Resolve.antt =====
-- lifecycle/semantic.rs, diagnostics.rs and resolve.rs: the generations of every account, from the
-- creations and destructions of a transaction. A diagnostic's `explanation`, a text made of its
-- other fields, is left out.
pub mod Ids
use kaysentinel.Base.{
  ℕ, ◌+◌, ◌%◌, Bool, true, false, not, ◌||◌, Option, none, some, List, [], ◌∷◌, ◌++◌, if◌then◌else◌,
}
use kaysentinel.Base.Classes.{◌==◌, nat_eq, bytes_ord}
use kaysentinel.Base.BTreeMap.{BTreeMap, get, unwrap_or}
use kaysentinel.Cse.{Address, u32_mod}
use kaysentinel.Builder.Ir.{
  TraceProvenance, default_provenance, CseLifecyclePayload, created, destroyed, ObservedLifecycle,
}
use kaysentinel.Builder.Lifecycle.Keys.{GenerationKey}

pub data Severity : Type 0 where
  error warning : Severity

pub data LifecycleViolation : Type 0 where
  collision : Address → ℕ → LifecycleViolation
  duplicate_key : GenerationKey → LifecycleViolation
  integrity_breach : GenerationKey → LifecycleViolation
  interval_invalid : GenerationKey → LifecycleViolation
  overlap_detected : Address → LifecycleViolation
  ordering_breach : LifecycleViolation

pub record Diagnostic : Type 0 where
  pub severity : Severity
  pub location : TraceProvenance
  pub violation : LifecycleViolation

pub record InvariantReport : Type 0 where
  pub keys_unique : Bool
  pub referential_integrity : Bool
  pub deterministic_order : Bool
  pub intervals_valid : Bool

pub record PassOutput (T : Type 0) : Type 0 where
  pub value : T
  pub diagnostics : List Diagnostic
  pub invariant_report : InvariantReport

abbrev is_error : Severity → Bool
is_error error = true
is_error warning = false

abbrev pub has_error : List Diagnostic → Bool
has_error [] = false
has_error (d ∷ ds) = is_error d.severity || has_error ds

-- `PassOutput::is_valid`
abbrev pub is_valid : {T : Type 0} → PassOutput T → Bool
is_valid output = not (has_error output.diagnostics)

pub record AccountPreStateRelation : Type 0 where
  pub address : Address
  pub existed_before_tx : Bool

pub record GenerationRelation : Type 0 where
  pub address : Address
  pub generation_id : ℕ
  pub begin : TraceProvenance
  pub end : Option TraceProvenance

pub record SemanticIr : Type 0 where
  pub pre_states : List AccountPreStateRelation
  pub generations : List GenerationRelation

-- The variables of the loop over one account's observations.
pub record Walk : Type 0 where
  pub generations : List GenerationRelation
  pub diagnostics : List Diagnostic
  pub current_gen_id : ℕ
  pub begin : TraceProvenance
  pub gen_open : Bool

module _ (address : Address) (existed_before_tx : Bool) where
  unfoldable pub observe_payload : CseLifecyclePayload → TraceProvenance → Walk → Walk
  observe_payload (created p) at w =
      let existed_before = if w.current_gen_id == 0 then existed_before_tx else false in
      record w {
        diagnostics =
            w.diagnostics
            ++ (if existed_before
                then record {
                  severity = Severity.error;
                  location = at;
                  violation = collision address w.current_gen_id;
                }
                  ∷ []
                else []);
        begin = at;
        gen_open = true;
      }
  observe_payload (destroyed p) at w = record w {
    generations =
        w.generations
        ++ record {
          address = address;
          generation_id = w.current_gen_id;
          begin = w.begin;
          end = some at;
        }
          ∷ [];
    current_gen_id = (w.current_gen_id + 1) % u32_mod;
    begin = at;
    gen_open = false;
  }

  unfoldable pub observe_all : List ObservedLifecycle → Walk → Walk
  observe_all [] w = w
  observe_all (o ∷ os) w = observe_all os (observe_payload o.payload o.trace_provenance w)

  -- The last generation, if it is still open.
  unfoldable pub close_walk : Walk → List GenerationRelation
  close_walk w =
      w.generations
      ++ (if w.gen_open
          then record {
            address = address;
            generation_id = w.current_gen_id;
            begin = w.begin;
            end = none;
          }
            ∷ []
          else [])

-- `observations.first().map(|o| o.trace_provenance).unwrap_or_default()`
abbrev pub first_provenance : List ObservedLifecycle → TraceProvenance
first_provenance [] = default_provenance
first_provenance (o ∷ os) = o.trace_provenance

-- The variables before an account's loop, with the diagnostics so far.
abbrev pub begin_walk : List ObservedLifecycle → List Diagnostic → Walk
begin_walk observations diagnostics = record {
  generations = [];
  diagnostics = diagnostics;
  current_gen_id = 0;
  begin = first_provenance observations;
  gen_open = true;
}

-- The two results that the outer loop fills.
unfoldable pub resolve_accounts :
    BTreeMap Address Bool
    → BTreeMap Address (List ObservedLifecycle)
    → SemanticIr
    → List Diagnostic
    → SemanticIr × List Diagnostic
unfolding observe_all observe_payload close_walk
resolve_accounts pre_states [] ir diagnostics = (ir, diagnostics)
resolve_accounts pre_states ((address, observations) ∷ table) ir diagnostics =
    let existed_before_tx = unwrap_or false (get address pre_states) in
    let w =
      observe_all address existed_before_tx observations (begin_walk observations diagnostics) in
    resolve_accounts pre_states table
      (record {
        pre_states =
            ir.pre_states
            ++ record { address = address; existed_before_tx = existed_before_tx } ∷ [];
        generations = ir.generations ++ close_walk address existed_before_tx w;
      })
      w.diagnostics

unfoldable pub resolve :
    BTreeMap Address (List ObservedLifecycle) → BTreeMap Address Bool → PassOutput SemanticIr
unfolding resolve_accounts
resolve lifecycle_table pre_states =
    let r =
      resolve_accounts pre_states lifecycle_table (record { pre_states = []; generations = [] })
        [] in
    record {
      value = r.0;
      diagnostics = r.1;
      invariant_report = record {
        keys_unique = true;
        referential_integrity = true;
        deterministic_order = false;
        intervals_valid = true;
      };
    }
