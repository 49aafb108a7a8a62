-- ===== src/Builder/Lifecycle/Process.antt =====
-- lifecycle/mod.rs: resolution and canonicalization of every bucket.
pub mod Lives
pub mod Ordered
pub mod Verdict
pub mod Reported
pub mod Observed
pub mod Found
pub mod Identity
pub mod Collisions
pub mod Traces
pub mod Streams
use kaysentinel.Base.{Bool, List, [], ◌++◌, map}
use kaysentinel.Base.BTreeMap.{BTreeMap}
use kaysentinel.Cse.{Address}
use kaysentinel.Builder.Ir.{ReducedTransactionBucket, ReducedIr}
use kaysentinel.Builder.Lifecycle.Keys.{CanonicalPreState, CanonicalGeneration, CanonicalSemanticIr}
use kaysentinel.Builder.Lifecycle.Resolve.{
  AccountPreStateRelation, GenerationRelation, PassOutput, resolve,
}
use kaysentinel.Builder.Lifecycle.Canonicalize.{canonicalize}

abbrev pub canonical_pre_state : AccountPreStateRelation → CanonicalPreState
canonical_pre_state p = record {
  key = record { address = p.address; generation_id = 0 };
  existed_before_tx = p.existed_before_tx;
}

abbrev pub canonical_generation : GenerationRelation → CanonicalGeneration
canonical_generation g = record {
  key = record { address = g.address; generation_id = g.generation_id };
  begin = g.begin;
  end = g.end;
}

unfoldable pub process_bucket :
    BTreeMap Address Bool → ReducedTransactionBucket → PassOutput CanonicalSemanticIr
process_bucket pre_states bucket =
    let semantic_pass = resolve bucket.lifecycle_table pre_states in
    let canonical_pass =
      canonicalize (map canonical_pre_state semantic_pass.value.pre_states)
        (map canonical_generation semantic_pass.value.generations) [] in
    record canonical_pass { diagnostics = canonical_pass.diagnostics ++ semantic_pass.diagnostics }

unfoldable pub process : ReducedIr → BTreeMap Address Bool → List (PassOutput CanonicalSemanticIr)
unfolding process_bucket
process ir pre_states = map (process_bucket pre_states) ir.buckets
