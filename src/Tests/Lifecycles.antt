-- ===== src/Tests/Lifecycles.antt =====
-- The theorems on generations, at an account that is destroyed and created again.
use kaysentinel.Base.{ℕ, ◌≡◌, ◌↔◌, refl, true, false, none, some, List, [], ◌∷◌, ok}
use kaysentinel.Base.Classes.{bytes_beq}
use kaysentinel.Builder.Ir.{TraceProvenance, created, destroyed, ObservedLifecycle}
use kaysentinel.Builder.Lifecycle.Keys.{CanonicalGeneration, CanonicalSemanticIr}
use kaysentinel.Builder.Lifecycle.Certificate
use kaysentinel.Builder.Lifecycle.Certificate.{
  resolve_generation_for_address, VerifiedGeneration, verified, identity_absent,
}
use kaysentinel.Builder.Lifecycle.Certificate.Terminal.{
  IsTerminal, resolve_generation_for_address-ok,
}
use kaysentinel.Builder.Lifecycle.Canonicalize.{verify_global_schema, canonicalize}
use kaysentinel.Builder.Lifecycle.Canonicalize.Report.{all_hold}
use kaysentinel.Builder.Lifecycle.Canonicalize.Canonical.{IsCanonical, verify_global_schema_iff}
use kaysentinel.Builder.Lifecycle.Canonicalize.Sorted.{
  IsGenerationsOf, IsKeyTableOf, canonicalize-tables,
}
use kaysentinel.Builder.Lifecycle.Keys.{CanonicalPreState}
use kaysentinel.Tests.{alice}

abbrev at : ℕ → TraceProvenance
at n = record { trace_ordinal = n; tx_index = 0; frame_id = 0; call_depth = 0; frame_ordinal = 0 }

abbrev first_life : CanonicalGeneration
first_life = record {
  key = record { address = alice; generation_id = 0 };
  begin = at 3;
  end = some (at 5);
}

abbrev second_life : CanonicalGeneration
second_life = record {
  key = record { address = alice; generation_id = 1 };
  begin = at 7;
  end = none;
}

-- Out of order and with a repetition.
abbrev lives : List CanonicalGeneration
lives = second_life ∷ first_life ∷ second_life ∷ []

-- The same account twice.
abbrev births : List CanonicalPreState
births =
    record { key = first_life.key; existed_before_tx = false }
    ∷ record { key = first_life.key; existed_before_tx = false }
    ∷ []

abbrev two_lives : List CanonicalGeneration
two_lives = first_life ∷ second_life ∷ []

abbrev ir : CanonicalSemanticIr
ir = record { pre_states = []; generations = two_lives; balances = [] }

abbrev observations : List ObservedLifecycle
observations =
    record {
      payload = created (record { address = alice; creator = alice });
      event_id = record { id = 3 };
      trace_provenance = at 3;
    }
    ∷ record {
      payload = destroyed (record { address = alice; refund_target = alice });
      event_id = record { id = 5 };
      trace_provenance = at 5;
    }
    ∷ []

terminal_is_second : resolve_generation_for_address two_lives alice ≡ ok (verified second_life)
unfolding resolve_generation_for_address Certificate.with_address Certificate.max_generation_id
    Certificate.with_generation_id Certificate.pick_terminal Certificate.resolve_matches bytes_beq
terminal_is_second = refl

resolve_generation_for_address-ok_example :
    (g : CanonicalGeneration) × IsTerminal two_lives alice g × (verified second_life ≡ verified g)
resolve_generation_for_address-ok_example =
    resolve_generation_for_address-ok two_lives alice (verified second_life) terminal_is_second

verify_global_schema_iff_example :
    (all_hold (verify_global_schema ir).report ≡ true) ↔ IsCanonical ir
verify_global_schema_iff_example = verify_global_schema_iff ir

canonicalize-tables_example :
    IsGenerationsOf lives (canonicalize births lives []).value.generations
    × IsKeyTableOf (λ p. p.key) births (canonicalize births lives []).value.pre_states
    × IsKeyTableOf (λ b. b.key) [] (canonicalize births lives []).value.balances
canonicalize-tables_example = canonicalize-tables births lives []
