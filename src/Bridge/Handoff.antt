-- ===== src/Bridge/Handoff.antt =====
-- The translation hands its output to the validator and to the partition.
use kaysentinel.Base.{◌≡◌, ◌<◌, refl, false, List, ok, All, length}
use kaysentinel.Cse.{u64_mod, CanonicalSemanticEvent, validate}
use kaysentinel.Cse.Validator
use kaysentinel.Cse.Validator.{validate_stream}
use kaysentinel.Cse.Validator.Laws.{validate_stream-ok_iff}
use kaysentinel.Builder.Ir.{RawIr}
use kaysentinel.Builder.Partition
use kaysentinel.Builder.Partition.Boundaries.{process-ok_iff}
use kaysentinel.Bridge.Wire.{GoEvent}
use kaysentinel.Bridge.Translate.{BridgeConfig, translate}
use kaysentinel.Bridge.Output.{translate-IsBracketed}

-- If a stream translates to fewer than 2^64 events, each valid by itself, a new validator accepts
-- them and ends outside a transaction, and they partition.
pub translate-validate_stream :
    (events : List GoEvent) (config : BridgeConfig) (out : List CanonicalSemanticEvent)
    → translate events config ≡ ok out
    → length out < u64_mod
    → All (λ e. validate e ≡ ok tt) out
    → (validate_stream Validator.new out
        ≡ ok (record { expected_sequence = length out; in_transaction = false }))
      × ((raw : RawIr) × (Partition.process out ≡ ok raw))
translate-validate_stream events config out h small valid =
    let (sequenced, bracketed) = translate-IsBracketed events config out h small in
    (
      (validate_stream-ok_iff out _ small).1 (valid, sequenced, bracketed, refl),
      (process-ok_iff out).1 bracketed,
    )
