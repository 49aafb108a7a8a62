-- ===== src/Cse/Validator.antt =====
-- runtime/cse/src/validator.rs: the stream validator, a state machine over the events.
pub mod Laws
use kaysentinel.Base.{
  ℕ, ◌+◌, ◌%◌, ◌≡◌, Bool, true, false, not, Result, ok, err, ◌>>=◌, ◌>>◌, fail_if, List, [], ◌∷◌,
}
use kaysentinel.Base.Classes.{◌==◌, nat_eq}
use kaysentinel.Cse.Words.{u64_mod}
use kaysentinel.Cse.Context.{NormativeContext}
use kaysentinel.Cse.Event.{
  CanonicalSemanticEvent, CsePayload, begin_transaction, end_transaction, ValidationError,
  sequence_breakage, invalid_boundary_condition, validate,
}

pub record CseValidator : Type 0 where
  pub expected_sequence : ℕ
  pub in_transaction : Bool

unfoldable pub new : CseValidator
new = record { expected_sequence = 0; in_transaction = false }

-- The envelope checks: the `in_transaction` after the event, or the error.
unfoldable pub envelope : Bool → CsePayload → Result ValidationError Bool
envelope inside begin_transaction = do
  fail_if inside (invalid_boundary_condition "Nested transaction boundary initiated")
  ok true
envelope inside end_transaction = do
  fail_if (not inside) (invalid_boundary_condition "Termination signature without active envelope")
  ok false
envelope inside _ = do
  fail_if (not inside)
      (invalid_boundary_condition "Semantic event occurring outside active envelope")
  ok inside

-- An error leaves the validator as it was; the `u64` counter wraps as in a release build.
unfoldable pub validate_and_advance :
    CseValidator → CanonicalSemanticEvent → Result ValidationError CseValidator
unfolding envelope
validate_and_advance v e = do
  validate e
  fail_if (not (e.context.normative.sequence_number == v.expected_sequence))
      (sequence_breakage v.expected_sequence e.context.normative.sequence_number)
  inside ← envelope v.in_transaction e.payload
  ok (record { expected_sequence = (v.expected_sequence + 1) % u64_mod; in_transaction = inside })

abbrev pub reset : CseValidator → CseValidator
reset v = record v { expected_sequence = 0; in_transaction = false }

-- A caller's loop: every event of the stream in turn, up to the first error.
unfoldable pub validate_stream :
    CseValidator → List CanonicalSemanticEvent → Result ValidationError CseValidator
validate_stream v [] = ok v
validate_stream v (e ∷ es) = do w ← validate_and_advance v e; validate_stream w es
