-- ===== src/Tests/Bridges.antt =====
-- The theorems on the bridge, at a transaction whose inner frame reverts.
use kaysentinel.Base.{ℕ, ◌≡◌, ◌<◌, refl, true, false, List, ok, All, length, arith}
use kaysentinel.Base.Classes.{bytes_beq}
use kaysentinel.Cse.{CanonicalSemanticEvent, validate, validate_payload, u64_mod}
use kaysentinel.Cse.Validator
use kaysentinel.Cse.Validator.{validate_stream}
use kaysentinel.Cse.Validator.Laws.{IsBracketed, IsSequenced}
use kaysentinel.Builder.Ir.{RawIr}
use kaysentinel.Builder.Partition
use kaysentinel.Bridge.Wire.{GoEvent, balance_mutation, no_frame}
use kaysentinel.Bridge.Translate.{BridgeConfig, renumber, translate, make_event}
use kaysentinel.Bridge.Output.{translate-IsBracketed}
use kaysentinel.Bridge.Handoff.{translate-validate_stream}
use kaysentinel.Bridge.Frames.{
  FrameTrace, done, mutated, entered, BlockTrace, finished, started, transaction, emit_blocks,
  IsBlockTrace, output_of,
}
use kaysentinel.Bridge.Frames.Blocks.{translate-output_of}
use kaysentinel.Tests.{alice, word}

abbrev config : BridgeConfig
config = record { chain_id = 1 }

abbrev pays : ℕ → ℕ → ℕ → GoEvent
pays frame a b =
    balance_mutation (record { frame_id = frame; address = alice; before = word a; after = word b })

-- A fee without a frame, a payment in a frame, and one in a frame that reverts.
abbrev calls : FrameTrace
calls = mutated (pays no_frame 1 2) (
    entered (record { frame_id = 4; parent_frame_id = no_frame; depth = 0 }) false
      (mutated (pays 4 2 3) (
        entered (record { frame_id = 5; parent_frame_id = 4; depth = 1 }) true
          (mutated (pays 5 3 9) done) done))
      done)

abbrev block : BlockTrace
block =
    started (record { number = 7 })
      (transaction (record { tx_index = 0; hash = word 8 }) calls
        (record { tx_index = 0; reverted = false }) finished)

block_fits : IsBlockTrace block
block_fits = (
  (refl, refl, (omega arith, omega arith, (refl, (omega arith, omega arith, (refl, tt), tt)), tt)),
  tt,
)

abbrev out : List CanonicalSemanticEvent
out = renumber 0 (output_of config 0 block)

-- The payment of the reverted frame is gone: two boundaries and two payments.
four_events : length out ≡ 4
unfolding renumber
four_events = refl

out_short : length out < u64_mod
unfolding renumber
out_short = omega arith

out_valid : All (λ e. validate e ≡ ok tt) out
unfolding renumber validate validate_payload make_event bytes_beq
out_valid = (refl, (refl, (refl, (refl, tt))))

translate-output_of_example : translate (emit_blocks block) config ≡ ok out
translate-output_of_example = translate-output_of config block block_fits

translate-IsBracketed_example : IsSequenced 0 out × IsBracketed false out false
translate-IsBracketed_example =
    translate-IsBracketed (emit_blocks block) config out
      (translate-output_of config block block_fits) out_short

translate-validate_stream_example :
    (validate_stream Validator.new out
      ≡ ok (record { expected_sequence = length out; in_transaction = false }))
    × ((raw : RawIr) × (Partition.process out ≡ ok raw))
translate-validate_stream_example =
    translate-validate_stream (emit_blocks block) config out
      (translate-output_of config block block_fits) out_short out_valid
