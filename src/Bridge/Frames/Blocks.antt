-- ===== src/Bridge/Frames/Blocks.antt =====
-- The streams of whole blocks: the translation puts out what their call trees say.
use kaysentinel.Base.{
  ℕ, suc, ◌+◌, ◌≡◌, refl, ap, ◌∙◌, false, List, [], ◌∷◌, ◌++◌, append_assoc, append-nil, Result, ok,
}
use kaysentinel.Base.Classes.{nat_eq}
use kaysentinel.Cse.{Word, begin_transaction, end_transaction, CanonicalSemanticEvent}
use kaysentinel.Builder.Lifecycle.Certificate.{zero_word}
use kaysentinel.Bridge.Wire.{
  transaction_start, transaction_end, TransactionStartData, TransactionEndData,
}
use kaysentinel.Bridge.Translate.{
  BridgeError, BridgeConfig, Translation, make_event, boundary_event, u32_max, step, steps,
  renumber, translate,
}
use kaysentinel.Bridge.Frames.{
  emit, flushed, BlockTrace, finished, started, committed, transaction, emit_blocks, IsBlockTrace,
  open_state, output_of,
}
use kaysentinel.Bridge.Frames.Buffers.{size, outside, one_step}

-- Between two transactions.
abbrev idle : List CanonicalSemanticEvent → ℕ → ℕ → Word → Translation
idle out number index hash = record {
  final_output = out;
  tx_open = false;
  tx_output = [];
  frame_stack = [];
  block_number = number;
  tx_index = index;
  tx_hash = hash;
}

module _ (config : BridgeConfig) where
  start_step :
      (i : ℕ) (d : TransactionStartData) (out : List CanonicalSemanticEvent) (number index : ℕ)
      (hash : Word)
      → step config i (transaction_start d) (idle out number index hash)
        ≡ ok (
            open_state out number d.tx_index d.hash
              (make_event config
                  (open_state [] number d.tx_index d.hash [] [])
                  u32_max
                  0
                  begin_transaction
                ∷ [])
              [])
  unfolding step boundary_event make_event
  start_step i d out number index hash = refl

  end_step :
      (i : ℕ) (e : TransactionEndData) (out txo : List CanonicalSemanticEvent) (number index : ℕ)
      (hash : Word)
      → step config i (transaction_end e) (open_state out number index hash txo [])
        ≡ ok (
            idle
              (out
                ++ (txo
                    ++ make_event config
                        (open_state [] number index hash [] [])
                        u32_max
                        0
                        end_transaction
                      ∷ []))
              number
              index
              hash)
  unfolding step boundary_event make_event
  end_step i e out txo number index hash = refl

  -- The stream of blocks ends between two transactions, with all the output.
  abbrev EndsWith : List CanonicalSemanticEvent → Result BridgeError Translation → Type 0
  EndsWith out r =
      (number : ℕ) × (index : ℕ) × (hash : Word) × (r ≡ ok (idle out number index hash))

  blocks :
      (t : BlockTrace) (i : ℕ) (out : List CanonicalSemanticEvent) (number index : ℕ) (hash : Word)
      → IsBlockTrace t
      → EndsWith
          (out ++ output_of config number t)
          (steps config i (emit_blocks t) (idle out number index hash))
  unfolding steps step
  blocks finished i out number index hash v = (number, index, hash, rw (append-nil out) refl)
  blocks (started d rest) i out number index hash v = blocks rest (suc i) out d.number index hash v
  blocks (committed rest) i out number index hash v = blocks rest (suc i) out number index hash v
  blocks (transaction d body e rest) i out number index hash v =
      let mk = make_event config (open_state [] number d.tx_index d.hash [] []) in
      let before = mk u32_max 0 begin_transaction in
      let after = mk u32_max 0 end_transaction in
      let txo = before ∷ [] ++ flushed mk body in
      let at_end = suc i + size body in
      let (n, x, w, r) =
        blocks rest (suc at_end) (out ++ (txo ++ after ∷ [])) number d.tx_index d.hash v.1 in
      (
        n,
        x,
        w,
        one_step config out number index hash i (transaction_start d)
              (emit body (transaction_end e ∷ emit_blocks rest)) (idle out number index hash) _
              (start_step i d out number index hash)
            ∙ outside config out number d.tx_index d.hash body (suc i)
                (transaction_end e ∷ emit_blocks rest) (before ∷ []) v.0
            ∙ one_step config out number index hash at_end (transaction_end e) (emit_blocks rest)
                (open_state out number d.tx_index d.hash txo []) _
                (end_step at_end e out txo number d.tx_index d.hash)
            ∙ r
            ∙ ap (λ o. ok (idle o n x w))
                (append_assoc out (txo ++ after ∷ []) (output_of config number rest)
                  ∙ ap (λ t. out ++ before ∷ t)
                      (append_assoc (flushed mk body) (after ∷ []) (output_of config number rest))),
      )

-- The stream of any sequence of blocks and transactions, given by their call trees, translates
-- without an error, if frame ids and depths fit a u32 and mutations outside all frames name no
-- frame. The output is, per transaction, its boundaries and between them the mutations in order,
-- without those that name a frame and stand in a frame that reverts or inside one that does, those
-- of a root frame at its end, and those that name no frame always; the sequence numbers count up
-- from 0.
pub translate-output_of :
    (config : BridgeConfig) (t : BlockTrace)
    → IsBlockTrace t
    → translate (emit_blocks t) config ≡ ok (renumber 0 (output_of config 0 t))
unfolding translate
translate-output_of config t v =
    let (n, x, w, r) = blocks config t 0 [] 0 0 zero_word v in rw r refl
