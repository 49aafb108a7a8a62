-- ===== src/Bridge/Frames/Buffers.antt =====
-- The proof that the stack of buffers computes what the call tree says.
use kaysentinel.Base.{
  ℕ, suc, ◌+◌, ◌<◌, ◌≡◌, refl, ap, ◌∙◌, Bool, true, false, List, [], ◌∷◌, ◌++◌, append_assoc,
  append-nil, ok, arith, Bool-cases, inl, inr, if◌then◌else◌, lt→ltb,
}
use kaysentinel.Base.Classes.{◌==◌, nat_eq}
use kaysentinel.Cse.{Word, u32_mod, CsePayload, CanonicalSemanticEvent}
use kaysentinel.Bridge.Wire.{
  no_frame, GoEvent, block_start, transaction_start, frame_enter, frame_exit, transaction_end,
  block_commit, FrameEnterData,
}
use kaysentinel.Bridge.Translate.{
  BridgeConfig, FrameBuffer, Translation, make_event, u32_max, try_u32, append_framed,
  append_mutation, leave_frame, exit_frame, step, steps,
}
use kaysentinel.Bridge.Frames.{
  FrameTrace, done, mutated, entered, emit, is_mutation, frame_of, payload_of, IsFrameTrace,
  IsRootTrace, frameless, kept, flushed, open_state,
}

-- How many events a trace has.
abbrev pub size : FrameTrace → ℕ
size done = 0
size (mutated g rest) = suc (size rest)
size (entered d reverted body rest) = suc (size body + suc (size rest))

step-mutation :
    (config : BridgeConfig) (i : ℕ) (g : GoEvent) (s : Translation)
    → is_mutation g ≡ true
    → step config i g s ≡ append_mutation config (frame_of g) (payload_of g) s
unfolding step
step-mutation config i (block_start d) s h = absurd (ground arith)
step-mutation config i (transaction_start d) s h = absurd (ground arith)
step-mutation config i (frame_enter d) s h = absurd (ground arith)
step-mutation config i (frame_exit d) s h = absurd (ground arith)
step-mutation config i (transaction_end d) s h = absurd (ground arith)
step-mutation config i block_commit s h = absurd (ground arith)
step-mutation config i g s h = refl

try_u32-ok : (n : ℕ) → n < u32_mod → try_u32 n ≡ ok n
unfolding try_u32
try_u32-ok n h = rw (lt→ltb n u32_mod h) refl

abbrev buffer : ℕ → ℕ → List CanonicalSemanticEvent → FrameBuffer
buffer frame_id depth events = record { frame_id = frame_id; depth = depth; events = events }

module _ (config : BridgeConfig) (out : List CanonicalSemanticEvent) (number index : ℕ)
    (hash : Word) where
  abbrev st : List CanonicalSemanticEvent → List FrameBuffer → Translation
  st = open_state out number index hash

  abbrev mk : ℕ → ℕ → CsePayload → CanonicalSemanticEvent
  mk = make_event config (open_state [] number index hash [] [])

  -- A mutation that names no frame, and one that names one.
  frameless_step :
      (i : ℕ) (g : GoEvent) (txo : List CanonicalSemanticEvent) (stack : List FrameBuffer)
      → is_mutation g ≡ true
      → (frame_of g == no_frame) ≡ true
      → step config i g (st txo stack) ≡ ok (st (txo ++ mk u32_max 0 (payload_of g) ∷ []) stack)
  unfolding append_mutation make_event
  frameless_step i g txo stack m h = step-mutation config i g (st txo stack) m ∙ rw h refl

  framed_step :
      (i : ℕ) (g : GoEvent) (txo : List CanonicalSemanticEvent) (f d : ℕ)
      (ev : List CanonicalSemanticEvent) (below : List FrameBuffer)
      → is_mutation g ≡ true
      → (frame_of g == no_frame) ≡ false
      → f < u32_mod
      → d < u32_mod
      → step config i g (st txo (buffer f d ev ∷ below))
        ≡ ok (st txo (buffer f d (ev ++ mk f d (payload_of g) ∷ []) ∷ below))
  unfolding append_mutation append_framed make_event
  framed_step i g txo f d ev below m h bf bd =
      step-mutation config i g (st txo (buffer f d ev ∷ below)) m
      ∙ rw (h, try_u32-ok f bf, try_u32-ok d bd) refl

  -- Entering a frame, and leaving it back into the frame below or into the transaction.
  enter_step :
      (i : ℕ) (d : FrameEnterData) (txo : List CanonicalSemanticEvent) (stack : List FrameBuffer)
      → step config i (frame_enter d) (st txo stack)
        ≡ ok (st txo (buffer d.frame_id d.depth [] ∷ stack))
  unfolding step
  enter_step i d txo stack = refl

  leave_nested :
      (i : ℕ) (c : FrameEnterData) (reverted : Bool) (txo : List CanonicalSemanticEvent) (f d : ℕ)
      (inner ev : List CanonicalSemanticEvent) (below : List FrameBuffer)
      → step config i
          (frame_exit (record { frame_id = c.frame_id; reverted = reverted }))
          (st txo (buffer c.frame_id c.depth inner ∷ buffer f d ev ∷ below))
        ≡ ok (st txo (buffer f d (ev ++ (if reverted then [] else inner)) ∷ below))
  unfolding step exit_frame leave_frame
  leave_nested i c true txo f d inner ev below =
      rw ((nat_eq.beq_iff c.frame_id c.frame_id).1 refl, append-nil ev) refl
  leave_nested i c false txo f d inner ev below =
      rw ((nat_eq.beq_iff c.frame_id c.frame_id).1 refl) refl

  leave_root :
      (i : ℕ) (c : FrameEnterData) (reverted : Bool) (txo : List CanonicalSemanticEvent)
      (inner : List CanonicalSemanticEvent)
      → step config i
          (frame_exit (record { frame_id = c.frame_id; reverted = reverted }))
          (st txo (buffer c.frame_id c.depth inner ∷ []))
        ≡ ok (st (txo ++ (if reverted then [] else inner)) [])
  unfolding step exit_frame leave_frame
  leave_root i c true txo inner =
      rw ((nat_eq.beq_iff c.frame_id c.frame_id).1 refl, append-nil txo) refl
  leave_root i c false txo inner = rw ((nat_eq.beq_iff c.frame_id c.frame_id).1 refl) refl

  -- One event of a stream.
  pub one_step :
      (i : ℕ) (g : GoEvent) (k : List GoEvent) (s t : Translation)
      → step config i g s ≡ ok t
      → steps config i (g ∷ k) s ≡ steps config (suc i) k t
  unfolding steps
  one_step i g k s t h = rw h refl

  -- The states and the place in the stream, rewritten.
  same_steps :
      (i j : ℕ) (k : List GoEvent) (s t : Translation)
      → i ≡ j
      → s ≡ t
      → steps config i k s ≡ steps config j k t
  same_steps i j k s t p q = rw (p, q) refl

  pub inside :
      (trace : FrameTrace) (i : ℕ) (k : List GoEvent) (f d : ℕ)
      (txo ev : List CanonicalSemanticEvent) (below : List FrameBuffer)
      → IsFrameTrace trace
      → f < u32_mod
      → d < u32_mod
      → steps config i (emit trace k) (st txo (buffer f d ev ∷ below))
        ≡ steps config
            (i + size trace)
            k
            (st (txo ++ frameless mk trace) (buffer f d (ev ++ kept mk f d trace) ∷ below))
  inside done i k f d txo ev below v bf bd =
      same_steps i (i + 0) k _ _ (omega arith) (rw (append-nil txo, append-nil ev) refl)
  inside (mutated g rest) i k f d txo ev below v bf bd =
      elim (Bool-cases (frame_of g == no_frame)) [
        | inl h ↦
            one_step i g (emit rest k) _ _ (frameless_step i g txo (buffer f d ev ∷ below) v.0 h)
            ∙ inside rest (suc i) k f d (txo ++ mk u32_max 0 (payload_of g) ∷ []) ev below v.1 bf bd
            ∙ same_steps (suc i + size rest) (i + suc (size rest)) k _ _ (omega arith) (
                rw (h, append_assoc txo (mk u32_max 0 (payload_of g) ∷ []) (frameless mk rest))
                  refl)
        | inr h ↦
            one_step i g (emit rest k) _ _ (framed_step i g txo f d ev below v.0 h bf bd)
            ∙ inside rest (suc i) k f d txo (ev ++ mk f d (payload_of g) ∷ []) below v.1 bf bd
            ∙ same_steps (suc i + size rest) (i + suc (size rest)) k _ _ (omega arith)
                (rw (h, append_assoc ev (mk f d (payload_of g) ∷ []) (kept mk f d rest)) refl)
      ]
  inside (entered c reverted body rest) i k f d txo ev below v bf bd =
      let leave = frame_exit (record { frame_id = c.frame_id; reverted = reverted }) in
      let inner = kept mk c.frame_id c.depth body in
      let out_of = if reverted then [] else inner in
      let txo' = txo ++ frameless mk body in
      let at_exit = suc i + size body in
      one_step i (frame_enter c) (emit body (leave ∷ emit rest k)) _ _
        (enter_step i c txo (buffer f d ev ∷ below))
      ∙ inside body (suc i) (leave ∷ emit rest k) c.frame_id c.depth txo [] (buffer f d ev ∷ below)
          v.2 v.0 v.1
      ∙ one_step at_exit leave (emit rest k) _ _
          (leave_nested at_exit c reverted txo' f d inner ev below)
      ∙ inside rest (suc at_exit) k f d txo' (ev ++ out_of) below v.3 bf bd
      ∙ same_steps (suc at_exit + size rest) (i + suc (size body + suc (size rest))) k _ _
          (omega arith)
          (rw
            (
              append_assoc txo (frameless mk body) (frameless mk rest),
              append_assoc ev out_of (kept mk f d rest),
            )
            refl)

  pub outside :
      (trace : FrameTrace) (i : ℕ) (k : List GoEvent) (txo : List CanonicalSemanticEvent)
      → IsRootTrace trace
      → steps config i (emit trace k) (st txo [])
        ≡ steps config (i + size trace) k (st (txo ++ flushed mk trace) [])
  outside done i k txo v = same_steps i (i + 0) k _ _ (omega arith) (rw (append-nil txo) refl)
  outside (mutated g rest) i k txo v =
      one_step i g (emit rest k) _ _
        (frameless_step i g txo [] v.0 ((nat_eq.beq_iff (frame_of g) no_frame).1 v.1))
      ∙ outside rest (suc i) k (txo ++ mk u32_max 0 (payload_of g) ∷ []) v.2
      ∙ same_steps (suc i + size rest) (i + suc (size rest)) k _ _ (omega arith)
          (rw (append_assoc txo (mk u32_max 0 (payload_of g) ∷ []) (flushed mk rest)) refl)
  outside (entered c reverted body rest) i k txo v =
      let leave = frame_exit (record { frame_id = c.frame_id; reverted = reverted }) in
      let inner = kept mk c.frame_id c.depth body in
      let out_of = if reverted then [] else inner in
      let txo' = txo ++ frameless mk body in
      let at_exit = suc i + size body in
      one_step i (frame_enter c) (emit body (leave ∷ emit rest k)) _ _ (enter_step i c txo [])
      ∙ inside body (suc i) (leave ∷ emit rest k) c.frame_id c.depth txo [] [] v.2 v.0 v.1
      ∙ one_step at_exit leave (emit rest k) _ _ (leave_root at_exit c reverted txo' inner)
      ∙ outside rest (suc at_exit) k (txo' ++ out_of) v.3
      ∙ same_steps (suc at_exit + size rest) (i + suc (size body + suc (size rest))) k _ _
          (omega arith)
          (ap (λ t. st t [])
            (append_assoc txo' out_of (flushed mk rest)
              ∙ append_assoc txo (frameless mk body) (out_of ++ flushed mk rest)))
