-- ===== src/Bridge/Envelope.antt =====
-- The envelope of the output, kept by every event: transactions are bracketed, buffers hold no boundary.
use kaysentinel.Base.{
  ℕ, ◌≡◌, refl, sym, subst, Bool, true, false, not, List, [], ◌∷◌, ◌++◌, Result, ok, err, ◌>>=◌,
  ◌>>◌, fail_if, All, All-append, arith, Bool-cases, inl, inr, ltb,
}
use kaysentinel.Base.Classes.{◌==◌, nat_eq}
use kaysentinel.Cse.{
  u32_mod, CsePayload, begin_transaction, end_transaction, CanonicalSemanticEvent,
}
use kaysentinel.Cse.Validator.Laws.{IsBracketed, Fits, opens}
use kaysentinel.Builder.Partition.Transactions.{is_inner}
use kaysentinel.Bridge.Wire.{no_frame, FrameExitData}
use kaysentinel.Bridge.Translate.{
  BridgeError, BridgeConfig, FrameBuffer, Translation, make_event, try_u32, append_framed,
  append_mutation, leave_frame, exit_frame,
}

-- Not a boundary event.
abbrev IsInner : CanonicalSemanticEvent → Type 0
IsInner e = is_inner e.payload ≡ true

pub IsBracketed-append :
    (a b c : Bool) (xs ys : List CanonicalSemanticEvent)
    → IsBracketed a xs b
    → IsBracketed b ys c
    → IsBracketed a (xs ++ ys) c
IsBracketed-append a b c [] ys p q = rw p q
IsBracketed-append a b c (x ∷ xs) ys p q =
    (p.0, IsBracketed-append (opens a x.payload) b c xs ys p.1 q)

inner-Fits : (p : CsePayload) → is_inner p ≡ true → Fits true p × (opens true p ≡ true)
inner-Fits begin_transaction h = absurd (ground arith)
inner-Fits end_transaction h = absurd (ground arith)
inner-Fits p h = (refl, refl)

inner-IsBracketed : (es : List CanonicalSemanticEvent) → All IsInner es → IsBracketed true es true
inner-IsBracketed [] h = refl
inner-IsBracketed (e ∷ es) h =
    let (fits, stays) = inner-Fits e.payload h.0 in
    (fits, subst (λ b. IsBracketed b es true) (sym stays) (inner-IsBracketed es h.1))

-- The output of a transaction so far: bracketed but for its end, if one is open.
abbrev pub IsTxOutput : Bool → List CanonicalSemanticEvent → Type 0
IsTxOutput true es = IsBracketed false es true
IsTxOutput false es = Unit

-- What the loop keeps.
pub record IsEnveloped (s : Translation) : Type 0 where
  pub done : IsBracketed false s.final_output false
  pub current : IsTxOutput s.tx_open s.tx_output
  pub buffers : All (λ f. All IsInner f.events) s.frame_stack

more-IsTxOutput :
    (open_now : Bool) (es more : List CanonicalSemanticEvent)
    → IsTxOutput open_now es
    → All IsInner more
    → IsTxOutput open_now (es ++ more)
more-IsTxOutput true es more h a =
    IsBracketed-append false true true es more h (inner-IsBracketed more a)
more-IsTxOutput false es more h a = tt

-- A property of a result that has no error.
abbrev pub Post : {A : Type 0} → (A → Type 0) → Result BridgeError A → Type 0
Post P (ok a) = P a
Post P (err e) = Unit

pub Post-bind :
    {A B : Type 0} (P : A → Type 0) (Q : B → Type 0) (m : Result BridgeError A)
    (f : A → Result BridgeError B)
    → Post P m
    → ((a : A) → P a → Post Q (f a))
    → Post Q (m >>= f)
Post-bind P Q (ok a) f p h = h a p
Post-bind P Q (err e) f p h = tt

pub Post-fail_if :
    {A : Type 0} (P : A → Type 0) (c : Bool) (e : BridgeError) (k : Result BridgeError A)
    → (c ≡ false → Post P k)
    → Post P (fail_if c e >> k)
Post-fail_if P true e k h = tt
Post-fail_if P false e k h = h refl

Post-try : (n : ℕ) → Post (λ m. Unit) (try_u32 n)
unfolding try_u32
Post-try n = elim (Bool-cases (ltb n u32_mod)) [ inl small ↦ rw small tt | inr big ↦ rw big tt ]

framed_step :
    (config : BridgeConfig) (p : CsePayload) (fs : List FrameBuffer) (s : Translation)
    → is_inner p ≡ true
    → All (λ f. All IsInner f.events) fs
    → IsEnveloped s
    → Post IsEnveloped (append_framed config p fs s)
unfolding append_framed make_event
framed_step config p [] s h a v = tt
framed_step config p (top ∷ below) s h a v =
    Post-bind (λ m. Unit) IsEnveloped (try_u32 top.frame_id) _ (Post-try top.frame_id)
      (λ call_frame_id u.
        Post-bind (λ m. Unit) IsEnveloped (try_u32 top.depth) _ (Post-try top.depth)
          (λ call_depth w. record {
            done = v.done;
            current = v.current;
            buffers = (All-append IsInner top.events _ a.0 (h, tt), a.1);
          }))

pub mutation_step :
    (config : BridgeConfig) (frame_id : ℕ) (p : CsePayload) (s : Translation)
    → is_inner p ≡ true
    → IsEnveloped s
    → Post IsEnveloped (append_mutation config frame_id p s)
unfolding append_mutation make_event
mutation_step config frame_id p s h v = elim (Bool-cases (frame_id == no_frame)) [
  | inl frameless ↦ rw frameless (record {
    done = v.done;
    current = more-IsTxOutput s.tx_open s.tx_output _ v.current (h, tt);
    buffers = v.buffers;
  })
  | inr framed ↦ rw framed (framed_step config p s.frame_stack s h v.buffers v)
]

leave_step :
    (popped : FrameBuffer) (reverted : Bool) (below : List FrameBuffer) (s : Translation)
    → All IsInner popped.events
    → All (λ f. All IsInner f.events) below
    → IsEnveloped s
    → IsEnveloped (leave_frame popped reverted below s)
unfolding leave_frame
leave_step popped true below s a b v = record { done = v.done; current = v.current; buffers = b }
leave_step popped false [] s a b v = record {
  done = v.done;
  current = more-IsTxOutput s.tx_open s.tx_output popped.events v.current a;
  buffers = tt;
}
leave_step popped false (parent ∷ below) s a b v = record {
  done = v.done;
  current = v.current;
  buffers = (All-append IsInner parent.events popped.events b.0 a, b.1);
}

pub exit_step :
    (i : ℕ) (d : FrameExitData) (fs : List FrameBuffer) (s : Translation)
    → All (λ f. All IsInner f.events) fs
    → IsEnveloped s
    → Post IsEnveloped (exit_frame i d fs s)
unfolding exit_frame
exit_step i d [] s a v = tt
exit_step i d (popped ∷ below) s a v =
    Post-fail_if IsEnveloped (not (popped.frame_id == d.frame_id)) _ _
      (λ same. leave_step popped d.reverted below s a.0 a.1 v)
