-- ===== src/Cse/Validator/Laws.antt =====
-- What the validator establishes of a stream that it lets through.
use kaysentinel.Base.{
  ℕ, suc, ◌+◌, ◌%◌, ◌<◌, ◌≡◌, refl, ◌↔◌, Bool, true, false, List, [], ◌∷◌, ok, arith, >>=-eq-ok,
  length, All, subst,
}
use kaysentinel.Cse.Words.{u64_mod}
use kaysentinel.Cse.Event.{
  CanonicalSemanticEvent, CsePayload, begin_transaction, end_transaction, validate,
}
use kaysentinel.Cse.Validator.{CseValidator, new, envelope, validate_and_advance, validate_stream}

-- Whether the payload may come where a transaction is open (or not), and whether one is open then.
abbrev pub opens : Bool → CsePayload → Bool
opens inside begin_transaction = true
opens inside end_transaction = false
opens inside _ = true

abbrev pub Fits : Bool → CsePayload → Type 0
Fits inside begin_transaction = inside ≡ false
Fits inside end_transaction = inside ≡ true
Fits inside _ = inside ≡ true

-- Every transaction is opened once and closed once, none inside another, nothing outside of them;
-- `last` says whether one is still open at the end.
abbrev pub IsBracketed : Bool → List CanonicalSemanticEvent → Bool → Type 0
IsBracketed inside [] last = inside ≡ last
IsBracketed inside (e ∷ es) last =
    Fits inside e.payload × IsBracketed (opens inside e.payload) es last

pub envelope_iff :
    (inside after : Bool) (p : CsePayload)
    → (envelope inside p ≡ ok after) ↔ (Fits inside p × (after ≡ opens inside p))
unfolding envelope
envelope_iff inside after begin_transaction = ground arith
envelope_iff inside after end_transaction = ground arith
envelope_iff inside after p = ground arith

-- What one accepted event establishes.
abbrev pub Advances : CseValidator → CanonicalSemanticEvent → CseValidator → Type 0
Advances v e w =
    (validate e ≡ ok tt)
    × (e.context.normative.sequence_number ≡ v.expected_sequence)
    × Fits v.in_transaction e.payload
    × (w.in_transaction ≡ opens v.in_transaction e.payload)
    × (w.expected_sequence ≡ (v.expected_sequence + 1) % u64_mod)

pub validate_and_advance_iff :
    (v w : CseValidator) (e : CanonicalSemanticEvent)
    → (validate_and_advance v e ≡ ok w) ↔ Advances v e w
unfolding validate_and_advance
validate_and_advance_iff v w e = ground (
  arith,
  envelope_iff v.in_transaction (opens v.in_transaction e.payload) e.payload,
  envelope_iff v.in_transaction w.in_transaction e.payload,
)

-- The sequence numbers count up from `n`, with no gap and no repetition.
abbrev pub IsSequenced : ℕ → List CanonicalSemanticEvent → Type 0
IsSequenced n [] = Unit
IsSequenced n (e ∷ es) = (e.context.normative.sequence_number ≡ n) × IsSequenced (suc n) es

-- What an accepted stream is.
abbrev pub IsAccepted : CseValidator → List CanonicalSemanticEvent → CseValidator → Type 0
IsAccepted v es w =
    All (λ e. validate e ≡ ok tt) es
    × IsSequenced v.expected_sequence es
    × IsBracketed v.in_transaction es w.in_transaction
    × (w.expected_sequence ≡ v.expected_sequence + length es)

stream-IsAccepted :
    (v w : CseValidator) (es : List CanonicalSemanticEvent)
    → v.expected_sequence + length es < u64_mod
    → validate_stream v es ≡ ok w
    → IsAccepted v es w
unfolding validate_stream
stream-IsAccepted v w [] b h = ground arith
stream-IsAccepted v w (e ∷ es) b h =
    let (u, p, q) = >>=-eq-ok (validate_and_advance v e) (λ t. validate_stream t es) h in
    let (valid, seq, fits, inside, next) = (validate_and_advance_iff v u e).0 p in
    let count : u.expected_sequence ≡ suc v.expected_sequence = omega arith in
    let (vs, ss, bs, cs) = stream-IsAccepted u w es (omega arith) q in
    (
      (valid, vs),
      (seq, subst (λ n. IsSequenced n es) count ss),
      (fits, subst (λ t. IsBracketed t es w.in_transaction) inside bs),
      omega arith,
    )

accepted_stream :
    (v w : CseValidator) (es : List CanonicalSemanticEvent)
    → v.expected_sequence + length es < u64_mod
    → IsAccepted v es w
    → validate_stream v es ≡ ok w
unfolding validate_stream
accepted_stream v w [] b h = ground arith
accepted_stream v w (e ∷ es) b h =
    let u : CseValidator = record {
      expected_sequence = suc v.expected_sequence;
      in_transaction = opens v.in_transaction e.payload;
    } in
    let p : validate_and_advance v e ≡ ok u =
      (validate_and_advance_iff v u e).1 (h.0.0, h.1.0, h.2.0, refl, omega arith) in
    rw p (accepted_stream u w es (omega arith) (h.0.1, h.1.1, h.2.1, omega arith))

-- A new validator takes a stream shorter than 2^64 to a state if and only if every event is valid
-- by itself, the sequence numbers count up from 0, the transaction boundaries are bracketed,
-- ending inside a transaction as the state says, and the state expects the length of the stream as
-- its next number.
pub validate_stream-ok_iff :
    (es : List CanonicalSemanticEvent) (w : CseValidator)
    → length es < u64_mod
    → (validate_stream new es ≡ ok w) ↔ (
        All (λ e. validate e ≡ ok tt) es
        × IsSequenced 0 es
        × IsBracketed false es w.in_transaction
        × (w.expected_sequence ≡ length es))
unfolding new
validate_stream-ok_iff es w b = (
  λ h.
      let (vs, ss, bs, cs) = stream-IsAccepted new w es (omega arith) h in
      (vs, ss, bs, omega arith),
  λ h. accepted_stream new w es (omega arith) (h.0, h.1, h.2, omega arith),
)
