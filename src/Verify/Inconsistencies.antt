-- ===== src/Verify/Inconsistencies.antt =====
-- The inconsistencies that the replay loop of `replay_and_verify` notes, in terms of the traces.
use kaysentinel.Base.{
  ◌≡◌, ◌≢◌, refl, ap, sym, ◌∙◌, Bool, true, not, ◌&&◌, Option-cases, inl, inr, some, List, [], ◌∷◌,
  ◌++◌, append-nil, append_assoc, err, arith, if◌then◌else◌,
}
use kaysentinel.Base.Classes.{Bytes, ◌==◌, nat_eq, bytes_eq, bytes_ord}
use kaysentinel.Base.BTreeMap.{get, unwrap_or}
use kaysentinel.Base.BTreeMap.Laws.{All_of_get}
use kaysentinel.Cse.{
  Address, CsePayload, balance_changed, nonce_updated, code_updated, storage_slot_updated,
}
use kaysentinel.Builder.Lifecycle.Certificate.{zero_word}
use kaysentinel.Verify.{
  ExecutionBatchReplay, Detail, previous_balance, previous_nonce, previous_code_hash,
  previous_value, ReplayError, trace_inconsistency, Replay, account, mutate, touch, replay_payload,
  replay_from, no_replay, replay_and_verify,
}
use kaysentinel.Verify.Accounts.{is_mutated, contains-replay_from, replay_from-IsReplayed}
use kaysentinel.Verify.Replayed.{last_nonce, last_balance, last_code, last_slot}
use kaysentinel.Verify.LastValues.{HoldsLast, account-HoldsLast}

abbrev pub noted : Bool → Address → Detail → List ReplayError
noted wrong a detail = if wrong then trace_inconsistency a detail ∷ [] else []

-- What is wrong with a payload after earlier ones: its account was mutated before, and its previous
-- value is not the last value that they give, zero if none does.
abbrev pub complaint : List CsePayload → CsePayload → List ReplayError
complaint past (balance_changed p) =
    noted (is_mutated p.address past && not (last_balance p.address past == p.previous_balance))
      p.address previous_balance
complaint past (nonce_updated p) =
    noted (is_mutated p.address past && not (last_nonce p.address past == p.previous_nonce))
      p.address previous_nonce
complaint past (code_updated p) =
    noted (is_mutated p.address past && not (last_code p.address past == p.previous_code_hash))
      p.address previous_code_hash
complaint past (storage_slot_updated p) =
    noted
      (is_mutated p.address past
        && not (unwrap_or zero_word (last_slot p.address p.slot past) == p.previous_value))
      p.address (previous_value p.slot)
complaint past _ = []

-- The complaints about all payloads, each after those before it.
abbrev pub complaints : List CsePayload → List CsePayload → List ReplayError
complaints past [] = []
complaints past (p ∷ ps) = complaint past p ++ complaints (past ++ p ∷ []) ps

abbrev pub inconsistencies : List CsePayload → List ReplayError
inconsistencies traces = complaints [] traces

-- After a replay, an account is touched exactly if a trace mutates it.
touched-replay_from :
    (a : Address) (ps : List CsePayload)
    → (account a (replay_from no_replay ps).state).touched ≡ is_mutated a ps
unfolding account get
touched-replay_from a ps =
    let state = (replay_from no_replay ps).state in
    let known = contains-replay_from a no_replay ps in
    elim (Option-cases (get a state)) [
      | inl e ↦ ground (arith, e, known)
      | inr (s, e) ↦
          let all =
            (replay_from-IsReplayed no_replay ps (record { sorted = tt; touched = tt })).touched in
          let t : s.touched ≡ true = All_of_get (λ x. x.1.touched ≡ true) a s state all e in
          ground (arith, e, known, t)
    ]

-- One payload adds its complaint, on a state that earlier payloads left.
complaint-replay_payload :
    (past : List CsePayload) (p : CsePayload) (r : Replay)
    → ((a : Address) → (account a r.state).touched ≡ is_mutated a past)
    → ((a : Address) → HoldsLast past a (account a r.state))
    → (replay_payload p r).trace_errors ≡ r.trace_errors ++ complaint past p
unfolding replay_payload mutate touch
complaint-replay_payload past (balance_changed p) r t h =
    ap
      (λ b.
        r.trace_errors
        ++ noted (b && not ((account p.address r.state).balance == p.previous_balance)) p.address
            previous_balance)
      (t p.address)
    ∙ ap
        (λ v.
          r.trace_errors
          ++ noted (is_mutated p.address past && not (v == p.previous_balance)) p.address
              previous_balance)
        (h p.address).balance
complaint-replay_payload past (nonce_updated p) r t h =
    ap
      (λ b.
        r.trace_errors
        ++ noted (b && not ((account p.address r.state).nonce == p.previous_nonce)) p.address
            previous_nonce)
      (t p.address)
    ∙ ap
        (λ v.
          r.trace_errors
          ++ noted (is_mutated p.address past && not (v == p.previous_nonce)) p.address
              previous_nonce)
        (h p.address).nonce
complaint-replay_payload past (code_updated p) r t h =
    ap
      (λ b.
        r.trace_errors
        ++ noted (b && not ((account p.address r.state).code_hash == p.previous_code_hash))
            p.address previous_code_hash)
      (t p.address)
    ∙ ap
        (λ v.
          r.trace_errors
          ++ noted (is_mutated p.address past && not (v == p.previous_code_hash)) p.address
              previous_code_hash)
        (h p.address).code_hash
complaint-replay_payload past (storage_slot_updated p) r t h =
    ap
      (λ b.
        r.trace_errors
        ++ noted
            (b
              && not (
                  unwrap_or zero_word (get p.slot (account p.address r.state).storage)
                  == p.previous_value))
            p.address (previous_value p.slot))
      (t p.address)
    ∙ ap
        (λ v.
          r.trace_errors
          ++ noted (is_mutated p.address past && not (unwrap_or zero_word v == p.previous_value))
              p.address (previous_value p.slot))
        ((h p.address).storage p.slot)
complaint-replay_payload past p r t h = sym (append-nil r.trace_errors)

replay_from-append :
    (r : Replay) (ps qs : List CsePayload)
    → replay_from r (ps ++ qs) ≡ replay_from (replay_from r ps) qs
unfolding replay_from
replay_from-append r [] qs = refl
replay_from-append r (p ∷ ps) qs = replay_from-append (replay_payload p r) ps qs

complaints-replay_from :
    (past ps : List CsePayload)
    → (replay_from (replay_from no_replay past) ps).trace_errors
      ≡ (replay_from no_replay past).trace_errors ++ complaints past ps
unfolding replay_from
complaints-replay_from past [] = sym (append-nil (replay_from no_replay past).trace_errors)
complaints-replay_from past (p ∷ ps) =
    let r = replay_from no_replay past in
    let next = past ++ p ∷ [] in
    let after : replay_from no_replay next ≡ replay_payload p r =
      replay_from-append no_replay past (p ∷ []) in
    let here =
      complaint-replay_payload past p r (λ a. touched-replay_from a past)
        (account-HoldsLast past) in
    ap (λ s. (replay_from s ps).trace_errors) (sym after)
    ∙ complaints-replay_from next ps
    ∙ ap (λ s. s.trace_errors ++ complaints next ps) after
    ∙ ap (λ es. es ++ complaints next ps) here
    ∙ append_assoc r.trace_errors (complaint past p) (complaints next ps)

-- The replay notes the inconsistencies of the traces, in order.
pub trace_errors-inconsistencies :
    (traces : List CsePayload)
    → (replay_from no_replay traces).trace_errors ≡ inconsistencies traces
unfolding replay_from
trace_errors-inconsistencies traces = complaints-replay_from [] traces

-- If some payload of a batch is inconsistent with those before it, the replay returns exactly the
-- inconsistencies, in the order of the payloads, whatever the certificates. A payload is
-- inconsistent if an earlier one mutates its account and its previous value is not the last value
-- (zero if there is none) that the earlier ones give the field or the slot.
pub replay_and_verify-inconsistent :
    (blake3 : Bytes → Bytes) (batch : ExecutionBatchReplay)
    → inconsistencies batch.execution_traces ≢ []
    → replay_and_verify blake3 batch ≡ some (err (inconsistencies batch.execution_traces))
unfolding replay_and_verify
replay_and_verify-inconsistent blake3 batch h =
    ground (arith, h, trace_errors-inconsistencies batch.execution_traces)
