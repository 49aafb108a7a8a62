-- ===== src/Bridge/Output.antt =====
-- What the translation puts out: dense sequence numbers and well-formed transactions.
use kaysentinel.Base.{
  ℕ, suc, ◌+◌, ◌<◌, ◌≡◌, refl, ap, subst, Bool, true, false, not, List, [], ◌∷◌, Result, ok, err,
  is_empty, length, arith,
}
use kaysentinel.Base.Classes.{nat_eq}
use kaysentinel.Cse.{u64_mod, CanonicalSemanticEvent}
use kaysentinel.Cse.Validator.Laws.{IsBracketed, IsSequenced, opens}
use kaysentinel.Bridge.Wire.{
  GoEvent, block_start, transaction_start, frame_enter, frame_exit, transaction_end, block_commit,
  balance_mutation, nonce_mutation, code_mutation, storage_mutation, account_created, self_destruct,
}
use kaysentinel.Bridge.Translate.{
  BridgeError, BridgeConfig, Translation, make_event, boundary_event, step, steps, renumber,
  initial, translate,
}
use kaysentinel.Bridge.Envelope.{
  IsEnveloped, IsTxOutput, Post-fail_if, mutation_step, exit_step, Post-bind, IsBracketed-append,
  Post,
}

-- Every event keeps the envelope.
step_keeps :
    (config : BridgeConfig) (i : ℕ) (e : GoEvent) (s : Translation)
    → IsEnveloped s
    → Post IsEnveloped (step config i e s)
unfolding step boundary_event make_event
step_keeps config i (block_start d) s v = record {
  done = v.done;
  current = v.current;
  buffers = v.buffers;
}
step_keeps config i block_commit s v = v
step_keeps config i (transaction_start d) s v =
    Post-fail_if IsEnveloped s.tx_open _ _
      (λ shut. record { done = v.done; current = (refl, refl); buffers = tt })
step_keeps config i (transaction_end d) s v =
    Post-fail_if IsEnveloped (not s.tx_open) _ _ (λ is_open.
      let opened : s.tx_open ≡ true = ground (arith, is_open) in
      Post-fail_if IsEnveloped (not (is_empty s.frame_stack)) _ _ (λ balanced. record {
        done = IsBracketed-append false false false s.final_output _ v.done (
            IsBracketed-append false true false s.tx_output _
              (subst (λ b. IsTxOutput b s.tx_output) opened v.current) (refl, refl));
        current = tt;
        buffers = v.buffers;
      }))
step_keeps config i (frame_enter d) s v =
    Post-fail_if IsEnveloped (not s.tx_open) _ _
      (λ is_open. record { done = v.done; current = v.current; buffers = (tt, v.buffers) })
step_keeps config i (frame_exit d) s v =
    Post-fail_if IsEnveloped (not s.tx_open) _ _
      (λ is_open. exit_step i d s.frame_stack s v.buffers v)
step_keeps config i (balance_mutation d) s v = mutation_step config d.frame_id _ s refl v
step_keeps config i (nonce_mutation d) s v = mutation_step config d.frame_id _ s refl v
step_keeps config i (code_mutation d) s v = mutation_step config d.frame_id _ s refl v
step_keeps config i (storage_mutation d) s v = mutation_step config d.frame_id _ s refl v
step_keeps config i (account_created d) s v = mutation_step config d.frame_id _ s refl v
step_keeps config i (self_destruct d) s v = mutation_step config d.frame_id _ s refl v

steps_keep :
    (config : BridgeConfig) (i : ℕ) (es : List GoEvent) (s : Translation)
    → IsEnveloped s
    → Post IsEnveloped (steps config i es s)
unfolding steps
steps_keep config i [] s v = v
steps_keep config i (e ∷ es) s v =
    Post-bind IsEnveloped IsEnveloped (step config i e s) _ (step_keeps config i e s v)
      (λ t w. steps_keep config (suc i) es t w)

renumber-IsBracketed :
    (n : ℕ) (b c : Bool) (es : List CanonicalSemanticEvent)
    → IsBracketed b es c
    → IsBracketed b (renumber n es) c
unfolding renumber
renumber-IsBracketed n b c [] h = h
renumber-IsBracketed n b c (e ∷ es) h =
    (h.0, renumber-IsBracketed (suc n) (opens b e.payload) c es h.1)

renumber-IsSequenced :
    (n : ℕ) (es : List CanonicalSemanticEvent)
    → n + length es < u64_mod
    → IsSequenced n (renumber n es)
unfolding renumber
renumber-IsSequenced n [] h = tt
renumber-IsSequenced n (e ∷ es) h = (omega arith, renumber-IsSequenced (suc n) es (omega arith))

length-renumber : (n : ℕ) (es : List CanonicalSemanticEvent) → length (renumber n es) ≡ length es
unfolding renumber
length-renumber n [] = refl
length-renumber n (e ∷ es) = ap suc (length-renumber (suc n) es)

post_ok :
    {A : Type 0} (P : A → Type 0) (m : Result BridgeError A) (a : A) → Post P m → m ≡ ok a → P a
post_ok P (ok b) a p h = subst P (cc h) p
post_ok P (err e) a p h = cc

-- Whatever stream translates, to fewer than 2^64 events, the output has the sequence numbers from
-- 0 on and bracketed transaction boundaries, with every other event inside a transaction.
pub translate-IsBracketed :
    (events : List GoEvent) (config : BridgeConfig) (out : List CanonicalSemanticEvent)
    → translate events config ≡ ok out
    → length out < u64_mod
    → IsSequenced 0 out × IsBracketed false out false
unfolding translate
translate-IsBracketed events config out h small =
    post_ok (λ o. length o < u64_mod → IsSequenced 0 o × IsBracketed false o false)
      (translate events config) out
      (Post-bind IsEnveloped _ (steps config 0 events initial) _
        (steps_keep config 0 events initial (record { done = refl; current = tt; buffers = tt }))
        (λ s v. Post-fail_if _ s.tx_open _ _ (λ shut b. (
          renumber-IsSequenced 0 s.final_output
              (omega (arith, b, length-renumber 0 s.final_output)),
          renumber-IsBracketed 0 false false s.final_output v.done,
        ))))
      h small
