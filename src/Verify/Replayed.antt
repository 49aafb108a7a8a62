-- ===== src/Verify/Replayed.antt =====
-- What an account holds after a replay: the last value that a trace gives each of its fields.
use kaysentinel.Base.{
  ℕ, ◌≡◌, refl, ap, sym, ◌∙◌, true, Option, none, some, List, [], ◌∷◌, arith, Bool-cases, inl, inr,
  if◌then◌else◌,
}
use kaysentinel.Base.Classes.{
  ◌==◌, nat_eq, bytes_eq, bytes_ord, bytes_beq_iff, bytes_eq_of_cmp, bytes_cmp_refl,
}
use kaysentinel.Base.BTreeMap.{BTreeMap, get, insert}
use kaysentinel.Base.BTreeMap.Laws.{get-insert}
use kaysentinel.Cse.{
  Address, Word, CsePayload, balance_changed, nonce_updated, code_updated, storage_slot_updated,
  contract_created, contract_destroyed,
}
use kaysentinel.Builder.Lifecycle.Certificate.{zero_word}
use kaysentinel.Verify.{AccountState, Replay, account, mutate, touch, replay_payload}

-- One payload's effect on a field of an account.
abbrev pub next_nonce : Address → CsePayload → ℕ → ℕ
next_nonce a (nonce_updated p) n = if a == p.address then p.current_nonce else n
next_nonce a _ n = n

abbrev pub next_balance : Address → CsePayload → Word → Word
next_balance a (balance_changed p) w = if a == p.address then p.current_balance else w
next_balance a _ w = w

abbrev pub next_code : Address → CsePayload → Word → Word
next_code a (code_updated p) w = if a == p.address then p.current_code_hash else w
next_code a _ w = w

abbrev pub next_slot : Address → Word → CsePayload → Option Word → Option Word
next_slot a slot (storage_slot_updated p) w =
    if a == p.address then (if slot == p.slot then some p.current_value else w) else w
next_slot a slot _ w = w

-- The value of a field after the traces, by a fold that looks at this field alone.
module _ {T : Type 0} (next : CsePayload → T → T) where
  abbrev pub last_value : T → List CsePayload → T
  last_value t [] = t
  last_value t (p ∷ ps) = last_value (next p t) ps

abbrev pub last_nonce : Address → List CsePayload → ℕ
last_nonce a ps = last_value (next_nonce a) 0 ps

abbrev pub last_balance : Address → List CsePayload → Word
last_balance a ps = last_value (next_balance a) zero_word ps

abbrev pub last_code : Address → List CsePayload → Word
last_code a ps = last_value (next_code a) zero_word ps

abbrev pub last_slot : Address → Word → List CsePayload → Option Word
last_slot a slot ps = last_value (next_slot a slot) none ps

account-insert :
    (a k : Address) (s : AccountState) (m : BTreeMap Address AccountState)
    → account a (insert k s m) ≡ (if a == k then s else account a m)
unfolding account
account-insert a k s m =
    ground (arith, get-insert a k s m, bytes_eq_of_cmp a k, bytes_beq_iff a k, bytes_cmp_refl a)

get-insert_slot :
    (q k v : Word) (m : BTreeMap Word Word)
    → get q (insert k v m) ≡ (if q == k then some v else get q m)
get-insert_slot q k v m =
    ground (arith, get-insert q k v m, bytes_eq_of_cmp q k, bytes_beq_iff q k, bytes_cmp_refl q)

-- A field of the accounts after one of them is written.
module _ {B : Type 0} (field : AccountState → B) (a k : Address) (s : AccountState)
    (m : BTreeMap Address AccountState) where
  field-set : field (account a (insert k s m)) ≡ (if a == k then field s else field (account a m))
  field-set = elim (Bool-cases (a == k)) [
    | inl here ↦ ap field (account-insert a k s m) ∙ rw here refl
    | inr other ↦ ap field (account-insert a k s m) ∙ rw other refl
  ]

  field-keep :
      field s ≡ field (account k m) → field (account a (insert k s m)) ≡ field (account a m)
  field-keep e = elim (Bool-cases (a == k)) [
    | inl here ↦
        field-set ∙ rw here (e ∙ ap (λ x. field (account x m)) (sym ((bytes_beq_iff a k).0 here)))
    | inr other ↦ field-set ∙ rw other refl
  ]

module _ (a : Address) (r : Replay) where
  slot_written :
      (slot k t v : Word)
      → get slot
          (account a (
            insert k
              (record (account k r.state) {
                storage = insert t v (account k r.state).storage;
                touched = true;
              })
              r.state)).storage
        ≡ (if a == k
            then (if slot == t then some v else get slot (account a r.state).storage)
            else get slot (account a r.state).storage)
  slot_written slot k t v = elim (Bool-cases (a == k)) [
    | inl here ↦
        field-set (λ s. get slot s.storage) a k _ r.state
        ∙ rw here (
            get-insert_slot slot t v (account k r.state).storage
            ∙ rw ((bytes_beq_iff a k).0 here) refl)
    | inr other ↦ field-set (λ s. get slot s.storage) a k _ r.state ∙ rw other refl
  ]

  pub nonce_step :
      (p : CsePayload)
      → (account a (replay_payload p r).state).nonce ≡ next_nonce a p (account a r.state).nonce
  unfolding replay_payload mutate touch
  nonce_step (balance_changed p) = field-keep (λ s. s.nonce) a p.address _ r.state refl
  nonce_step (nonce_updated p) = field-set (λ s. s.nonce) a p.address _ r.state
  nonce_step (code_updated p) = field-keep (λ s. s.nonce) a p.address _ r.state refl
  nonce_step (storage_slot_updated p) = field-keep (λ s. s.nonce) a p.address _ r.state refl
  nonce_step (contract_created p) = field-keep (λ s. s.nonce) a p.address _ r.state refl
  nonce_step (contract_destroyed p) = field-keep (λ s. s.nonce) a p.address _ r.state refl
  nonce_step p = refl

  pub balance_step :
      (p : CsePayload)
      → (account a (replay_payload p r).state).balance
        ≡ next_balance a p (account a r.state).balance
  unfolding replay_payload mutate touch
  balance_step (balance_changed p) = field-set (λ s. s.balance) a p.address _ r.state
  balance_step (nonce_updated p) = field-keep (λ s. s.balance) a p.address _ r.state refl
  balance_step (code_updated p) = field-keep (λ s. s.balance) a p.address _ r.state refl
  balance_step (storage_slot_updated p) = field-keep (λ s. s.balance) a p.address _ r.state refl
  balance_step (contract_created p) = field-keep (λ s. s.balance) a p.address _ r.state refl
  balance_step (contract_destroyed p) = field-keep (λ s. s.balance) a p.address _ r.state refl
  balance_step p = refl

  pub code_step :
      (p : CsePayload)
      → (account a (replay_payload p r).state).code_hash
        ≡ next_code a p (account a r.state).code_hash
  unfolding replay_payload mutate touch
  code_step (balance_changed p) = field-keep (λ s. s.code_hash) a p.address _ r.state refl
  code_step (nonce_updated p) = field-keep (λ s. s.code_hash) a p.address _ r.state refl
  code_step (code_updated p) = field-set (λ s. s.code_hash) a p.address _ r.state
  code_step (storage_slot_updated p) = field-keep (λ s. s.code_hash) a p.address _ r.state refl
  code_step (contract_created p) = field-keep (λ s. s.code_hash) a p.address _ r.state refl
  code_step (contract_destroyed p) = field-keep (λ s. s.code_hash) a p.address _ r.state refl
  code_step p = refl

  pub slot_step :
      (slot : Word) (p : CsePayload)
      → get slot (account a (replay_payload p r).state).storage
        ≡ next_slot a slot p (get slot (account a r.state).storage)
  unfolding replay_payload mutate touch
  slot_step slot (storage_slot_updated p) = slot_written slot p.address p.slot p.current_value
  slot_step slot (balance_changed p) =
      field-keep (λ s. get slot s.storage) a p.address _ r.state refl
  slot_step slot (nonce_updated p) = field-keep (λ s. get slot s.storage) a p.address _ r.state refl
  slot_step slot (code_updated p) = field-keep (λ s. get slot s.storage) a p.address _ r.state refl
  slot_step slot (contract_created p) =
      field-keep (λ s. get slot s.storage) a p.address _ r.state refl
  slot_step slot (contract_destroyed p) =
      field-keep (λ s. get slot s.storage) a p.address _ r.state refl
  slot_step slot p = refl
