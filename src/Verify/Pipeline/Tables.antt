-- ===== src/Verify/Pipeline/Tables.antt =====
-- What a reduced table says of an account, in terms of the events.
use kaysentinel.Base.{ℕ, ◌≡◌, refl, sym, subst, Option, none, some, List, [], ◌∷◌, All-imp, arith}
use kaysentinel.Base.Classes.{bytes_eq, bytes_ord}
use kaysentinel.Base.BTreeMap.{BTreeMap, get, IsSorted}
use kaysentinel.Base.BTreeMap.Values.{get_entries}
use kaysentinel.Cse.{Address, Word, CanonicalSemanticEvent}
use kaysentinel.Builder.Ir.{
  CanonicalKey, rank, key_ord, ObservedTransition, ReducedTransition, ReducedVariant,
}
use kaysentinel.Builder.Partition.Histories.{
  gather, balance_seen, nonce_seen, code_seen, storage_seen,
}
use kaysentinel.Builder.Reduce.Pipeline.{Summarises, SummaryAt}
use kaysentinel.Builder.Lifecycle.Certificate.Fields.{
  IsKeyed, variant_rank, terminal_nonce, terminal_balance, terminal_code,
}
use kaysentinel.Builder.Lifecycle.StorageRoot.Resolved.{terminal_slot}
use kaysentinel.Builder.Ir.Lineage.{summary}
use kaysentinel.Verify.Pipeline.{ending}

-- An entry that summarises a history ends where the history ends.
module _ {T : Type 0} (c : ReducedTransition T → ReducedVariant)
    (value : Option ReducedVariant → Option T) (missing : value none ≡ none)
    (reads : (t : ReducedTransition T) → value (some (c t)) ≡ some t.terminal) where
  ends :
      (h : List (ObservedTransition T)) (r : Option ReducedVariant)
      → Summarises c h r
      → value r ≡ ending h
  ends [] r s = rw s missing
  ends (o ∷ os) r s = rw s.1 (reads _)

module _ (es : List CanonicalSemanticEvent) (table : BTreeMap CanonicalKey ReducedVariant)
    (says : (k : CanonicalKey) → SummaryAt k es (get k table)) where
  pub terminal_nonce-ending :
      (a : Address) → terminal_nonce table a ≡ ending (gather (nonce_seen a) es)
  unfolding terminal_nonce
  terminal_nonce-ending a =
      ends ReducedVariant.nonce
        (λ r. elim r [ some (ReducedVariant.nonce t) ↦ some t.terminal | _ ↦ none ]) refl
        (λ t. refl) _ _ (says (CanonicalKey.nonce a))

  pub terminal_balance-ending :
      (a : Address) → terminal_balance table a ≡ ending (gather (balance_seen a) es)
  unfolding terminal_balance
  terminal_balance-ending a =
      ends ReducedVariant.balance
        (λ r. elim r [ some (ReducedVariant.balance t) ↦ some t.terminal | _ ↦ none ]) refl
        (λ t. refl) _ _ (says (CanonicalKey.balance a))

  pub terminal_code-ending :
      (a : Address) → terminal_code table a ≡ ending (gather (code_seen a) es)
  unfolding terminal_code
  terminal_code-ending a =
      ends ReducedVariant.code
        (λ r. elim r [ some (ReducedVariant.code t) ↦ some t.terminal | _ ↦ none ]) refl (λ t. refl)
        _ _ (says (CanonicalKey.code a))

  pub terminal_slot-ending :
      (a : Address) (s : Word) → terminal_slot table a s ≡ ending (gather (storage_seen a s) es)
  unfolding terminal_slot
  terminal_slot-ending a s =
      ends ReducedVariant.storage
        (λ r. elim r [ some (ReducedVariant.storage t) ↦ some t.terminal | _ ↦ none ]) refl
        (λ t. refl) _ _ (says (CanonicalKey.storage a s))

-- An entry's variant is of its key's kind.
kind_of_summary :
    {T : Type 0} (c : ReducedTransition T → ReducedVariant) (n : ℕ) (v : ReducedVariant)
    (h : List (ObservedTransition T))
    → ((t : ReducedTransition T) → variant_rank (c t) ≡ n)
    → Summarises c h (some v)
    → n ≡ variant_rank v
kind_of_summary c n v [] f s = absurd (ground (arith, s))
kind_of_summary c n v (o ∷ os) f s =
    let e : v ≡ c (summary o os) = ground (arith, s.1) in rw e (sym (f _))

key_of_summary :
    (k : CanonicalKey) (es : List CanonicalSemanticEvent) (v : ReducedVariant)
    → SummaryAt k es (some v)
    → rank k ≡ variant_rank v
key_of_summary (CanonicalKey.balance a) es v s =
    kind_of_summary ReducedVariant.balance 0 v _ (λ t. refl) s
key_of_summary (CanonicalKey.nonce a) es v s =
    kind_of_summary ReducedVariant.nonce 1 v _ (λ t. refl) s
key_of_summary (CanonicalKey.code a) es v s =
    kind_of_summary ReducedVariant.code 2 v _ (λ t. refl) s
key_of_summary (CanonicalKey.storage a t) es v s =
    kind_of_summary ReducedVariant.storage 3 v _ (λ t. refl) s
key_of_summary (CanonicalKey.transient a t) es v s =
    kind_of_summary ReducedVariant.transient 4 v _ (λ t. refl) s

pub IsKeyed-of_summaries :
    (es : List CanonicalSemanticEvent) (table : BTreeMap CanonicalKey ReducedVariant)
    → IsSorted table
    → ((k : CanonicalKey) → SummaryAt k es (get k table))
    → IsKeyed table
IsKeyed-of_summaries es table sorted says =
    All-imp (λ e h. key_of_summary e.0 es e.1 (subst (SummaryAt e.0 es) h (says e.0))) table
      (get_entries table sorted)
