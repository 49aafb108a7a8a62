-- ===== src/Verify/Pipeline/Agrees.antt =====
-- Whether the replayed accounts of a stream agree with the resolved certificates of its table.
use kaysentinel.Base.{
  ◌≡◌, ◌↔◌, refl, ap, sym, ◌∙◌, subst, true, Option, none, some, List, All, All-imp, arith,
}
use kaysentinel.Base.Classes.{Bytes, bytes_eq, bytes_ord}
use kaysentinel.Base.BTreeMap.{BTreeMap, get, contains_key, is_some, IsSorted, map_entries, values}
use kaysentinel.Base.BTreeMap.Laws.{All_of_get}
use kaysentinel.Base.BTreeMap.Values.{get_entries}
use kaysentinel.Base.BTreeMap.Collect.{eq_of_get}
use kaysentinel.Cse.{Address, CanonicalSemanticEvent}
use kaysentinel.Builder.Ir.{CanonicalKey, key_ord, ReducedVariant}
use kaysentinel.Builder.Partition.Histories.{gather, balance_seen, nonce_seen, code_seen}
use kaysentinel.Builder.Reduce.Pipeline.{SummaryAt}
use kaysentinel.Builder.Lifecycle.Keys.{CanonicalGeneration}
use kaysentinel.Builder.Lifecycle.Certificate.{
  AccountSnapshotSource, CanonicalAccountCertificate, verified_root, zero_word,
}
use kaysentinel.Builder.Lifecycle.Certificate.Fields.{is_projected}
use kaysentinel.Builder.Lifecycle.Certificate.Finished.{IsTakenFrom}
use kaysentinel.Builder.Lifecycle.Certificate.Built.{IsBuiltFrom, BuildsAt}
use kaysentinel.Builder.Lifecycle.StorageRoot.{with_root}
use kaysentinel.Builder.Lifecycle.StorageRoot.Resolved.{
  storage_tree_root, slots_of, slots_of-terminal,
}
use kaysentinel.Verify.{AccountState, account, replay_from, no_replay}
use kaysentinel.Verify.Accounts.{is_certified, contains-replay_from}
use kaysentinel.Verify.LastValues.{HoldsLast, account-HoldsLast}
use kaysentinel.Verify.Soundness.{Certifies}
use kaysentinel.Verify.Acceptance.{CertifiesIn, AgreesWith}
use kaysentinel.Verify.Pipeline.{payloads, ending, any_event, replays, projects}
use kaysentinel.Verify.Pipeline.Endings.{
  last_nonce-ending, last_balance-ending, last_code-ending, last_slot-ending,
}
use kaysentinel.Verify.Pipeline.Touched.{is_mutated-any, is_projected-any}
use kaysentinel.Verify.Pipeline.Slots.{replay_from-HasSortedStorage, slots_of-IsSorted}
use kaysentinel.Verify.Pipeline.Tables.{
  terminal_nonce-ending, terminal_balance-ending, terminal_code-ending, terminal_slot-ending,
}
use kaysentinel.Verify.Pipeline.Certified.{IsFresh, agrees_iff, All-values, is_certified-values}

-- Where the events leave a field of the account alone, its snapshots have the default there, from which
-- the replay starts.
pub record StartsFresh (source : AccountSnapshotSource) (es : List CanonicalSemanticEvent)
    (a : Address) : Type 0 where
  pub nonce :
      IsFresh
        (ending (gather (nonce_seen a) es))
        (source.recover_account_snapshot a)
        (λ s. s.nonce)
        0
  pub balance :
      IsFresh
        (ending (gather (balance_seen a) es))
        (source.recover_account_snapshot a)
        (λ s. s.balance)
        zero_word
  pub code_hash :
      IsFresh
        (ending (gather (code_seen a) es))
        (source.recover_account_snapshot a)
        (λ s. s.code_hash)
        zero_word

module _ (blake3 : Bytes → Bytes) (source : AccountSnapshotSource)
    (generations : List CanonicalGeneration) (es : List CanonicalSemanticEvent)
    (table : BTreeMap CanonicalKey ReducedVariant) (sorted : IsSorted table)
    (says : (k : CanonicalKey) → SummaryAt k es (get k table)) where
  abbrev pub replayed : BTreeMap Address AccountState
  replayed = (replay_from no_replay (payloads es)).state

  same_slots :
      (a : Address) (d : AccountState)
      → get a replayed ≡ some d
      → HoldsLast (payloads es) a d
      → d.storage ≡ slots_of table a
  same_slots a d there holds =
      eq_of_get d.storage (slots_of table a)
        (All_of_get (λ e. IsSorted e.1.storage) a d replayed
          (replay_from-HasSortedStorage no_replay (payloads es) tt) there)
        (slots_of-IsSorted table a)
        (λ s.
          holds.storage s
          ∙ last_slot-ending a s es
          ∙ sym (terminal_slot-ending es table says a s)
          ∙ sym (slots_of-terminal a s table sorted))

  -- The resolved certificate of an account fits the replayed account exactly if it starts fresh.
  Certifies-iff :
      (a : Address) (c : CanonicalAccountCertificate) (d : AccountState)
      → IsBuiltFrom source generations table a c
      → get a replayed ≡ some d
      → HoldsLast (payloads es) a d
      → Certifies blake3 (with_root (storage_tree_root blake3 (slots_of table a)) c) d
        ↔ StartsFresh source es a
  Certifies-iff a c d b there holds =
      let r = source.recover_account_snapshot a in
      let n =
        agrees_iff r (λ s. s.nonce) 0 c.nonce d.nonce (ending (gather (nonce_seen a) es))
          (holds.nonce ∙ last_nonce-ending a es)
          (subst (λ o. IsTakenFrom o r (λ s. s.nonce) c.nonce)
            (terminal_nonce-ending es table says a) b.nonce) in
      let w =
        agrees_iff r (λ s. s.balance) zero_word c.balance d.balance
          (ending (gather (balance_seen a) es)) (holds.balance ∙ last_balance-ending a es)
          (subst (λ o. IsTakenFrom o r (λ s. s.balance) c.balance)
            (terminal_balance-ending es table says a) b.balance) in
      let k =
        agrees_iff r (λ s. s.code_hash) zero_word c.code_hash d.code_hash
          (ending (gather (code_seen a) es)) (holds.code_hash ∙ last_code-ending a es)
          (subst (λ o. IsTakenFrom o r (λ s. s.code_hash) c.code_hash)
            (terminal_code-ending es table says a) b.code_hash) in
      (
        λ v. record { nonce = n.0 v.nonce; balance = w.0 v.balance; code_hash = k.0 v.code_hash },
        λ f. record {
          nonce = n.1 f.nonce;
          balance = w.1 f.balance;
          code_hash = k.1 f.code_hash;
          storage_root =
              ap (λ m. verified_root (storage_tree_root blake3 m))
                (sym (same_slots a d there holds));
        },
      )

  holds_of :
      (a : Address) (d : AccountState) → get a replayed ≡ some d → HoldsLast (payloads es) a d
  unfolding account
  holds_of a d there =
      let same : account a replayed ≡ d = rw there refl in
      subst (HoldsLast (payloads es) a) same (account-HoldsLast (payloads es) a)

  followed : (a : Address) → contains_key a replayed ≡ any_event (replays a) es
  unfolding get
  followed a = ground (arith, contains-replay_from a no_replay (payloads es), is_mutated-any a es)

  abbrev pub with_tree_root : Address → CanonicalAccountCertificate → CanonicalAccountCertificate
  with_tree_root a c = with_root (storage_tree_root blake3 (slots_of table a)) c

  module _ (certificates : BTreeMap Address CanonicalAccountCertificate)
      (ordered : IsSorted certificates)
      (built : (a : Address) → BuildsAt source generations table a (get a certificates)) where
    built_at :
        (a : Address) (c : CanonicalAccountCertificate)
        → get a certificates ≡ some c
        → (is_projected a table ≡ true) × IsBuiltFrom source generations table a c
    built_at a c e = subst (BuildsAt source generations table a) e (built a)

    All-built :
        All
          (λ e. (is_projected e.0 table ≡ true) × IsBuiltFrom source generations table e.0 e.1)
          certificates
    All-built = All-imp (λ e h. built_at e.0 e.1 h) certificates (get_entries certificates ordered)

    abbrev pub resolved : List CanonicalAccountCertificate
    resolved = values (map_entries with_tree_root certificates)

    certified : (a : Address) → is_certified a resolved ≡ any_event (projects a) es
    certified a =
        is_certified-values with_tree_root a certificates ordered
          (All-imp (λ e h. h.1.address) certificates All-built)
        ∙ present (get a certificates) (built a)
        ∙ is_projected-any a es table sorted says
      where
        present :
            (o : Option CanonicalAccountCertificate)
            → BuildsAt source generations table a o
            → is_some o ≡ is_projected a table
        present none h = sym h
        present (some c) h = sym h.0

    fresh_of :
        All (CertifiesIn blake3 replayed) resolved
        → (a : Address) → any_event (projects a) es ≡ true
        → StartsFresh source es a
    fresh_of all a e = of (get a certificates) refl
      where
        of :
            (o : Option CanonicalAccountCertificate)
            → get a certificates ≡ o
            → StartsFresh source es a
        of none q =
            let absent = subst (BuildsAt source generations table a) q (built a) in
            absurd (ground (arith, absent, e, is_projected-any a es table sorted says))
        of (some c) q =
            let (d, there, v) =
              All_of_get (λ x. CertifiesIn blake3 replayed (with_tree_root x.0 x.1)) a c
                certificates
                ((All-values (CertifiesIn blake3 replayed) with_tree_root certificates).0 all) q in
            let b = (built_at a c q).1 in
            let there' : get a replayed ≡ some d = rw b.address at there in
            (Certifies-iff a c d b there' (holds_of a d there')).0 v

    certifies_of :
        (a : Address) (c : CanonicalAccountCertificate)
        → any_event (replays a) es ≡ any_event (projects a) es
        → (any_event (projects a) es ≡ true → StartsFresh source es a)
        → (is_projected a table ≡ true) × IsBuiltFrom source generations table a c
        → CertifiesIn blake3 replayed (with_tree_root a c)
    certifies_of a c same fresh (present, b) = of (get a replayed) refl
      where
        of :
            (o : Option AccountState)
            → get a replayed ≡ o
            → CertifiesIn blake3 replayed (with_tree_root a c)
        of none q =
            absurd (
              ground (arith, q, same, followed a, present, is_projected-any a es table sorted says))
        of (some d) q =
            let seen : any_event (projects a) es ≡ true =
              sym (is_projected-any a es table sorted says) ∙ present in
            (d, rw b.address q, (Certifies-iff a c d b q (holds_of a d q)).1 (fresh seen))

    pub agrees : AgreesWith blake3 replayed resolved ↔ (
        ((a : Address) → any_event (replays a) es ≡ any_event (projects a) es)
        × ((a : Address) → any_event (projects a) es ≡ true → StartsFresh source es a))
    agrees = (
      λ h. (λ a. sym (followed a) ∙ h.0 a ∙ certified a, fresh_of h.1),
      λ h. (
        λ a. followed a ∙ h.0 a ∙ sym (certified a),
        (All-values (CertifiesIn blake3 replayed) with_tree_root certificates).1
            (All-imp (λ e x. certifies_of e.0 e.1 (h.0 e.0) (h.1 e.0) x) certificates All-built),
      ),
    )
