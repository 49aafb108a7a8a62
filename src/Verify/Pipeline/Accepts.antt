-- ===== src/Verify/Pipeline/Accepts.antt =====
-- When the replay accepts the certificates that the builder makes of the same stream.
use kaysentinel.Base.{◌≡◌, ◌↔◌, sym, subst, ◌∙◌, true, some, List, [], ◌∷◌, ok}
use kaysentinel.Base.Classes.{Bytes, bytes_eq, bytes_ord}
use kaysentinel.Base.BTreeMap.{BTreeMap, map_entries, values}
use kaysentinel.Cse.{Address, CanonicalSemanticEvent}
use kaysentinel.Builder.Ir.{key_ord, RawIr, ReducedIr, ReducedTransactionBucket}
use kaysentinel.Builder.Partition
use kaysentinel.Builder.Reduce
use kaysentinel.Builder.Lifecycle.Keys.{CanonicalGeneration}
use kaysentinel.Builder.Lifecycle.Certificate.{
  AccountSnapshotSource, CanonicalAccountCertificate, build_canonical_certificates,
}
use kaysentinel.Builder.Lifecycle.Certificate.Built.{build_canonical_certificates-each}
use kaysentinel.Builder.Lifecycle.StorageRoot.{derive, resolve_storage_roots}
use kaysentinel.Builder.Lifecycle.StorageRoot.Resolved.{resolve_storage_roots-each}
use kaysentinel.Verify.{replay_from, no_replay, replay_and_verify}
use kaysentinel.Verify.Acceptance.{AgreesWith, replay_and_verify-ok_iff}
use kaysentinel.Verify.Inconsistencies.{inconsistencies, trace_errors-inconsistencies}
use kaysentinel.Verify.Pipeline.{payloads, any_event, replays, projects}
use kaysentinel.Verify.Pipeline.Tables.{IsKeyed-of_summaries}
use kaysentinel.Verify.Pipeline.Streams.{one_bucket}
use kaysentinel.Verify.Pipeline.Agrees.{StartsFresh, with_tree_root, agrees}

-- The replay accepts the certificates of the stream: its payloads are consistent; the accounts whose state
-- or lifecycle it changes are those whose state or transient storage it changes; and they start fresh.
pub record IsReplayable (source : AccountSnapshotSource) (es : List CanonicalSemanticEvent)
    : Type 0 where
  pub consistent : inconsistencies (payloads es) ≡ []
  pub accounts : (a : Address) → any_event (replays a) es ≡ any_event (projects a) es
  pub fresh : (a : Address) → any_event (projects a) es ≡ true → StartsFresh source es a

-- For a stream that partitions and reduces to one transaction, whose certificates are built and
-- have their storage roots resolved with the simple deriver: the replay of its payloads accepts
-- these certificates if and only if three things hold. No payload has a previous value that
-- differs from the last one (zero if there is none) that earlier payloads give the field, where
-- one of these mutates the account. For every account, some event updates its state or changes its
-- lifecycle exactly if some event updates its state or writes its transient storage. And of every
-- account with an event of the latter kind, a snapshot that the source recovers has zero for the
-- nonce, the balance and the code hash, each as far as no event updates it.
pub replay_and_verify-pipeline :
    (blake3 : Bytes → Bytes) (source : AccountSnapshotSource)
    (generations : List CanonicalGeneration) (es : List CanonicalSemanticEvent) (raw : RawIr)
    (red : ReducedIr) (r : ReducedTransactionBucket)
    (certificates finished : BTreeMap Address CanonicalAccountCertificate)
    → Partition.process es ≡ ok raw
    → Reduce.process raw ≡ ok red
    → red.buckets ≡ r ∷ []
    → build_canonical_certificates source generations r.state_table ≡ ok certificates
    → resolve_storage_roots certificates r.state_table (derive blake3) ≡ some (ok finished)
    → (replay_and_verify blake3
          (record { account_certificates = values finished; execution_traces = payloads es })
        ≡ some (ok tt))
      ↔ IsReplayable source es
replay_and_verify-pipeline blake3 source generations es raw red r certificates finished p q one b
      f =
    let (sorted, says) = one_bucket es raw red r p q one in
    let table = r.state_table in
    let (ordered, built) =
      build_canonical_certificates-each source generations table certificates sorted
        (IsKeyed-of_summaries es table sorted says) b in
    let made : map_entries (with_tree_root blake3 source generations es table sorted says)
          certificates
        ≡ finished =
      cc (f, resolve_storage_roots-each blake3 certificates table) in
    let noted = trace_errors-inconsistencies (payloads es) in
    let v =
      replay_and_verify-ok_iff blake3
        (record { account_certificates = values finished; execution_traces = payloads es }) in
    let a = agrees blake3 source generations es table sorted says certificates ordered built in
    let here = λ (x : BTreeMap Address CanonicalAccountCertificate).
      AgreesWith blake3 (replay_from no_replay (payloads es)).state (values x) in
    (
      λ h.
          let (clean, agreed) = v.0 h in
          let (accounts, fresh) = a.0 (subst here (sym made) agreed) in
          record { consistent = sym noted ∙ clean; accounts = accounts; fresh = fresh },
      λ h. v.1 (noted ∙ h.consistent, subst here made (a.1 (h.accounts, h.fresh))),
    )
