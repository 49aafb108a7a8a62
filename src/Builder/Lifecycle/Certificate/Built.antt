-- ===== src/Builder/Lifecycle/Certificate/Built.antt =====
-- Where the certificates of the direct builder come from.
use kaysentinel.Base.{◌≡◌, true, false, Option, none, some, List, [], ok, >>=-eq-ok, inl, inr}
use kaysentinel.Base.Classes.{bytes_eq, bytes_ord}
use kaysentinel.Base.BTreeMap.{BTreeMap, get, IsSorted, try_collect}
use kaysentinel.Base.BTreeMap.Collect.{get-try_collect, try_collect-IsSorted}
use kaysentinel.Cse.{Address}
use kaysentinel.Builder.Ir.{CanonicalKey, key_ord, ReducedVariant}
use kaysentinel.Builder.Lifecycle.Keys.{CanonicalGeneration}
use kaysentinel.Builder.Lifecycle.Certificate.{
  VerifiedGeneration, AccountSnapshotSource, awaiting_derivation, CanonicalAccountCertificate,
  no_fields, CertificateBuilder, finish_certificate, generation_of, gather_builders,
  build_canonical_certificates,
}
use kaysentinel.Builder.Lifecycle.Certificate.Fields.{
  IsKeyed, is_projected, terminal_nonce, terminal_balance, terminal_code, fields_from,
}
use kaysentinel.Builder.Lifecycle.Certificate.Gathered.{gather_builders-get}
use kaysentinel.Builder.Lifecycle.Certificate.Finished.{
  IsTakenFrom, from_table, finish_certificate-parts, finish_fields,
}
use kaysentinel.Builder.Lifecycle.Hydration.Agreement.{gather_valid}

module _ (source : AccountSnapshotSource) (generations : List CanonicalGeneration) where
  -- A certificate of an account, with its fields from the table, its generation, and no root yet.
  pub record IsBuiltFrom (table : BTreeMap CanonicalKey ReducedVariant) (a : Address)
      (c : CanonicalAccountCertificate) : Type 0 where
    pub address : c.address ≡ a
    pub generation : generation_of source generations a ≡ ok c.generation
    pub nonce :
        IsTakenFrom
          (terminal_nonce table a)
          (source.recover_account_snapshot a)
          (λ s. s.nonce)
          c.nonce
    pub balance :
        IsTakenFrom
          (terminal_balance table a)
          (source.recover_account_snapshot a)
          (λ s. s.balance)
          c.balance
    pub code_hash :
        IsTakenFrom
          (terminal_code table a)
          (source.recover_account_snapshot a)
          (λ s. s.code_hash)
          c.code_hash
    pub storage_root : c.storage_root ≡ awaiting_derivation

  module _ (table : BTreeMap CanonicalKey ReducedVariant) (sorted : IsSorted table)
      (keyed : IsKeyed table) (a : Address) where
    IsBuiltFrom-finish :
        (g : VerifiedGeneration) (c : CanonicalAccountCertificate)
        → generation_of source generations a ≡ ok g
        → finish_certificate source a
            (record { address = a; generation = g; fields = fields_from a no_fields table })
          ≡ ok (a, c)
        → IsBuiltFrom table a c
    IsBuiltFrom-finish g c resolved h =
        let b : CertificateBuilder = record {
          address = a;
          generation = g;
          fields = fields_from a no_fields table;
        } in
        let (key, own, gen, root) = finish_certificate-parts source a b (a, c) h in
        let (n, w, k) = finish_fields source table sorted keyed a g (a, c) h in
        record {
          address = own;
          generation = rw gen resolved;
          nonce = from_table _ _ (terminal_nonce table a) c.nonce n;
          balance = from_table _ _ (terminal_balance table a) c.balance w;
          code_hash = from_table _ _ (terminal_code table a) c.code_hash k;
          storage_root = root;
        }

  -- What the certificates of a table hold at an account.
  abbrev pub BuildsAt :
      BTreeMap CanonicalKey ReducedVariant → Address → Option CanonicalAccountCertificate → Type 0
  BuildsAt table a none = is_projected a table ≡ false
  BuildsAt table a (some c) = (is_projected a table ≡ true) × IsBuiltFrom table a c

  finish-own :
      (a : Address) (b : CertificateBuilder) (x : Address × CanonicalAccountCertificate)
      → finish_certificate source a b ≡ ok x
      → x.0 ≡ a
  finish-own a b x h = (finish_certificate-parts source a b x h).0

  -- Certificates that are built from a sorted table whose entries have the variants of their keys
  -- ascend by address and are there for exactly the accounts of the table's keys. Each has its own
  -- address, the generation that the address resolves to, a storage root that awaits its
  -- derivation, and as nonce, balance and code hash the terminal value of the table where it has
  -- one; where it has none, the value of the account's snapshot, which was recovered.
  pub build_canonical_certificates-each :
      (table : BTreeMap CanonicalKey ReducedVariant)
      (certificates : BTreeMap Address CanonicalAccountCertificate)
      → IsSorted table
      → IsKeyed table
      → build_canonical_certificates source generations table ≡ ok certificates
      → IsSorted certificates × ((a : Address) → BuildsAt table a (get a certificates))
  unfolding build_canonical_certificates get
  build_canonical_certificates-each table certificates s e h =
      let (C, p, q) =
        >>=-eq-ok (gather_builders source generations [] table)
          (λ C. try_collect (finish_certificate source) [] C) h in
      let (sorted, own) = gather_valid source generations table [] C tt tt p in
      (
        try_collect-IsSorted (finish_certificate source) finish-own [] C certificates tt q,
        λ a.
            let col =
              get-try_collect (finish_certificate source) finish-own a [] C certificates sorted q in
            elim (gather_builders-get source generations a table [] C p) [
              | inl (absent, none_there) ↦ rw (rw none_there at col) absent
              | inr (present, (g, resolved, there)) ↦
                  let (c, finished, reads) = rw there at col in
                  rw reads (present, IsBuiltFrom-finish table s e a g c resolved finished)
            ],
      )
