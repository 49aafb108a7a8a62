-- ===== src/Builder/Lifecycle/Hydration/Agreement.antt =====
-- `hydrate_accounts` of lifecycle/hydration.rs and `build_canonical_certificates` of certificate.rs,
-- loop by loop.
use kaysentinel.Base.{
  ◌≡◌, refl, Option, none, some, List, [], ◌∷◌, Result, ok, err, ◌>>=◌, arith, All, inl, inr,
  Result-cases, subst, >>=-eq-ok,
}
use kaysentinel.Base.Classes.{bytes_eq, bytes_ord}
use kaysentinel.Base.BTreeMap.{
  BTreeMap, get, insert, IsSorted, map_values, update_entry, try_collect,
}
use kaysentinel.Base.BTreeMap.Laws.{insert-IsSorted, All-insert, All_of_get}
use kaysentinel.Base.BTreeMap.Values.{get-map_values, insert-map_values, insert-get}
use kaysentinel.Cse.{Address}
use kaysentinel.Builder.Ir.{CanonicalKey, key_address, ReducedVariant}
use kaysentinel.Builder.Lifecycle.Keys.{CanonicalGeneration}
use kaysentinel.Builder.Lifecycle.Certificate.{
  GenerationResolutionError, VerifiedGeneration, AccountSnapshotSource, CanonicalAccountCertificate,
  CertificateBuilder, CertificateFields, no_fields, set_field, finish_certificate, builder_for,
  gather_builders,
}
use kaysentinel.Builder.Lifecycle.Hydration.{
  HydratedAccountState, hydrate_address, hydrate_all, with_generation, gather_fields,
  certificate_of,
}

abbrev pub gens : BTreeMap Address CertificateBuilder → BTreeMap Address VerifiedGeneration
gens = map_values (λ b. b.generation)

abbrev pub flds : BTreeMap Address CertificateBuilder → BTreeMap Address CertificateFields
flds = map_values (λ b. b.fields)

ok_injective :
    {A : Type 0} {a b : A} → ◌≡◌ {A = Result GenerationResolutionError A} (ok a) (ok b) → a ≡ b
ok_injective h = cc

module _ (source : AccountSnapshotSource) (generations : List CanonicalGeneration) where
  -- The builders after one entry of the table.
  abbrev next :
      CanonicalKey
      → ReducedVariant
      → CertificateBuilder
      → BTreeMap Address CertificateBuilder
      → BTreeMap Address CertificateBuilder
  next k v b builders = insert (key_address k) (record b { fields = set_field v b.fields }) builders

  -- Where the direct builder finds or makes a builder, hydration has the same generation and fields.
  generation_next :
      (k : CanonicalKey) (v : ReducedVariant) (b : CertificateBuilder)
      (B : BTreeMap Address CertificateBuilder)
      → builder_for source generations (key_address k) B ≡ ok b
      → with_generation source generations (key_address k) (gens B) ≡ ok (gens (next k v b B))
  unfolding with_generation builder_for
  generation_next k v b B h = ground (
    arith,
    get-map_values (λ x. x.generation) (key_address k) B,
    insert-map_values (λ x. x.generation) (key_address k)
        (record b { fields = set_field v b.fields }) B,
    insert-get (key_address k) b.generation (gens B),
  )

  fields_next :
      (k : CanonicalKey) (v : ReducedVariant) (b : CertificateBuilder)
      (B : BTreeMap Address CertificateBuilder)
      → builder_for source generations (key_address k) B ≡ ok b
      → update_entry (key_address k) no_fields (set_field v) (flds B) ≡ flds (next k v b B)
  unfolding update_entry builder_for
  fields_next k v b B h = ground (
    arith,
    get-map_values (λ x. x.fields) (key_address k) B,
    insert-map_values (λ x. x.fields) (key_address k) (record b { fields = set_field v b.fields })
        B,
  )

  generation_fails :
      (k : CanonicalKey) (B : BTreeMap Address CertificateBuilder) (e : GenerationResolutionError)
      → builder_for source generations (key_address k) B ≡ err e
      → with_generation source generations (key_address k) (gens B) ≡ err e
  unfolding with_generation builder_for
  generation_fails k B e h = ground (arith, get-map_values (λ x. x.generation) (key_address k) B)

  pub gather_agree :
      (table : BTreeMap CanonicalKey ReducedVariant) (B : BTreeMap Address CertificateBuilder)
      → gather_fields source generations (gens B) (flds B) table
        ≡ (gather_builders source generations B table >>= λ C. ok (gens C, flds C))
  unfolding gather_fields gather_builders
  gather_agree [] B = refl
  gather_agree ((k, v) ∷ table) B =
      elim (Result-cases (builder_for source generations (key_address k) B)) [
        | inl (b, p) ↦
            rw (p, generation_next k v b B p, fields_next k v b B p)
              (gather_agree table (next k v b B))
        | inr (e, p) ↦ rw (p, generation_fails k B e p)
      ]

  -- The address in each builder is the key that it is stored under.
  abbrev OwnKeys : BTreeMap Address CertificateBuilder → Type 0
  OwnKeys B = All (λ e. e.1.address ≡ e.0) B

  builder_for-address :
      (a : Address) (b : CertificateBuilder) (B : BTreeMap Address CertificateBuilder)
      → OwnKeys B
      → builder_for source generations a B ≡ ok b
      → b.address ≡ a
  unfolding builder_for
  builder_for-address a b B own h = ground (arith, All_of_get (λ e. e.1.address ≡ e.0) a b B own)

  pub gather_valid :
      (table : BTreeMap CanonicalKey ReducedVariant) (B C : BTreeMap Address CertificateBuilder)
      → IsSorted B
      → OwnKeys B
      → gather_builders source generations B table ≡ ok C
      → IsSorted C × OwnKeys C
  unfolding gather_builders
  gather_valid [] B C s own h =
      (subst (λ t. IsSorted t) (ok_injective h) s, subst (λ t. OwnKeys t) (ok_injective h) own)
  gather_valid ((k, v) ∷ table) B C s own h =
      let (b, p, q) =
        >>=-eq-ok (builder_for source generations (key_address k) B)
          (λ b. gather_builders source generations (next k v b B) table) h in
      gather_valid table (next k v b B) C (insert-IsSorted _ _ B s)
        (All-insert (λ e. e.1.address ≡ e.0) _ _ B (builder_for-address _ b B own p) own) q

-- What one entry's hydration and its direct certificate have in common.
abbrev EntryAgrees :
    Address
    → Option (Result GenerationResolutionError HydratedAccountState)
    → Result GenerationResolutionError (Address × CanonicalAccountCertificate)
    → Type 0
EntryAgrees a none r = ⊥
EntryAgrees a (some (ok x)) r = (r ≡ ok (a, certificate_of x)) × (x.address ≡ a)
EntryAgrees a (some (err e)) r = r ≡ err e

module _ (source : AccountSnapshotSource) (known : BTreeMap Address VerifiedGeneration) where
  entry_agree :
      (a : Address) (b : CertificateBuilder)
      → get a known ≡ some b.generation
      → b.address ≡ a
      → EntryAgrees a (hydrate_address source known a b.fields) (finish_certificate source a b)
  unfolding hydrate_address finish_certificate
  entry_agree a b g e = ground (arith, g)

  abbrev OwnStates : BTreeMap Address HydratedAccountState → Type 0
  OwnStates h = All (λ e. e.1.address ≡ e.0) h

  -- What the hydrated states and the collected certificates have in common.
  abbrev pub CollectAgrees :
      Option (Result GenerationResolutionError (BTreeMap Address HydratedAccountState))
      → Result GenerationResolutionError (BTreeMap Address CanonicalAccountCertificate)
      → Type 0
  CollectAgrees none r = ⊥
  CollectAgrees (some (ok h)) r = (r ≡ ok (map_values certificate_of h)) × IsSorted h × OwnStates h
  CollectAgrees (some (err e)) r = r ≡ err e

  pub collect_agree :
      (m : BTreeMap Address CertificateBuilder) (acc : BTreeMap Address HydratedAccountState)
      → All (λ e. get e.0 known ≡ some e.1.generation) m
      → All (λ e. e.1.address ≡ e.0) m
      → IsSorted acc
      → OwnStates acc
      → CollectAgrees
          (hydrate_all source known acc (flds m))
          (try_collect (finish_certificate source) (map_values certificate_of acc) m)
  unfolding try_collect hydrate_all
  collect_agree [] acc g own s o = (refl, s, o)
  collect_agree ((a, b) ∷ m) acc g own s o =
      go (hydrate_address source known a b.fields) refl (entry_agree a b g.0 own.0)
        (λ acc'. collect_agree m acc' g.1 own.1)
    where
      go :
          (r : Option (Result GenerationResolutionError HydratedAccountState))
          → hydrate_address source known a b.fields ≡ r
          → EntryAgrees a r (finish_certificate source a b)
          → ((acc' : BTreeMap Address HydratedAccountState)
              → IsSorted acc'
              → OwnStates acc'
              → CollectAgrees
                  (hydrate_all source known acc' (flds m))
                  (try_collect (finish_certificate source) (map_values certificate_of acc') m))
          → CollectAgrees
              (hydrate_all source known acc (flds ((a, b) ∷ m)))
              (try_collect (finish_certificate source) (map_values certificate_of acc) ((a, b) ∷ m))
      go none p q rest = absurd q
      go (some (ok x)) p (q, own') rest =
          rw (p, q, hydrate_all, insert-map_values certificate_of a x acc)
            (rest (insert a x acc) (insert-IsSorted a x acc s)
              (All-insert (λ e. e.1.address ≡ e.0) a x acc own' o))
      go (some (err e)) p q rest = rw (p, q, hydrate_all)
