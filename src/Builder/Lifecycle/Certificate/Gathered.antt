-- ===== src/Builder/Lifecycle/Certificate/Gathered.antt =====
-- What the loop over the state table gathers for each account.
use kaysentinel.Base.{
  ◌≡◌, ◌≢◌, refl, subst, true, false, Option, none, some, List, [], ◌∷◌, ok, >>=-eq-ok, arith,
  Bool-cases, Option-cases, Result-cases, inl, inr, ◌⊎◌,
}
use kaysentinel.Base.Classes.{◌==◌, bytes_eq, bytes_ord, bytes_beq_iff}
use kaysentinel.Base.BTreeMap.{BTreeMap, get, insert}
use kaysentinel.Base.BTreeMap.Laws.{get-insert_self, get-insert_ne}
use kaysentinel.Cse.{Address}
use kaysentinel.Builder.Ir.{CanonicalKey, key_address, key_ord, ReducedVariant}
use kaysentinel.Builder.Lifecycle.Keys.{CanonicalGeneration}
use kaysentinel.Builder.Lifecycle.Certificate.{
  VerifiedGeneration, AccountSnapshotSource, no_fields, CertificateBuilder, set_field,
  generation_of, builder_for, gather_builders,
}
use kaysentinel.Builder.Lifecycle.Certificate.Fields.{is_projected, fields_from}

module _ (source : AccountSnapshotSource) (generations : List CanonicalGeneration) where
  -- The builder of an account after the table, from the one before it.
  abbrev pub Gathers :
      Address
      → Option CertificateBuilder
      → BTreeMap CanonicalKey ReducedVariant
      → Option CertificateBuilder
      → Type 0
  Gathers a (some b) table o = o ≡ some (record b { fields = fields_from a b.fields table })
  Gathers a none table o =
      ((is_projected a table ≡ false) × (o ≡ none))
      ⊎ ((is_projected a table ≡ true)
          × ((g : VerifiedGeneration) × (generation_of source generations a ≡ ok g)
              × (o
                  ≡ some (record {
                    address = a;
                    generation = g;
                    fields = fields_from a no_fields table;
                  }))))

  builder_for-cases :
      (a : Address) (b : CertificateBuilder) (B : BTreeMap Address CertificateBuilder)
      → builder_for source generations a B ≡ ok b
      → (get a B ≡ some b)
        ⊎ ((get a B ≡ none)
            × ((g : VerifiedGeneration) × (generation_of source generations a ≡ ok g)
                × (b ≡ record { address = a; generation = g; fields = no_fields })))
  unfolding builder_for
  builder_for-cases a b B h = elim (Option-cases (get a B)) [
    | inr (x, p) ↦ inl (ground (arith, h, p))
    | inl p ↦ elim (Result-cases (generation_of source generations a)) [
      | inl (g, q) ↦ inr (p, (g, q, ground (arith, h, p, q)))
      | inr (e, q) ↦ absurd (ground (arith, h, p, q))
    ]
  ]

  Gathers-nil : (a : Address) (o : Option CertificateBuilder) → Gathers a o [] o
  unfolding fields_from
  Gathers-nil a none = inl (refl, refl)
  Gathers-nil a (some b) = refl

  Gathers-other :
      (a : Address) (k : CanonicalKey) (v : ReducedVariant)
      (table : BTreeMap CanonicalKey ReducedVariant) (o o' : Option CertificateBuilder)
      → (key_address k == a) ≡ false
      → Gathers a o table o'
      → Gathers a o ((k, v) ∷ table) o'
  unfolding fields_from
  Gathers-other a k v table none o' other h = rw other h
  Gathers-other a k v table (some b) o' other h = rw other h

  Gathers-same :
      (a : Address) (k : CanonicalKey) (v : ReducedVariant) (b : CertificateBuilder)
      (table : BTreeMap CanonicalKey ReducedVariant) (B : BTreeMap Address CertificateBuilder)
      (o' : Option CertificateBuilder)
      → (key_address k == a) ≡ true
      → builder_for source generations a B ≡ ok b
      → Gathers a (some (record b { fields = set_field v b.fields })) table o'
      → Gathers a (get a B) ((k, v) ∷ table) o'
  unfolding fields_from get
  Gathers-same a k v b table B o' same p h = elim (builder_for-cases a b B p) [
    | inl there ↦ rw (there, same) h
    | inr (absent, (g, resolved, made)) ↦
        rw (absent, same) (inr (refl, (g, resolved, rw made at h)))
  ]

  pub gather_builders-get :
      (a : Address) (table : BTreeMap CanonicalKey ReducedVariant)
      (B C : BTreeMap Address CertificateBuilder)
      → gather_builders source generations B table ≡ ok C
      → Gathers a (get a B) table (get a C)
  unfolding gather_builders
  gather_builders-get a [] B C h =
      let e : B ≡ C = cc h in
      subst (λ X. Gathers a (get a B) [] (get a X)) e (Gathers-nil a (get a B))
  gather_builders-get a ((k, v) ∷ table) B C h =
      let (b, p, q) =
        >>=-eq-ok (builder_for source generations (key_address k) B)
          (λ b.
            gather_builders source generations
              (insert (key_address k) (record b { fields = set_field v b.fields }) B) table)
          h in
      let b' = record b { fields = set_field v b.fields } in
      let ih = gather_builders-get a table (insert (key_address k) b' B) C q in
      elim (Bool-cases (key_address k == a)) [
        | inr other ↦
            let ne : a ≢ key_address k =
              λ e. ground (arith, other, e, bytes_beq_iff (key_address k) a) in
            Gathers-other a k v table (get a B) (get a C) other
              (rw (get-insert_ne a (key_address k) b' B ne) at ih)
        | inl same ↦
            let e : key_address k ≡ a = (bytes_beq_iff (key_address k) a).0 same in
            Gathers-same a k v b table B (get a C) same (rw e at p)
              (rw (e, get-insert_self a b' B) at ih)
      ]
