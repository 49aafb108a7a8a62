-- ===== src/Verify/Reports.antt =====
-- The errors of `replay_and_verify` behind its replay loop: the set differences and the certificates.
use kaysentinel.Base.{
  ◌≡◌, ◌↔◌, inl, inr, refl, ap, ◌∙◌, subst, true, false, Bool-cases, Option, none, some,
  Option-cases, List, [], ◌∷◌, ◌++◌, All, All-imp, arith,
}
use kaysentinel.Base.Classes.{Bytes, bytes_eq, bytes_ord}
use kaysentinel.Base.Members.{IsIn, IsIn-append_to}
use kaysentinel.Base.BTreeMap.{BTreeMap, get, contains_key, is_some, keys}
use kaysentinel.Base.BTreeMap.Laws.{All_of_get}
use kaysentinel.Cse.{Address}
use kaysentinel.Builder.Lifecycle.Certificate.{CanonicalAccountCertificate}
use kaysentinel.Verify.{
  ReplayError, AccountState, difference_errors, verify_certificate, verify_certificates, account,
}
use kaysentinel.Verify.Mismatches.{
  certificate_errors, compare_root-eq, IsFault, IsIn-certificate_errors,
}

abbrev pub Addresses : Type 0
Addresses = BTreeMap Address (Unit {0})

-- The keys of a sorted set are what it contains.
All-keys : (s : Addresses) → All (λ e. IsIn e.0 (keys s)) s
All-keys [] = tt
All-keys (e ∷ s) = (inl refl, All-imp (λ x h. inr h) s (All-keys s))

pub key_of_contains : (a : Address) (s : Addresses) → contains_key a s ≡ true → IsIn a (keys s)
key_of_contains a s h = elim (Option-cases (get a s)) [
  | inl e ↦ absurd (ground (arith, h, e))
  | inr (u, e) ↦ All_of_get (λ x. IsIn x.0 (keys s)) a u s (All-keys s) e
]

pub contains_of_key :
    (a : Address) (part whole : Addresses)
    → All (λ e. get e.0 whole ≡ some e.1) part
    → IsIn a (keys part)
    → contains_key a whole ≡ true
contains_of_key a [] whole h i = absurd i
contains_of_key a (e ∷ part) whole h i = elim i [
  | inl q ↦ ap (λ t. contains_key t whole) q ∙ ap is_some h.0
  | inr r ↦ contains_of_key a part whole h.1 r
]

module _ (error : Address → ReplayError) (e : ReplayError) (t : Addresses) where
  pub IsIn-difference :
      (s : Addresses)
      → IsIn e (difference_errors error s t)
        ↔ ((a : Address) × IsIn a (keys s) × (contains_key a t ≡ false) × (e ≡ error a))
  unfolding difference_errors
  IsIn-difference [] = (λ h. absurd h, λ h. absurd h.1)
  IsIn-difference ((k, u) ∷ s) =
      let ih = IsIn-difference s in
      elim (Bool-cases (contains_key k t)) [
        | inl present ↦ rw present (
          λ h. let (a, i, n, q) = ih.0 h in (a, inr i, n, q),
          λ h. elim h.1 [
            | inl q ↦ absurd (ground (arith, present, h.2, q))
            | inr r ↦ ih.1 (h.0, r, h.2, h.3)
          ],
        )
        | inr absent ↦ rw absent (
          λ h. elim h [
            | inl q ↦ (k, inl refl, absent, q)
            | inr r ↦ let (a, i, n, q) = ih.0 r in (a, inr i, n, q)
          ],
          λ h. elim h.1 [ inl q ↦ inl (h.3 ∙ ap error q) | inr r ↦ inr (ih.1 (h.0, r, h.2, h.3)) ],
        )
      ]

module _ (blake3 : Bytes → Bytes) (state : BTreeMap Address AccountState) where
  abbrev known_errors : CanonicalAccountCertificate → Option AccountState → List ReplayError
  known_errors c none = []
  known_errors c (some d) = certificate_errors blake3 d c

  -- The errors of all certificates.
  abbrev pub all_errors : List CanonicalAccountCertificate → List ReplayError
  all_errors [] = []
  all_errors (c ∷ cs) = known_errors c (get c.address state) ++ all_errors cs

  verify_certificate-eq :
      (c : CanonicalAccountCertificate)
      → verify_certificate blake3 state c ≡ some (known_errors c (get c.address state))
  unfolding verify_certificate
  verify_certificate-eq c = elim (Option-cases (get c.address state)) [
    | inl e ↦ rw (e, verify_certificate) refl
    | inr (d, e) ↦ rw (e, verify_certificate) (compare_root-eq blake3 d c)
  ]

  pub verify_certificates-eq :
      (cs : List CanonicalAccountCertificate)
      → verify_certificates blake3 state cs ≡ some (all_errors cs)
  unfolding verify_certificates
  verify_certificates-eq [] = refl
  verify_certificates-eq (c ∷ cs) =
      rw (verify_certificates, verify_certificate-eq c, verify_certificates-eq cs) refl

  -- A certificate of the list, of an account that the replay knows, has this fault.
  abbrev pub HasFaulty : List CanonicalAccountCertificate → ReplayError → Type 0
  HasFaulty cs e =
      (c : CanonicalAccountCertificate) × IsIn c cs
      × (contains_key c.address state ≡ true)
      × IsFault blake3 (account c.address state) c e

  IsIn-known_errors :
      (e : ReplayError) (c : CanonicalAccountCertificate)
      → IsIn e (known_errors c (get c.address state))
        ↔ ((contains_key c.address state ≡ true) × IsFault blake3 (account c.address state) c e)
  unfolding account
  IsIn-known_errors e c = elim (Option-cases (get c.address state)) [
    | inl n ↦ rw n (λ h. absurd h, λ h. absurd (ground (arith, h.0)))
    | inr (d, s) ↦
        let f = IsIn-certificate_errors blake3 d c e in rw s (λ h. (refl, f.0 h), λ h. f.1 h.1)
  ]

  pub IsIn-all_errors :
      (e : ReplayError) (cs : List CanonicalAccountCertificate)
      → IsIn e (all_errors cs) ↔ HasFaulty cs e
  IsIn-all_errors e [] = (λ h. absurd h, λ h. absurd h.1)
  IsIn-all_errors e (c ∷ cs) =
      let both =
        IsIn-append_to e (known_errors c (get c.address state)) (all_errors cs)
          (IsIn-known_errors e c) (IsIn-all_errors e cs) in
      (
        λ h. elim (both.0 h) [ inl l ↦ (c, inl refl, l.0, l.1) | inr r ↦ (r.0, inr r.1, r.2, r.3) ],
        λ h. elim h.1 [
          | inl q ↦ both.1 (
              inl (
                subst
                  (λ x.
                    (contains_key x.address state ≡ true)
                    × IsFault blake3 (account x.address state) x e)
                  q (h.2, h.3)))
          | inr r ↦ both.1 (inr (h.0, r, h.2, h.3))
        ],
      )
