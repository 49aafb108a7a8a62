-- ===== src/Verify/Pipeline/Certified.antt =====
-- Whether the replay agrees with the certificates that were built from the table.
use kaysentinel.Base.{
  ◌≡◌, ◌↔◌, refl, ap, sym, ◌∙◌, Option, none, some, [], ◌∷◌, Result, ok, All, arith,
}
use kaysentinel.Base.Classes.{bytes_eq, bytes_ord, bytes_beq_iff, bytes_eq_of_cmp, bytes_cmp_refl}
use kaysentinel.Base.BTreeMap.{
  BTreeMap, get, contains_key, IsSorted, map_entries, values, unwrap_or,
}
use kaysentinel.Base.BTreeMap.Laws.{get_not-Above}
use kaysentinel.Cse.{Address}
use kaysentinel.Builder.Lifecycle.Certificate.{
  GenerationResolutionError, ResolvedAccountSnapshot, CanonicalAccountCertificate,
}
use kaysentinel.Builder.Lifecycle.Certificate.Finished.{IsTakenFrom}
use kaysentinel.Verify.Accounts.{is_certified}

-- A field that the table lacks is the default in every snapshot that is recovered.
abbrev pub IsFresh :
    {T : Type 0}
    → Option T
    → Result GenerationResolutionError ResolvedAccountSnapshot
    → (ResolvedAccountSnapshot → T)
    → T
    → Type 0
IsFresh o r field default = o ≡ none → (s : ResolvedAccountSnapshot) → r ≡ ok s → field s ≡ default

-- The replayed value of a field and its certified value are the same exactly if it is fresh.
module _ {T : Type 0} (r : Result GenerationResolutionError ResolvedAccountSnapshot)
    (field : ResolvedAccountSnapshot → T) (default x y : T) where
  pub agrees_iff :
      (o : Option T)
      → y ≡ unwrap_or default o
      → IsTakenFrom o r field x
      → (y ≡ x) ↔ IsFresh o r field default
  agrees_iff none e (s, p, q) = (
    λ same n t h. let one : s ≡ t = cc (p, h) in sym (ap field one) ∙ sym q ∙ sym same ∙ e,
    λ fresh. e ∙ sym (fresh refl s p) ∙ sym q,
  )
  agrees_iff (some t) e q = (λ same n. absurd (ground (arith, n)), λ fresh. e ∙ sym q)

module _ {V W : Type 0} (P : W → Type 0) (f : Address → V → W) where
  pub All-values :
      (m : BTreeMap Address V) → All P (values (map_entries f m)) ↔ All (λ e. P (f e.0 e.1)) m
  All-values [] = (λ h. h, λ h. h)
  All-values ((k, v) ∷ m) = let ih = All-values m in (λ h. (h.0, ih.0 h.1), λ h. (h.0, ih.1 h.1))

pub is_certified-values :
    (f : Address → CanonicalAccountCertificate → CanonicalAccountCertificate) (a : Address)
    (m : BTreeMap Address CanonicalAccountCertificate)
    → IsSorted m
    → All (λ e. (f e.0 e.1).address ≡ e.0) m
    → is_certified a (values (map_entries f m)) ≡ contains_key a m
unfolding get
is_certified-values f a [] s own = refl
is_certified-values f a ((k, c) ∷ m) s own = ground (
  arith,
  is_certified-values f a m s.1 own.1,
  own.0,
  bytes_beq_iff a k,
  bytes_eq_of_cmp a k,
  bytes_cmp_refl a,
  get_not-Above a k m,
  s.0,
)
