-- ===== src/Builder/Lifecycle/Certificate/Terminal.antt =====
-- Which generation an address resolves to.
use Prim.Native.Nat.{max}
use kaysentinel.Base.{
  ℕ, ◌≤◌, ◌≡◌, ◌≢◌, ◌↔◌, ◌⊎◌, inl, inr, refl, sym, subst, List, [], ◌∷◌, ok, err, All, All-imp,
  arith, Bool-cases,
}
use kaysentinel.Base.Classes.{◌==◌, nat_eq, bytes_eq, bytes_beq_iff}
use kaysentinel.Cse.{Address}
use kaysentinel.Builder.Lifecycle.Keys.{CanonicalGeneration}
use kaysentinel.Builder.Lifecycle.Certificate.{
  identity_absent, VerifiedGeneration, verified, with_address, max_generation_id,
  with_generation_id, pick_terminal, resolve_matches, resolve_generation_for_address,
}

abbrev pub IsIn : CanonicalGeneration → List CanonicalGeneration → Type 0
IsIn g [] = ⊥
IsIn g (h ∷ hs) = (g ≡ h) ⊎ IsIn g hs

IsIn-with_address :
    (a : Address) (g : CanonicalGeneration) (gs : List CanonicalGeneration)
    → IsIn g (with_address a gs)
    → IsIn g gs × (g.key.address ≡ a)
unfolding with_address
IsIn-with_address a g [] m = absurd m
IsIn-with_address a g (h ∷ hs) m =
    ground (arith, m, IsIn-with_address a g hs, bytes_beq_iff h.key.address a)

with_address-cons :
    (a : Address) (g : CanonicalGeneration) (gs : List CanonicalGeneration)
    → ((g.key.address ≡ a) × (with_address a (g ∷ gs) ≡ g ∷ with_address a gs))
      ⊎ ((g.key.address ≢ a) × (with_address a (g ∷ gs) ≡ with_address a gs))
unfolding with_address
with_address-cons a g gs = elim (Bool-cases (g.key.address == a)) [
  | inl same ↦ inl ((bytes_beq_iff g.key.address a).0 same, ground (arith, same))
  | inr other ↦ inr (ground (arith, other, bytes_beq_iff g.key.address a), ground (arith, other))
]

All-with_address :
    (P : CanonicalGeneration → Type 0) (a : Address) (gs : List CanonicalGeneration)
    → All P (with_address a gs)
    → All (λ g. g.key.address ≡ a → P g) gs
All-with_address P a [] h = tt
All-with_address P a (g ∷ gs) h = elim (with_address-cons a g gs) [
  | inl (same, e) ↦ let h' = subst (All P) e h in (λ q. h'.0, All-with_address P a gs h'.1)
  | inr (other, e) ↦ (λ q. absurd (other q), All-with_address P a gs (subst (All P) e h))
]

none_with_address :
    (a : Address) (gs : List CanonicalGeneration)
    → (with_address a gs ≡ []) ↔ All (λ g. g.key.address ≢ a) gs
unfolding with_address
none_with_address a [] = (λ e. tt, λ h. refl)
none_with_address a (g ∷ gs) = ground (arith, none_with_address a gs, bytes_beq_iff g.key.address a)

IsIn-with_generation_id :
    (n : ℕ) (g : CanonicalGeneration) (gs : List CanonicalGeneration)
    → IsIn g (with_generation_id n gs)
    → IsIn g gs × (g.key.generation_id ≡ n)
unfolding with_generation_id
IsIn-with_generation_id n g [] m = absurd m
IsIn-with_generation_id n g (h ∷ hs) m = ground (arith, m, IsIn-with_generation_id n g hs)

max_generation_id-ge :
    (best : ℕ) (gs : List CanonicalGeneration)
    → (best ≤ max_generation_id best gs)
      × All (λ g. g.key.generation_id ≤ max_generation_id best gs) gs
unfolding max_generation_id
max_generation_id-ge best [] = (omega arith, tt)
max_generation_id-ge best (g ∷ gs) =
    let ih = max_generation_id-ge (max best g.key.generation_id) gs in
    (omega (arith, ih.0), (omega (arith, ih.0), ih.1))

-- The greatest id is the id of one of the generations.
with_generation_id_max :
    (best : ℕ) (gs : List CanonicalGeneration)
    → (max_generation_id best gs ≡ best) ⊎ (with_generation_id (max_generation_id best gs) gs ≢ [])
unfolding max_generation_id with_generation_id
with_generation_id_max best [] = inl refl
with_generation_id_max best (g ∷ gs) =
    ground (arith, with_generation_id_max (max best g.key.generation_id) gs)

-- The terminal generations of matches.
abbrev terminals : CanonicalGeneration → List CanonicalGeneration → List CanonicalGeneration
terminals g gs = with_generation_id (max_generation_id g.key.generation_id gs) (g ∷ gs)

terminals-nonempty : (g : CanonicalGeneration) (gs : List CanonicalGeneration) → terminals g gs ≢ []
unfolding with_generation_id
terminals-nonempty g gs e = ground (arith, e, with_generation_id_max g.key.generation_id gs)

pick_terminal-cases :
    (a : Address) (ts : List CanonicalGeneration)
    → ts ≢ []
    → (r : VerifiedGeneration) → pick_terminal a ts ≡ ok r
    → (g : CanonicalGeneration) × (ts ≡ g ∷ []) × (r ≡ verified g)
unfolding pick_terminal
pick_terminal-cases a [] n r h = absurd (n refl)
pick_terminal-cases a (g ∷ []) n r h = (g, refl, cc h)
pick_terminal-cases a (g ∷ h ∷ ts) n r e = absurd (ground arith)

pick_terminal-absent :
    (a : Address) (ts : List CanonicalGeneration)
    → ts ≢ []
    → pick_terminal a ts ≢ err (identity_absent a)
unfolding pick_terminal
pick_terminal-absent a [] n h = absurd (n refl)
pick_terminal-absent a (g ∷ ts) n h = ground arith

-- A generation of the address with the greatest id among those of the address.
pub record IsTerminal (generations : List CanonicalGeneration) (address : Address)
    (g : CanonicalGeneration) : Type 0 where
  pub listed : IsIn g generations
  pub same_address : g.key.address ≡ address
  pub greatest :
      All (λ h. h.key.address ≡ address → h.key.generation_id ≤ g.key.generation_id) generations

IsTerminal-of :
    (generations : List CanonicalGeneration) (a : Address) (ms : List CanonicalGeneration)
    (r : VerifiedGeneration)
    → with_address a generations ≡ ms
    → resolve_matches a ms ≡ ok r
    → (g : CanonicalGeneration) × IsTerminal generations a g × (r ≡ verified g)
unfolding resolve_matches
IsTerminal-of generations a [] r e h = absurd (ground arith)
IsTerminal-of generations a (m ∷ ms) r e h =
    let (g, only, made) = pick_terminal-cases a (terminals m ms) (terminals-nonempty m ms) r h in
    let top = max_generation_id m.key.generation_id ms in
    let (here, at_top) =
      IsIn-with_generation_id top g (m ∷ ms) (subst (IsIn g) (sym only) (inl refl)) in
    let (there, own) = IsIn-with_address a g generations (subst (IsIn g) (sym e) here) in
    let (first, others) = max_generation_id-ge m.key.generation_id ms in
    (
      g,
      record {
        listed = there;
        same_address = own;
        greatest =
            All-with_address (λ x. x.key.generation_id ≤ g.key.generation_id) a generations
              (subst (All (λ x. x.key.generation_id ≤ g.key.generation_id)) (sym e)
                (All-imp (λ x l. omega (arith, l, at_top)) (m ∷ ms) (first, others)));
      },
      made,
    )

-- An address that resolves resolves to a listed generation of its own whose id is the greatest
-- among the listed generations of the address.
pub resolve_generation_for_address-ok :
    (generations : List CanonicalGeneration) (address : Address) (r : VerifiedGeneration)
    → resolve_generation_for_address generations address ≡ ok r
    → (g : CanonicalGeneration) × IsTerminal generations address g × (r ≡ verified g)
unfolding resolve_generation_for_address
resolve_generation_for_address-ok generations address r h =
    IsTerminal-of generations address (with_address address generations) r refl h

absent_of :
    (a : Address) (ms : List CanonicalGeneration)
    → (resolve_matches a ms ≡ err (identity_absent a)) ↔ (ms ≡ [])
unfolding resolve_matches
absent_of a [] = ground arith
absent_of a (m ∷ ms) = (
  λ h. absurd (pick_terminal-absent a (terminals m ms) (terminals-nonempty m ms) h),
  λ h. absurd (ground arith),
)

-- Resolution reports an absent identity if and only if no listed generation has the address.
pub resolve_generation_for_address-absent :
    (generations : List CanonicalGeneration) (address : Address)
    → (resolve_generation_for_address generations address ≡ err (identity_absent address))
      ↔ All (λ g. g.key.address ≢ address) generations
unfolding resolve_generation_for_address
resolve_generation_for_address-absent generations address =
    let r = absent_of address (with_address address generations) in
    let n = none_with_address address generations in (λ h. n.0 (r.0 h), λ h. r.1 (n.1 h))
