-- ===== src/Base/Members.antt =====
-- The elements of a list.
use mathlib.Core.Path.{◌≡◌, refl}
use mathlib.Core.Logic.{◌↔◌, ◌⊎◌, inl, inr}
use mathlib.Core.List.{List, [], ◌∷◌, ◌++◌}
use mathlib.Core.Bool.{Bool, true, false, not}
use native.Mathlib.Omega.{arith}
use kaysentinel.Base.Tests.{if◌then◌else◌}

-- An element of the list.
abbrev pub IsIn : {A : Type 0} → A → List A → Type 0
IsIn x [] = ⊥
IsIn x (y ∷ ys) = (x ≡ y) ⊎ IsIn x ys

pub IsIn-append_iff :
    {A : Type 0} (x : A) (ys zs : List A) → IsIn x (ys ++ zs) ↔ (IsIn x ys ⊎ IsIn x zs)
IsIn-append_iff x [] zs = (λ h. inr h, λ h. elim h [ inl e ↦ absurd e | inr r ↦ r ])
IsIn-append_iff x (y ∷ ys) zs = (
  λ h. elim h [
    | inl e ↦ inl (inl e)
    | inr r ↦ elim ((IsIn-append_iff x ys zs).0 r) [ inl a ↦ inl (inr a) | inr b ↦ inr b ]
  ],
  λ h. elim h [
    | inl (inl e) ↦ inl e
    | inl (inr a) ↦ inr ((IsIn-append_iff x ys zs).1 (inl a))
    | inr b ↦ inr ((IsIn-append_iff x ys zs).1 (inr b))
  ],
)

-- The list of one element, under a condition.
pub IsIn-if :
    {A : Type 0} (x y : A) (b : Bool)
    → IsIn x (if not b then y ∷ [] else []) ↔ ((x ≡ y) × (b ≡ false))
IsIn-if x y true = (λ h. absurd h, λ h. absurd (ground (arith, h.1)))
IsIn-if x y false = (λ h. elim h [ inl e ↦ (e, refl) | inr n ↦ absurd n ], λ h. inl h.0)

-- The sums of the members of appended lists.
pub IsIn-append_to :
    {A : Type 0} {P Q : Type 0} (x : A) (ys zs : List A)
    → IsIn x ys ↔ P
    → IsIn x zs ↔ Q
    → IsIn x (ys ++ zs) ↔ (P ⊎ Q)
IsIn-append_to x ys zs p q =
    let a = IsIn-append_iff x ys zs in
    (
      λ h. elim (a.0 h) [ inl l ↦ inl (p.0 l) | inr r ↦ inr (q.0 r) ],
      λ h. elim h [ inl l ↦ a.1 (inl (p.1 l)) | inr r ↦ a.1 (inr (q.1 r)) ],
    )
