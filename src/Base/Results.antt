-- ===== src/Base/Results.antt =====
-- Rust's `Result`, with `?` as the bind of a `do` block.
use mathlib.Core.Path.{◌≡◌, refl}
use mathlib.Core.Logic.{◌⊎◌, inl, inr}
use mathlib.Core.Option.{Option, none, some}
use mathlib.Core.Bool.{Bool, true, false}

pub data Result {ℓ κ} (E : Type κ) (A : Type ℓ) : Type (ℓ ⊔ κ) where
  ok : A → Result E A
  err : E → Result E A

infixl 5 ◌>>=◌ ◌>>◌
abbrev pub ◌>>=◌ {μ ℓ κ} :
    {X : Type μ} {T : Type ℓ} {U : Type κ} → Result X T → (T → Result X U) → Result X U
err x >>= next = err x
ok t >>= next = next t

abbrev pub ◌>>◌ {κ μ} : {X : Type μ} {U : Type κ} → Result X (Unit {0}) → Result X U → Result X U
first >> second = first >>= λ _. second

-- `if c { return Err(e) }`
abbrev pub fail_if {μ} : {E : Type μ} → Bool → E → Result E (Unit {0})
fail_if true e = err e
fail_if false e = ok tt

-- `o.ok_or(e)`
abbrev pub ok_or {ℓ μ} : {E : Type μ} {A : Type ℓ} → Option A → E → Result E A
ok_or none e = err e
ok_or (some a) e = ok a

-- `r.map_err(f)`, which `?` makes through `From`
abbrev pub map_err {ℓ κ μ} :
    {E : Type κ} {F : Type μ} {A : Type ℓ} → (E → F) → Result E A → Result F A
map_err f (ok a) = ok a
map_err f (err e) = err (f e)

-- `r.or_else(|_| s)`
abbrev pub or_else {ℓ κ μ} :
    {E : Type κ} {F : Type μ} {A : Type ℓ} → Result E A → Result F A → Result F A
or_else (ok a) s = ok a
or_else (err e) s = s

pub Result-cases {ℓ κ} :
    {E : Type κ} {A : Type ℓ} (r : Result E A) → ((a : A) × (r ≡ ok a)) ⊎ ((e : E) × (r ≡ err e))
Result-cases (ok a) = inl (a, refl)
Result-cases (err e) = inr (e, refl)

-- A chain that succeeds has succeeded in its first part.
pub >>=-eq-ok {ℓ κ μ} :
    {X : Type μ} {T : Type ℓ} {U : Type κ} (r : Result X T) (next : T → Result X U) {u : U}
    → (r >>= next) ≡ ok u
    → (t : T) × (r ≡ ok t) × (next t ≡ ok u)
>>=-eq-ok (err x) next h = cc
>>=-eq-ok (ok t) next h = (t, refl, h)
