-- ===== src/Base/BTreeMap.antt =====
-- `std::collections::BTreeMap`, as the association list that its iteration visits: the keys ascend.
-- A `BTreeSet<K>` is a map to `Unit`.
pub mod Laws
pub mod Values
pub mod Collect
use Prim.Native.Nat.Ordering.{lt, eq, gt}
use mathlib.Core.Path.{◌≡◌}
use mathlib.Core.Bool.{Bool, true, false}
use mathlib.Core.Option.{Option, none, some}
use mathlib.Core.List.{List, [], ◌∷◌, map}
use kaysentinel.Base.Lists.{All}
use kaysentinel.Base.Results.{Result, ok, err, ◌>>=◌}
use kaysentinel.Base.Classes.{Ord}

abbrev pub BTreeMap {ℓ κ} : Type ℓ → Type κ → Type (ℓ ⊔ κ)
BTreeMap K V = List (K × V)

abbrev pub is_some {ℓ} : {A : Type ℓ} → Option A → Bool
is_some none = false
is_some (some a) = true

abbrev pub unwrap_or {ℓ} : {A : Type ℓ} → A → Option A → A
unwrap_or d none = d
unwrap_or d (some a) = a

module _ {ℓ κ} {K : Type ℓ} {V : Type κ} where
  abbrev pub values : BTreeMap K V → List V
  values m = map (λ e. e.1) m

  abbrev pub keys : BTreeMap K V → List K
  keys m = map (λ e. e.0) m

-- The same keys with other values.
abbrev pub map_values {ℓ κ μ} :
    {K : Type ℓ} {V : Type κ} {W : Type μ} → (V → W) → BTreeMap K V → BTreeMap K W
map_values f [] = []
map_values f ((k, v) ∷ m) = (k, f v) ∷ map_values f m

-- The same keys, each with a value computed from the key and its value.
abbrev pub map_entries {ℓ κ μ} :
    {K : Type ℓ} {V : Type κ} {W : Type μ} → (K → V → W) → BTreeMap K V → BTreeMap K W
map_entries f [] = []
map_entries f ((k, v) ∷ m) = (k, f k v) ∷ map_entries f m

abbrev pub map_option {κ μ} : {V : Type κ} {W : Type μ} → (V → W) → Option V → Option W
map_option f none = none
map_option f (some v) = some (f v)

module _ {ℓ κ} {K : Type ℓ} {V : Type κ} ⦃o : Ord K⦄ where
  unfoldable pub get : K → BTreeMap K V → Option V
  get k [] = none
  get k ((j, v) ∷ m) = elim (o.cmp k j) [ lt ↦ none | eq ↦ some v | gt ↦ get k m ]

  unfoldable pub insert : K → V → BTreeMap K V → BTreeMap K V
  insert k v [] = (k, v) ∷ []
  insert k v ((j, w) ∷ m) = elim (o.cmp k j) [
    | lt ↦ (k, v) ∷ (j, w) ∷ m
    | eq ↦ (k, v) ∷ m
    | gt ↦ (j, w) ∷ insert k v m
  ]

  -- `contains_key`
  abbrev pub contains_key : K → BTreeMap K V → Bool
  contains_key k m = is_some (get k m)

  -- `let e = m.entry(k).or_insert(d); *e = f(*e)`
  unfoldable pub update_entry : K → V → (V → V) → BTreeMap K V → BTreeMap K V
  update_entry k d f m = insert k (f (unwrap_or d (get k m))) m

  abbrev pub Above : K → BTreeMap K V → Type 0
  Above k m = All (λ e. o.cmp k e.0 ≡ lt) m

  -- The keys ascend strictly.
  abbrev pub IsSorted : BTreeMap K V → Type 0
  IsSorted [] = Unit
  IsSorted ((k, v) ∷ m) = Above k m × IsSorted m

module _ {ℓ κ μ ν ξ} {E : Type ξ} {K : Type ℓ} {V : Type κ} {J : Type μ} {W : Type ν} ⦃o : Ord J⦄
    (f : K → V → Result E (J × W)) where
  -- `entries.map(f).collect::<Result<BTreeMap<_, _>, _>>()`, and a loop that inserts what `f` gives:
  -- the first error ends it.
  unfoldable pub try_collect : BTreeMap J W → List (K × V) → Result E (BTreeMap J W)
  try_collect acc [] = ok acc
  try_collect acc ((k, v) ∷ m) = do e ← f k v; try_collect (insert e.0 e.1 acc) m
