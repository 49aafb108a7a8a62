-- ===== src/Base/BTreeMap/Values.antt =====
-- Maps with the same keys: a function on the values commutes with the operations.
use Prim.Native.Nat.Ordering.{lt}
use mathlib.Core.Path.{◌≡◌, refl, ap, sym, ◌∙◌, subst}
use mathlib.Core.Option.{some}
use mathlib.Core.List.{List, [], ◌∷◌, ◌++◌, append-nil, append_assoc}
use native.Mathlib.Omega.{arith}
use kaysentinel.Base.Lists.{All}
use kaysentinel.Base.Results.{Result, ok}
use kaysentinel.Base.Classes.{Ord}
use kaysentinel.Base.BTreeMap.{
  BTreeMap, get, insert, Above, IsSorted, map_values, map_option, try_collect,
}

module _ {ℓ κ μ} {K : Type ℓ} {V : Type κ} {W : Type μ} ⦃o : Ord K⦄ (f : V → W) where
  pub get-map_values : (k : K) (m : BTreeMap K V) → get k (map_values f m) ≡ map_option f (get k m)
  unfolding get
  get-map_values k [] = refl
  get-map_values k ((j, v) ∷ m) = ground (arith, get-map_values k m)

  pub insert-map_values :
      (k : K) (v : V) (m : BTreeMap K V)
      → insert k (f v) (map_values f m) ≡ map_values f (insert k v m)
  unfolding insert
  insert-map_values k v [] = refl
  insert-map_values k v ((j, w) ∷ m) = ground (arith, insert-map_values k v m)

  Above-map_values : (k : K) (m : BTreeMap K V) → Above k m → Above k (map_values f m)
  Above-map_values k [] a = tt
  Above-map_values k (e ∷ m) a = (a.0, Above-map_values k m a.1)

  pub map_values-IsSorted : (m : BTreeMap K V) → IsSorted m → IsSorted (map_values f m)
  map_values-IsSorted [] s = tt
  map_values-IsSorted ((k, v) ∷ m) s = (Above-map_values k m s.0, map_values-IsSorted m s.1)

module _ {ℓ κ} {K : Type ℓ} {V : Type κ} ⦃o : Ord K⦄ where
  -- Writing what is there already changes nothing.
  pub insert-get : (k : K) (v : V) (m : BTreeMap K V) → get k m ≡ some v → insert k v m ≡ m
  unfolding insert get
  insert-get k v [] h = cc
  insert-get k v ((j, w) ∷ m) h = ground (arith, insert-get k v m, o.eq_of_cmp k j)

  get_later : (k j : K) (w : V) (m : BTreeMap K V) → o.cmp j k ≡ lt → get k ((j, w) ∷ m) ≡ get k m
  unfolding get
  get_later k j w m h = ground (arith, o.cmp_flip j k)

  -- A sorted map reads each of its entries.
  pub get_entries : (m : BTreeMap K V) → IsSorted m → All (λ e. get e.0 m ≡ some e.1) m
  unfolding get
  get_entries [] s = tt
  get_entries ((k, v) ∷ m) s = (first, later m s.0 (get_entries m s.1))
    where
      first : get k ((k, v) ∷ m) ≡ some v
      first = rw (o.cmp_refl k, get)

      later :
          (r : BTreeMap K V)
          → Above k r
          → All (λ e. get e.0 m ≡ some e.1) r
          → All (λ e. get e.0 ((k, v) ∷ m) ≡ some e.1) r
      later [] a h = tt
      later (e ∷ r) a h = (get_later e.0 k v m a.0 ∙ h.0, later r a.1 h.1)

All_middle {ℓ μ} :
    {A : Type ℓ} (P : A → Type μ) (xs : List A) (y : A) (ys : List A) → All P (xs ++ y ∷ ys) → P y
All_middle P [] y ys h = h.0
All_middle P (x ∷ xs) y ys h = All_middle P xs y ys h.1

module _ {ℓ ν} {K : Type ℓ} {W : Type ν} ⦃o : Ord K⦄ where
  -- A key above all others goes to the end.
  insert_last :
      (k : K) (w : W) (acc rest : BTreeMap K W)
      → IsSorted (acc ++ (k, w) ∷ rest)
      → insert k w acc ≡ acc ++ (k, w) ∷ []
  unfolding insert
  insert_last k w [] rest s = refl
  insert_last k w ((j, u) ∷ acc) rest s =
      let below : o.cmp j k ≡ lt = All_middle (λ e. o.cmp j e.0 ≡ lt) acc (k, w) rest s.0 in
      ground (arith, below, o.cmp_flip j k, insert_last k w acc rest s.1)

module _ {ℓ κ ν ξ} {E : Type ξ} {K : Type ℓ} {V : Type κ} {W : Type ν} ⦃o : Ord K⦄
    (f : K → V → Result E (K × W)) (g : V → W) where
  -- Collecting the entries of a sorted map, each under its own key, keeps their order.
  pub try_collect_sorted :
      (acc : BTreeMap K W) (m : BTreeMap K V)
      → IsSorted (acc ++ map_values g m)
      → All (λ e. f e.0 e.1 ≡ ok (e.0, g e.1)) m
      → try_collect f acc m ≡ ok (acc ++ map_values g m)
  unfolding try_collect
  try_collect_sorted acc [] s h = ap ok (sym (append-nil acc))
  try_collect_sorted acc ((k, v) ∷ m) s h =
      let shift = append_assoc acc ((k, g v) ∷ []) (map_values g m) in
      rw (h.0, insert_last k (g v) acc (map_values g m) s)
        (try_collect_sorted (acc ++ (k, g v) ∷ []) m (subst (λ t. IsSorted t) (sym shift) s) h.1
          ∙ ap ok shift)
