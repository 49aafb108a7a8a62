-- ===== src/Base/BTreeMap/Laws.antt =====
-- What the code relies on of `BTreeMap`: `get` after `insert`, the order of iteration, and that a
-- map is determined by its lookups.
use Prim.Native.Nat.Ordering.{lt, eq, gt}
use mathlib.Core.Path.{◌≡◌, refl}
use mathlib.Core.Logic.{◌≢◌}
use mathlib.Core.Option.{none, some}
use mathlib.Core.List.{[], ◌∷◌}
use native.Mathlib.Omega.{arith}
use kaysentinel.Base.Lists.{All, All-imp}
use kaysentinel.Base.Classes.{Ord}
use kaysentinel.Base.BTreeMap.{BTreeMap, get, insert, Above, IsSorted}

module _ {ℓ κ} {K : Type ℓ} {V : Type κ} ⦃o : Ord K⦄ where
  pub get-insert :
      (q k : K) (v : V) (m : BTreeMap K V)
      → get q (insert k v m) ≡ (elim (o.cmp q k) [ eq ↦ some v | _ ↦ get q m ])
  unfolding get insert
  get-insert q k v [] = ground arith
  get-insert q k v ((j, w) ∷ m) = ground (
    arith,
    get-insert q k v m,
    o.eq_of_cmp q k,
    o.eq_of_cmp k j,
    o.eq_of_cmp q j,
    o.lt_trans q k j,
    o.cmp_flip k j,
    o.cmp_flip q k,
    o.cmp_flip q j,
    o.lt_trans q j k,
    o.lt_trans k q j,
    o.lt_trans j q k,
    o.lt_trans j k q,
    o.lt_trans k j q,
  )

  pub get-insert_self : (k : K) (v : V) (m : BTreeMap K V) → get k (insert k v m) ≡ some v
  get-insert_self k v m = ground (arith, get-insert k k v m, o.cmp_refl k)

  pub get-insert_ne : (q k : K) (v : V) (m : BTreeMap K V) → q ≢ k → get q (insert k v m) ≡ get q m
  get-insert_ne q k v m h = ground (arith, get-insert q k v m, o.eq_of_cmp q k)

  pub get-insert_other :
      (q k : K) (v : V) (m : BTreeMap K V) → o.cmp q k ≢ eq → get q (insert k v m) ≡ get q m
  get-insert_other q k v m h = ground (arith, get-insert q k v m)

  pub get-insert_same :
      (q k : K) (v : V) (m : BTreeMap K V) → o.cmp q k ≡ eq → get q (insert k v m) ≡ some v
  get-insert_same q k v m h = ground (arith, get-insert q k v m)

  pub All-insert {μ} :
      (P : K × V → Type μ) (k : K) (v : V) (m : BTreeMap K V)
      → P (k, v)
      → All P m
      → All P (insert k v m)
  unfolding insert
  All-insert P k v [] p a = (p, tt)
  All-insert P k v ((j, w) ∷ m) p a = ground (arith, All-insert P k v m p a.1)

  Above-trans : (k j : K) (m : BTreeMap K V) → o.cmp k j ≡ lt → Above j m → Above k m
  Above-trans k j m h a = All-imp (λ e b. o.lt_trans k j e.0 h b) m a

  pub insert-IsSorted : (k : K) (v : V) (m : BTreeMap K V) → IsSorted m → IsSorted (insert k v m)
  unfolding insert
  insert-IsSorted k v [] s = (tt, tt)
  insert-IsSorted k v ((j, w) ∷ m) s = ground (
    arith,
    insert-IsSorted k v m s.1,
    All-insert (λ e. o.cmp j e.0 ≡ lt) k v m,
    Above-trans k j m,
    o.eq_of_cmp k j,
    o.cmp_flip k j,
  )

  pub get-Above : (k : K) (m : BTreeMap K V) → Above k m → get k m ≡ none
  unfolding get
  get-Above k [] a = refl
  get-Above k (e ∷ m) a = ground arith

  -- A key that is not above the first is not among the later ones.
  pub get_not-Above : (k j : K) (m : BTreeMap K V) → o.cmp k j ≢ gt → Above j m → get k m ≡ none
  get_not-Above k j m h a =
      get-Above k m (All-imp (λ e b. ground (arith, o.lt_trans k j e.0, o.eq_of_cmp k j)) m a)

  -- A key that is present is found at its value.
  pub All_of_get :
      (P : K × V → Type 0) (k : K) (v : V) (m : BTreeMap K V)
      → All P m
      → get k m ≡ some v
      → P (k, v)
  unfolding get
  All_of_get P k v [] a h = cc
  All_of_get P k v ((j, w) ∷ m) a h =
      ground (arith, All_of_get P k v m a.1, o.eq_of_cmp k j, o.cmp_refl k)
