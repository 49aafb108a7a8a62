-- ===== src/Base/BTreeMap/Collect.antt =====
-- What a map holds that was collected from the entries of another, and when two maps are equal.
use mathlib.Core.Path.{◌≡◌, refl, sym, ◌∙◌, subst}
use mathlib.Core.Logic.{inl, inr}
use mathlib.Core.Option.{Option, none, some}
use mathlib.Core.List.{[], ◌∷◌}
use native.Mathlib.Omega.{arith}
use kaysentinel.Base.Results.{Result, ok, >>=-eq-ok}
use kaysentinel.Base.Classes.{Ord, Ordering-cases}
use kaysentinel.Base.BTreeMap.{
  BTreeMap, get, insert, Above, IsSorted, map_entries, map_option, try_collect,
}
use kaysentinel.Base.BTreeMap.Laws.{
  insert-IsSorted, get_not-Above, get-insert_same, get-insert_other,
}

module _ {E K V W : Type 0} ⦃o : Ord K⦄ (f : K → V → Result E (K × W))
    (own : (k : K) (v : V) (x : K × W) → f k v ≡ ok x → x.0 ≡ k) where
  -- A key of the entries reads what its value was turned into, and any other what was there.
  abbrev pub Collected : K → Option V → Option W → Option W → Type 0
  Collected a none old new = new ≡ old
  Collected a (some v) old new = (w : W) × (f a v ≡ ok (a, w)) × (new ≡ some w)

  keyed : (a k : K) (v : V) (x : K × W) → a ≡ k → x.0 ≡ k → f k v ≡ ok x → f a v ≡ ok (a, x.1)
  keyed a k v x e own_key p =
      subst (λ t. f t v ≡ ok (t, x.1)) (sym e) (subst (λ t. f k v ≡ ok (t, x.1)) own_key p)

  pub get-try_collect :
      (a : K) (acc : BTreeMap K W) (m : BTreeMap K V) (out : BTreeMap K W)
      → IsSorted m
      → try_collect f acc m ≡ ok out
      → Collected a (get a m) (get a acc) (get a out)
  unfolding try_collect get
  get-try_collect a acc [] out s h = ground arith
  get-try_collect a acc ((k, v) ∷ m) out s h =
      let (x, p, q) = >>=-eq-ok (f k v) (λ e. try_collect f (insert e.0 e.1 acc) m) h in
      let own_key = own k v x p in
      let ih = get-try_collect a (insert x.0 x.1 acc) m out s.1 q in
      elim (Ordering-cases (o.cmp a k)) [
        | inl less ↦
            rw (less, get)
              (rw
                (get_not-Above a k m (λ g. cc) s.0, own_key, get-insert_other a k x.1 acc (λ g. cc))
                at ih)
        | inr (inl same) ↦
            rw (same, get)
              (
                x.1,
                keyed a k v x (o.eq_of_cmp a k same) own_key p,
                rw (get_not-Above a k m (λ g. cc) s.0, own_key, get-insert_same a k x.1 acc same) at
                    ih,
              )
        | inr (inr more) ↦
            rw (more, get) (rw (own_key, get-insert_other a k x.1 acc (λ g. cc)) at ih)
      ]

  pub try_collect-IsSorted :
      (acc : BTreeMap K W) (m : BTreeMap K V) (out : BTreeMap K W)
      → IsSorted acc
      → try_collect f acc m ≡ ok out
      → IsSorted out
  unfolding try_collect
  try_collect-IsSorted acc [] out s h =
      let e : acc ≡ out = cc h in subst (λ (t : BTreeMap K W). IsSorted t) e s
  try_collect-IsSorted acc ((k, v) ∷ m) out s h =
      let (x, p, q) = >>=-eq-ok (f k v) (λ e. try_collect f (insert e.0 e.1 acc) m) h in
      try_collect-IsSorted (insert x.0 x.1 acc) m out (insert-IsSorted x.0 x.1 acc s) q

module _ {K V : Type 0} ⦃o : Ord K⦄ where
  -- Behind equal first keys, maps that read alike read alike.
  later :
      (q k j : K) (v w : V) (m n : BTreeMap K V)
      → Above k m
      → Above j n
      → k ≡ j
      → get q ((k, v) ∷ m) ≡ get q ((j, w) ∷ n)
      → get q m ≡ get q n
  unfolding get
  later q k j v w m n a b e h = elim (Ordering-cases (o.cmp q k)) [
    | inl less ↦ get_not-Above q k m (λ g. cc) a ∙ sym (get_not-Above q j n (λ g. cc) b)
    | inr (inl same) ↦ get_not-Above q k m (λ g. cc) a ∙ sym (get_not-Above q j n (λ g. cc) b)
    | inr (inr more) ↦ ground (arith, more, h, e)
  ]

  -- Sorted maps that read alike are equal.
  pub eq_of_get :
      (m n : BTreeMap K V) → IsSorted m → IsSorted n → ((k : K) → get k m ≡ get k n) → m ≡ n
  unfolding get
  eq_of_get [] [] s t h = refl
  eq_of_get [] ((j, v) ∷ n) s t h = ground (arith, h j, o.cmp_refl j)
  eq_of_get ((k, v) ∷ m) [] s t h = ground (arith, h k, o.cmp_refl k)
  eq_of_get ((k, v) ∷ m) ((j, w) ∷ n) s t h = elim (Ordering-cases (o.cmp k j)) [
    | inl less ↦ ground (arith, less, h k, o.cmp_refl k)
    | inr (inl same) ↦
        let tails =
          eq_of_get m n s.1 t.1 (λ q. later q k j v w m n s.0 t.0 (o.eq_of_cmp k j same) (h q)) in
        ground (arith, same, h k, o.cmp_refl k, o.eq_of_cmp k j, tails)
    | inr (inr more) ↦ ground (arith, more, h j, o.cmp_refl j, o.cmp_flip k j)
  ]

module _ {K V W : Type 0} ⦃o : Ord K⦄ (f : K → V → W) where
  pub get-map_entries :
      (k : K) (m : BTreeMap K V) → get k (map_entries f m) ≡ map_option (f k) (get k m)
  unfolding get
  get-map_entries k [] = refl
  get-map_entries k ((j, v) ∷ m) = ground (arith, get-map_entries k m, o.eq_of_cmp k j)
