-- ===== src/Builder/Lifecycle/Canonicalize/Sorted.antt =====
-- The three tables that `CanonicalizationPipeline::process` (lifecycle/canonicalize.rs) puts out.
use Prim.Native.Nat.Ordering.{lt, eq, gt}
use kaysentinel.Base.{◌<◌, ◌≤◌, ◌≡◌, ◌≢◌, ap, List, All, All-imp, arith, ◌⊎◌}
use kaysentinel.Base.Classes.{
  bytes_cmp, bytes_lt_trans, bytes_eq_of_cmp, bytes_cmp-flip, bytes_cmp_refl,
}
use kaysentinel.Base.Members.{IsIn}
use kaysentinel.Builder.Lifecycle.Keys.{
  GenerationKey, generation_key_cmp, CanonicalPreState, CanonicalGeneration, CanonicalBalance,
}
use kaysentinel.Builder.Lifecycle.Canonicalize.{generation_order, canonicalize}
use kaysentinel.Builder.Lifecycle.Canonicalize.Order.{
  IsKeyOrder, IsPairwise, IsPairwise-imp, IsKept, sort-dedup,
}

-- Of a smaller address, or of the same one and a smaller id.
abbrev pub KeyLess : GenerationKey → GenerationKey → Type 0
KeyLess k j =
    (bytes_cmp k.address j.address ≡ lt)
    ⊎ ((k.address ≡ j.address) × (k.generation_id < j.generation_id))

-- Of a smaller address, or of the same one and an earlier begin, or with this too of a smaller id.
abbrev pub GenerationLess : CanonicalGeneration → CanonicalGeneration → Type 0
GenerationLess g h =
    (bytes_cmp g.key.address h.key.address ≡ lt)
    ⊎ ((g.key.address ≡ h.key.address)
        × ((g.begin.trace_ordinal < h.begin.trace_ordinal)
            ⊎ ((g.begin.trace_ordinal ≡ h.begin.trace_ordinal)
                × (g.key.generation_id < h.key.generation_id))))

generation_order-less : (g h : CanonicalGeneration) → generation_order g h ≡ lt → GenerationLess g h
unfolding generation_order
generation_order-less g h e = ground (arith, bytes_eq_of_cmp g.key.address h.key.address)

key_cmp-less : (k j : GenerationKey) → generation_key_cmp k j ≡ lt → KeyLess k j
key_cmp-less k j e = ground (arith, bytes_eq_of_cmp k.address j.address)

-- The order of generations is one of their keys.
generation_order-flips :
    (a b : CanonicalGeneration) → generation_order a b ≡ gt → generation_order b a ≢ gt
unfolding generation_order
generation_order-flips a b h =
    ground (
      arith,
      bytes_cmp-flip a.key.address b.key.address,
      bytes_cmp-flip b.key.address a.key.address,
    )

generation_order-not_gt_trans :
    (a b c : CanonicalGeneration)
    → generation_order a b ≢ gt
    → generation_order b c ≢ gt
    → generation_order a c ≢ gt
unfolding generation_order
generation_order-not_gt_trans a b c h k = ground (
  arith,
  bytes_lt_trans a.key.address b.key.address c.key.address,
  bytes_eq_of_cmp a.key.address b.key.address,
  bytes_eq_of_cmp b.key.address c.key.address,
)

generation_order-less_trans :
    (a b c : CanonicalGeneration)
    → generation_order a b ≡ lt
    → generation_order b c ≡ lt
    → generation_order a c ≡ lt
unfolding generation_order
generation_order-less_trans a b c h k = ground (
  arith,
  bytes_lt_trans a.key.address b.key.address c.key.address,
  bytes_eq_of_cmp a.key.address b.key.address,
  bytes_eq_of_cmp b.key.address c.key.address,
)

generation_order-key : (a b : CanonicalGeneration) → generation_order a b ≡ eq → a.key ≡ b.key
unfolding generation_order
generation_order-key a b h = ground (arith, bytes_eq_of_cmp a.key.address b.key.address)

generation_order-not_gt_refl : (a : CanonicalGeneration) → generation_order a a ≢ gt
unfolding generation_order
generation_order-not_gt_refl a = ground (arith, bytes_cmp_refl a.key.address)

generation_order-IsKeyOrder : IsKeyOrder {T = CanonicalGeneration} (λ g. g.key) generation_order
generation_order-IsKeyOrder = record {
  flips = generation_order-flips;
  not_gt_trans = generation_order-not_gt_trans;
  less_trans = generation_order-less_trans;
  key_of_eq = generation_order-key;
  not_gt_refl = generation_order-not_gt_refl;
}

-- The derived order of keys, on records that have one.
key_cmp-flips : (a b : GenerationKey) → generation_key_cmp a b ≡ gt → generation_key_cmp b a ≢ gt
key_cmp-flips a b h =
    ground (arith, bytes_cmp-flip a.address b.address, bytes_cmp-flip b.address a.address)

key_cmp-not_gt_trans :
    (a b c : GenerationKey)
    → generation_key_cmp a b ≢ gt
    → generation_key_cmp b c ≢ gt
    → generation_key_cmp a c ≢ gt
key_cmp-not_gt_trans a b c h k = ground (
  arith,
  bytes_lt_trans a.address b.address c.address,
  bytes_eq_of_cmp a.address b.address,
  bytes_eq_of_cmp b.address c.address,
)

key_cmp-less_trans :
    (a b c : GenerationKey)
    → generation_key_cmp a b ≡ lt
    → generation_key_cmp b c ≡ lt
    → generation_key_cmp a c ≡ lt
key_cmp-less_trans a b c h k = ground (
  arith,
  bytes_lt_trans a.address b.address c.address,
  bytes_eq_of_cmp a.address b.address,
  bytes_eq_of_cmp b.address c.address,
)

key_cmp-eq : (a b : GenerationKey) → generation_key_cmp a b ≡ eq → a ≡ b
key_cmp-eq a b h = ground (arith, bytes_eq_of_cmp a.address b.address)

key_cmp-not_gt_refl : (a : GenerationKey) → generation_key_cmp a a ≢ gt
key_cmp-not_gt_refl a = ground (arith, bytes_cmp_refl a.address)

key_cmp-IsKeyOrder :
    {T : Type 0} (key : T → GenerationKey)
    → IsKeyOrder key (λ a b. generation_key_cmp (key a) (key b))
key_cmp-IsKeyOrder key = record {
  flips = λ a b. key_cmp-flips (key a) (key b);
  not_gt_trans = λ a b c. key_cmp-not_gt_trans (key a) (key b) (key c);
  less_trans = λ a b c. key_cmp-less_trans (key a) (key b) (key c);
  key_of_eq = λ a b. key_cmp-eq (key a) (key b);
  not_gt_refl = λ a. key_cmp-not_gt_refl (key a);
}

-- The keys ascend, the elements are some of the input's, and each key of the input is there.
abbrev pub IsKeyTableOf : {T : Type 0} → (T → GenerationKey) → List T → List T → Type 0
IsKeyTableOf key xs out =
    IsPairwise (λ a b. KeyLess (key a) (key b)) out
    × All (λ a. IsIn a xs) out
    × All (λ a. (b : _) × IsIn b out × (key b ≡ key a)) xs

key_table :
    {T : Type 0} (key : T → GenerationKey) (xs out : List T)
    → IsPairwise (λ a b. generation_key_cmp (key a) (key b) ≡ lt) out
      × All (λ a. IsIn a xs) out
      × All (IsKept key (λ a b. generation_key_cmp (key a) (key b)) out) xs
    → IsKeyTableOf key xs out
key_table key xs out h = (
  IsPairwise-imp (λ a b. key_cmp-less (key a) (key b)) out h.0,
  h.1,
  All-imp (λ a k. (k.0, k.1, k.2)) xs h.2,
)

-- The generations ascend strictly, are some of the input's, and for each of the input's one with its
-- key is there that begins no later.
abbrev pub IsGenerationsOf : List CanonicalGeneration → List CanonicalGeneration → Type 0
IsGenerationsOf xs out =
    IsPairwise GenerationLess out
    × All (λ g. IsIn g xs) out
    × All
        (λ g.
          (h : CanonicalGeneration) × IsIn h out
          × (h.key ≡ g.key)
          × (h.begin.trace_ordinal ≤ g.begin.trace_ordinal))
        xs

kept_begins :
    (g h : CanonicalGeneration)
    → h.key ≡ g.key
    → generation_order h g ≢ gt
    → h.begin.trace_ordinal ≤ g.begin.trace_ordinal
unfolding generation_order
kept_begins g h e n =
    ground
      (arith, n, ap (λ k. k.address) e, bytes_cmp_refl g.key.address, ap (λ k. k.generation_id) e)

-- The generations of a canonical form ascend strictly: of any two, the earlier has a smaller
-- address, or the same address and an earlier begin, or with these equal a smaller id. Each is one
-- of the input, and for each of the input there is one with the same key that begins no later. The
-- account states before the transaction and the balances ascend strictly by address and id, so
-- that no key is there twice; each is one of the input, and every key of the input is there.
pub canonicalize-tables :
    (ps : List CanonicalPreState) (gs : List CanonicalGeneration) (bs : List CanonicalBalance)
    → IsGenerationsOf gs (canonicalize ps gs bs).value.generations
      × IsKeyTableOf (λ p. p.key) ps (canonicalize ps gs bs).value.pre_states
      × IsKeyTableOf (λ b. b.key) bs (canonicalize ps gs bs).value.balances
unfolding canonicalize
canonicalize-tables ps gs bs =
    let (ascends, members, kept) =
      sort-dedup (λ (g : CanonicalGeneration). g.key) generation_order generation_order-IsKeyOrder
        gs in
    (
      (
        IsPairwise-imp generation_order-less (canonicalize ps gs bs).value.generations ascends,
        members,
        All-imp (λ g k. (k.0, k.1, k.2, kept_begins g k.0 k.2 k.3)) gs kept,
      ),
      key_table (λ p. p.key) ps _
          (sort-dedup (λ (p : CanonicalPreState). p.key) _ (key_cmp-IsKeyOrder (λ p. p.key)) ps),
      key_table (λ b. b.key) bs _
          (sort-dedup (λ (b : CanonicalBalance). b.key) _ (key_cmp-IsKeyOrder (λ b. b.key)) bs),
    )
