-- ===== src/Builder/Lifecycle/Canonicalize/Report.antt =====
-- What the report of the schema check says.
use Prim.Native.Nat.Ordering.{gt}
use kaysentinel.Base.{
  ◌<◌, ◌≡◌, ◌≢◌, ◌↔◌, refl, ap, sym, subst, ◌∙◌, Bool, true, false, ◌&&◌, ◌||◌, Bool-cases, inl,
  inr, Option, none, some, List, [], ◌∷◌, All, arith,
}
use kaysentinel.Base.Classes.{◌==◌, bytes_eq, bytes_beq_iff}
use kaysentinel.Builder.Ir.{TraceProvenance}
use kaysentinel.Builder.Lifecycle.Keys.{
  GenerationKey, generation_key_eq, CanonicalGeneration, CanonicalBalance,
}
use kaysentinel.Builder.Lifecycle.Resolve.{InvariantReport, LifecycleViolation}
use kaysentinel.Builder.Lifecycle.Canonicalize.{
  generation_order, Schema, report_error, set_contains, check_key, check_interval,
  check_generations, check_balances, check_order, check_overlap, check_window, check_windows,
}

abbrev pub all_hold : InvariantReport → Bool
all_hold r =
    r.keys_unique && (r.referential_integrity && (r.deterministic_order && r.intervals_valid))

abbrev pub EndsAfter : TraceProvenance → Option TraceProvenance → Type 0
EndsAfter begin none = Unit
EndsAfter begin (some end_coord) = begin.trace_ordinal < end_coord.trace_ordinal

-- The keys of the generations are pairwise different.
abbrev pub HasDistinctKeys : List CanonicalGeneration → Type 0
HasDistinctKeys [] = Unit
HasDistinctKeys (g ∷ gs) = All (λ h. h.key ≢ g.key) gs × HasDistinctKeys gs

abbrev pub BeginsAfter : Option TraceProvenance → TraceProvenance → Type 0
BeginsAfter none begin = Unit
BeginsAfter (some end_coord) begin = end_coord.trace_ordinal < begin.trace_ordinal

-- Two neighbours are in order, and of one account the second begins after the first ends.
abbrev pub IsOrderedPair : CanonicalGeneration → CanonicalGeneration → Type 0
IsOrderedPair g1 g2 =
    (generation_order g1 g2 ≢ gt) × (g1.key.address ≡ g2.key.address → BeginsAfter g1.end g2.begin)

abbrev pub HasOrderedPairs : List CanonicalGeneration → Type 0
HasOrderedPairs [] = Unit
HasOrderedPairs (g1 ∷ []) = Unit
HasOrderedPairs (g1 ∷ g2 ∷ gs) = IsOrderedPair g1 g2 × HasOrderedPairs (g2 ∷ gs)

-- Each generation's key is new to the keys before it, and its end is after its begin.
abbrev pub Fresh : List GenerationKey → List CanonicalGeneration → Type 0
Fresh seen [] = Unit
Fresh seen (g ∷ gs) =
    (set_contains g.key seen ≡ false) × EndsAfter g.begin g.end × Fresh (g.key ∷ seen) gs

abbrev pub Holds : Schema → Type 0
Holds s = all_hold s.report ≡ true

check_key_iff :
    (g : CanonicalGeneration) (s : Schema)
    → (Holds (check_key g s) ↔ (Holds s × (set_contains g.key s.seen ≡ false)))
      × (set_contains g.key s.seen ≡ false → (check_key g s).seen ≡ g.key ∷ s.seen)
unfolding check_key
check_key_iff g s = (ground arith, ground arith)

check_interval_iff :
    (g : CanonicalGeneration) (e : Option TraceProvenance) (s : Schema)
    → (Holds (check_interval g e s) ↔ (Holds s × EndsAfter g.begin e))
      × ((check_interval g e s).seen ≡ s.seen)
unfolding check_interval
check_interval_iff g none s = (ground arith, refl)
check_interval_iff g (some e) s = (ground arith, ground arith)

pub check_generations_iff :
    (gs : List CanonicalGeneration) (s : Schema)
    → Holds (check_generations gs s) ↔ (Holds s × Fresh s.seen gs)
unfolding check_generations
check_generations_iff [] s = (λ h. (h, tt), λ h. h.0)
check_generations_iff (g ∷ gs) s =
    let t = check_key g s in
    let u = check_interval g g.end t in
    let (k, seen) = check_key_iff g s in
    let (i, same) = check_interval_iff g g.end t in
    let ih = check_generations_iff gs u in
    (
      λ h.
          let (hu, fresh) = ih.0 h in
          let (ht, ends) = i.0 hu in
          let (hs, new) = k.0 ht in
          (hs, (new, ends, subst (λ x. Fresh x gs) (same ∙ seen new) fresh)),
      λ h.
          ih.1 (
            i.1 (k.1 (h.0, h.1.0), h.1.1),
            subst (λ x. Fresh x gs) (sym (same ∙ seen h.1.0)) h.1.2,
          ),
    )

abbrev pub has_key : GenerationKey → List CanonicalGeneration → Bool
has_key k [] = false
has_key k (g ∷ gs) = k == g.key || has_key k gs

pub contains-check_generations :
    (k : GenerationKey) (gs : List CanonicalGeneration) (s : Schema)
    → set_contains k (check_generations gs s).seen ≡ (has_key k gs || set_contains k s.seen)
unfolding check_generations check_key set_contains
contains-check_generations k [] s = refl
contains-check_generations k (g ∷ gs) s =
    let t = check_key g s in
    contains-check_generations k gs (check_interval g g.end t)
    ∙ ap (λ x. has_key k gs || set_contains k x) (check_interval_iff g g.end t).1
    ∙ ground (arith, generation_key_eq.beq_iff k g.key)

pub check_balances_iff :
    (bs : List CanonicalBalance) (s : Schema)
    → Holds (check_balances bs s) ↔ (Holds s × All (λ b. set_contains b.key s.seen ≡ true) bs)
unfolding check_balances
check_balances_iff [] s = (λ h. (h, tt), λ h. h.0)
check_balances_iff (b ∷ bs) s = elim (Bool-cases (set_contains b.key s.seen)) [
  | inl known ↦ rw known (ground (arith, check_balances_iff bs s, known))
  | inr unknown ↦ rw unknown (
      ground (
        arith,
        check_balances_iff bs (record s {
          report = record s.report { referential_integrity = false };
          diagnostics =
              report_error b.location (LifecycleViolation.integrity_breach b.key) s.diagnostics;
        }),
        unknown,
      ))
]

check_order_iff :
    (g1 g2 : CanonicalGeneration) (s : Schema)
    → Holds (check_order g1 g2 s) ↔ (Holds s × (generation_order g1 g2 ≢ gt))
unfolding check_order
check_order_iff g1 g2 s = ground arith

check_overlap_iff :
    (g1 g2 : CanonicalGeneration) (e : Option TraceProvenance) (s : Schema)
    → Holds (check_overlap g1 g2 e s) ↔ (Holds s × BeginsAfter e g2.begin)
unfolding check_overlap
check_overlap_iff g1 g2 none s = ground arith
check_overlap_iff g1 g2 (some e) s = ground arith

check_window_iff :
    (g1 g2 : CanonicalGeneration) (s : Schema)
    → Holds (check_window g1 g2 s) ↔ (Holds s × IsOrderedPair g1 g2)
unfolding check_window
check_window_iff g1 g2 s =
    let o = check_order_iff g1 g2 s in
    let v = check_overlap_iff g1 g2 g1.end (check_order g1 g2 s) in
    let same = bytes_beq_iff g1.key.address g2.key.address in
    elim (Bool-cases (g1.key.address == g2.key.address)) [
      | inl one ↦ rw one (
        λ h. let (ho, after) = v.0 h in let (hs, le) = o.0 ho in (hs, (le, λ q. after)),
        λ h. v.1 (o.1 (h.0, h.1.0), h.1.1 (same.0 one)),
      )
      | inr two ↦ rw two (
        λ h. let (hs, le) = o.0 h in (hs, (le, λ q. absurd (ground (arith, same, two, q)))),
        λ h. o.1 (h.0, h.1.0),
      )
    ]

pub check_windows_iff :
    (gs : List CanonicalGeneration) (s : Schema)
    → Holds (check_windows gs s) ↔ (Holds s × HasOrderedPairs gs)
unfolding check_windows
check_windows_iff [] s = (λ h. (h, tt), λ h. h.0)
check_windows_iff (g ∷ []) s = (λ h. (h, tt), λ h. h.0)
check_windows_iff (g1 ∷ g2 ∷ gs) s =
    let ih = check_windows_iff (g2 ∷ gs) (check_window g1 g2 s) in
    let w = check_window_iff g1 g2 s in
    (
      λ h. let (hw, rest) = ih.0 h in let (hs, pair) = w.0 hw in (hs, (pair, rest)),
      λ h. ih.1 (w.1 (h.0, h.1.0), h.1.1),
    )
