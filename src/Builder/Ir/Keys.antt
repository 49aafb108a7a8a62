-- ===== src/Builder/Ir/Keys.antt =====
-- `EventId` and `CanonicalKey` of runtime/builder/src/ir/timeline.rs, with their derived orders.
use Prim.Native.Nat.{compare, Ordering}
use Prim.Native.Nat.Ordering.{lt, eq}
use kaysentinel.Base.{ℕ, ◌≡◌, arith, []}
use kaysentinel.Base.Classes.{
  Ord, then_cmp, flip, nat_cmp_refl, nat_eq_of_cmp, nat_cmp_flip, nat_lt_trans, bytes_cmp,
  bytes_cmp_refl, bytes_eq_of_cmp, bytes_cmp-flip, bytes_ord,
}
use kaysentinel.Cse.{Address, Word}
use kaysentinel.Builder.Errors.{EventId}

abbrev pub event_id_cmp : EventId → EventId → Ordering
event_id_cmp a b = compare a.id b.id

pub event_id_eq_of_cmp : (a b : EventId) → event_id_cmp a b ≡ eq → a ≡ b
event_id_eq_of_cmp a b h = ground (arith, nat_eq_of_cmp a.id b.id h)

instance abbrev pub event_id_ord : Ord EventId
event_id_ord = record {
  cmp = event_id_cmp;
  cmp_refl = λ a. nat_cmp_refl a.id;
  eq_of_cmp = event_id_eq_of_cmp;
  cmp_flip = λ a b. nat_cmp_flip a.id b.id;
  lt_trans = λ a b c. nat_lt_trans a.id b.id c.id;
}

pub data CanonicalKey : Type 0 where
  balance : Address → CanonicalKey
  nonce : Address → CanonicalKey
  code : Address → CanonicalKey
  storage : Address → Word → CanonicalKey
  transient : Address → Word → CanonicalKey

-- The place of the variant in the declaration, which the derived order compares first.
abbrev pub rank : CanonicalKey → ℕ
rank (balance a) = 0
rank (nonce a) = 1
rank (code a) = 2
rank (storage a s) = 3
rank (transient a s) = 4

abbrev pub key_address : CanonicalKey → Address
key_address (balance a) = a
key_address (nonce a) = a
key_address (code a) = a
key_address (storage a s) = a
key_address (transient a s) = a

abbrev pub key_slot : CanonicalKey → Word
key_slot (storage a s) = s
key_slot (transient a s) = s
key_slot _ = []

unfoldable pub key_cmp : CanonicalKey → CanonicalKey → Ordering
key_cmp a b =
    then_cmp (compare (rank a) (rank b))
      (then_cmp (bytes_cmp (key_address a) (key_address b)) (bytes_cmp (key_slot a) (key_slot b)))

pub key_cmp_refl : (a : CanonicalKey) → key_cmp a a ≡ eq
unfolding key_cmp
key_cmp_refl a =
    ground
      (arith, nat_cmp_refl (rank a), bytes_cmp_refl (key_address a), bytes_cmp_refl (key_slot a))

-- The three compared parts determine the key.
key_parts :
    (a b : CanonicalKey)
    → rank a ≡ rank b
    → key_address a ≡ key_address b
    → key_slot a ≡ key_slot b
    → a ≡ b
key_parts (balance a) b r p q = ground arith
key_parts (nonce a) b r p q = ground arith
key_parts (code a) b r p q = ground arith
key_parts (storage a s) b r p q = ground arith
key_parts (transient a s) b r p q = ground arith

pub key_eq_of_cmp : (a b : CanonicalKey) → key_cmp a b ≡ eq → a ≡ b
unfolding key_cmp
key_eq_of_cmp a b h = ground (
  arith,
  key_parts a b,
  nat_eq_of_cmp (rank a) (rank b),
  bytes_eq_of_cmp (key_address a) (key_address b),
  bytes_eq_of_cmp (key_slot a) (key_slot b),
)

pub key_cmp-flip : (a b : CanonicalKey) → key_cmp b a ≡ flip (key_cmp a b)
unfolding key_cmp
key_cmp-flip a b = ground (
  arith,
  nat_cmp_flip (rank a) (rank b),
  bytes_cmp-flip (key_address a) (key_address b),
  bytes_cmp-flip (key_slot a) (key_slot b),
)

module _ {A B : Type 0} (p : Ord A) (q : Ord B) where
  -- Comparing by one part and then by another is transitive, if both are.
  then_trans :
      (a b c : A) (x y z : B)
      → then_cmp (p.cmp a b) (q.cmp x y) ≡ lt
      → then_cmp (p.cmp b c) (q.cmp y z) ≡ lt
      → then_cmp (p.cmp a c) (q.cmp x z) ≡ lt
  then_trans a b c x y z h k =
      ground
        (arith, p.eq_of_cmp a b, p.eq_of_cmp b c, p.cmp_refl a, p.lt_trans a b c, q.lt_trans x y z)

pub key_lt_trans : (a b c : CanonicalKey) → key_cmp a b ≡ lt → key_cmp b c ≡ lt → key_cmp a c ≡ lt
unfolding key_cmp
key_lt_trans a b c h k = ground (
  arith,
  nat_eq_of_cmp (rank a) (rank b),
  nat_eq_of_cmp (rank b) (rank c),
  nat_cmp_refl (rank a),
  nat_lt_trans (rank a) (rank b) (rank c),
  then_trans bytes_ord bytes_ord (key_address a) (key_address b) (key_address c) (key_slot a)
      (key_slot b) (key_slot c),
)

instance abbrev pub key_ord : Ord CanonicalKey
key_ord = record {
  cmp = key_cmp;
  cmp_refl = key_cmp_refl;
  eq_of_cmp = key_eq_of_cmp;
  cmp_flip = key_cmp-flip;
  lt_trans = key_lt_trans;
}
