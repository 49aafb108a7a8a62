-- ===== src/Builder/Lifecycle/Keys.antt =====
-- lifecycle/keys.rs and lifecycle/canonical.rs: the identity of a generation, and its span.
use Prim.Native.Nat.{compare, Ordering}
use kaysentinel.Base.{ℕ, ◌≡◌, ◌↔◌, Bool, true, ◌&&◌, Option, List, arith}
use kaysentinel.Base.Classes.{PartialEq, ◌==◌, nat_eq, bytes_eq, bytes_beq_iff, then_cmp, bytes_cmp}
use kaysentinel.Cse.{Address}
use kaysentinel.Builder.Ir.{TraceProvenance}

pub record GenerationKey : Type 0 where
  pub address : Address
  pub generation_id : ℕ

-- `GenerationKey`'s derived `PartialEq` and `Ord`.
abbrev pub generation_key_beq : GenerationKey → GenerationKey → Bool
generation_key_beq a b = a.address == b.address && a.generation_id == b.generation_id

pub generation_key_beq_iff : (a b : GenerationKey) → (generation_key_beq a b ≡ true) ↔ (a ≡ b)
generation_key_beq_iff a b = ground (arith, bytes_beq_iff a.address b.address)

instance abbrev pub generation_key_eq : PartialEq GenerationKey
generation_key_eq = record { beq = generation_key_beq; beq_iff = generation_key_beq_iff }

abbrev pub generation_key_cmp : GenerationKey → GenerationKey → Ordering
generation_key_cmp a b =
    then_cmp (bytes_cmp a.address b.address) (compare a.generation_id b.generation_id)

pub record CanonicalPreState : Type 0 where
  pub key : GenerationKey
  pub existed_before_tx : Bool

pub record CanonicalGeneration : Type 0 where
  pub key : GenerationKey
  pub begin : TraceProvenance
  pub end : Option TraceProvenance

-- `value` is a `[u64; 4]`.
pub record CanonicalBalance : Type 0 where
  pub key : GenerationKey
  pub value : List ℕ
  pub location : TraceProvenance

pub record CanonicalSemanticIr : Type 0 where
  pub pre_states : List CanonicalPreState
  pub generations : List CanonicalGeneration
  pub balances : List CanonicalBalance
