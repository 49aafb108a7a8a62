-- ===== src/Builder/Lifecycle/Certificate/Fields.antt =====
-- What the table says of an account's fields, and what the builders gather of it.
use Prim.Native.Nat.Ordering.{eq}
use kaysentinel.Base.{
  ℕ, ◌≡◌, refl, Bool, false, ◌||◌, Option, none, some, [], ◌∷◌, All, arith, if◌then◌else◌,
}
use kaysentinel.Base.Classes.{
  ◌==◌, bytes_eq, bytes_ord, bytes_beq_iff, bytes_eq_of_cmp, bytes_cmp_refl,
}
use kaysentinel.Base.BTreeMap.{BTreeMap, get, IsSorted}
use kaysentinel.Base.BTreeMap.Laws.{get_not-Above}
use kaysentinel.Cse.{Address, Word}
use kaysentinel.Builder.Ir.{
  CanonicalKey, rank, key_address, key_cmp, key_eq_of_cmp, key_ord, ReducedVariant,
}
use kaysentinel.Builder.Lifecycle.Certificate.{CertificateFields, set_field}

-- The place of a variant's key in the order of keys.
abbrev pub variant_rank : ReducedVariant → ℕ
variant_rank (ReducedVariant.balance t) = 0
variant_rank (ReducedVariant.nonce t) = 1
variant_rank (ReducedVariant.code t) = 2
variant_rank (ReducedVariant.storage t) = 3
variant_rank (ReducedVariant.transient t) = 4

-- Every key has a variant of its own kind.
abbrev pub IsKeyed : BTreeMap CanonicalKey ReducedVariant → Type 0
IsKeyed table = All (λ e. rank e.0 ≡ variant_rank e.1) table

-- Whether a key of the table is of the account.
abbrev pub is_projected : Address → BTreeMap CanonicalKey ReducedVariant → Bool
is_projected a [] = false
is_projected a ((k, v) ∷ table) = key_address k == a || is_projected a table

-- The terminal values of an account's fields.
unfoldable pub terminal_nonce : BTreeMap CanonicalKey ReducedVariant → Address → Option ℕ
terminal_nonce table a = elim (get (CanonicalKey.nonce a) table) [
  | some (ReducedVariant.nonce t) ↦ some t.terminal
  | _ ↦ none
]

unfoldable pub terminal_balance : BTreeMap CanonicalKey ReducedVariant → Address → Option Word
terminal_balance table a = elim (get (CanonicalKey.balance a) table) [
  | some (ReducedVariant.balance t) ↦ some t.terminal
  | _ ↦ none
]

unfoldable pub terminal_code : BTreeMap CanonicalKey ReducedVariant → Address → Option Word
terminal_code table a = elim (get (CanonicalKey.code a) table) [
  | some (ReducedVariant.code t) ↦ some t.terminal
  | _ ↦ none
]

-- The fields that the entries of one account set.
unfoldable pub fields_from :
    Address → CertificateFields → BTreeMap CanonicalKey ReducedVariant → CertificateFields
fields_from a f [] = f
fields_from a f ((k, v) ∷ table) =
    fields_from a (if key_address k == a then set_field v f else f) table

abbrev pub first_of {ℓ} : {T : Type ℓ} → Option T → Option T → Option T
first_of none o = o
first_of (some t) o = some t

module _ (a : Address) where
  set_nonce :
      (k : CanonicalKey) (v : ReducedVariant) (f : CertificateFields)
      → rank k ≡ variant_rank v
      → (if key_address k == a then set_field v f else f).nonce
        ≡ (elim (key_cmp (CanonicalKey.nonce a) k) [
          | eq ↦ first_of (elim v [ ReducedVariant.nonce t ↦ some t.terminal | _ ↦ none ]) f.nonce
          | _ ↦ f.nonce
        ])
  unfolding set_field key_cmp
  set_nonce k v f h = ground (
    arith,
    key_eq_of_cmp (CanonicalKey.nonce a) k,
    bytes_beq_iff (key_address k) a,
    bytes_eq_of_cmp a (key_address k),
    bytes_cmp_refl a,
    bytes_cmp_refl [],
  )

  -- Over a sorted table, the entries set the terminal value.
  pub fields_from-nonce :
      (f : CertificateFields) (table : BTreeMap CanonicalKey ReducedVariant)
      → IsSorted table
      → IsKeyed table
      → (fields_from a f table).nonce ≡ first_of (terminal_nonce table a) f.nonce
  unfolding fields_from terminal_nonce get
  fields_from-nonce f [] s e = refl
  fields_from-nonce f ((k, v) ∷ table) s e = ground (
    arith,
    fields_from-nonce (if key_address k == a then set_field v f else f) table s.1 e.1,
    set_nonce k v f e.0,
    get_not-Above (CanonicalKey.nonce a) k table,
    s.0,
  )

  set_balance :
      (k : CanonicalKey) (v : ReducedVariant) (f : CertificateFields)
      → rank k ≡ variant_rank v
      → (if key_address k == a then set_field v f else f).balance
        ≡ (elim (key_cmp (CanonicalKey.balance a) k) [
          | eq ↦
              first_of (elim v [ ReducedVariant.balance t ↦ some t.terminal | _ ↦ none ]) f.balance
          | _ ↦ f.balance
        ])
  unfolding set_field key_cmp
  set_balance k v f h = ground (
    arith,
    key_eq_of_cmp (CanonicalKey.balance a) k,
    bytes_beq_iff (key_address k) a,
    bytes_eq_of_cmp a (key_address k),
    bytes_cmp_refl a,
    bytes_cmp_refl [],
  )

  -- Over a sorted table, the entries set the terminal value.
  pub fields_from-balance :
      (f : CertificateFields) (table : BTreeMap CanonicalKey ReducedVariant)
      → IsSorted table
      → IsKeyed table
      → (fields_from a f table).balance ≡ first_of (terminal_balance table a) f.balance
  unfolding fields_from terminal_balance get
  fields_from-balance f [] s e = refl
  fields_from-balance f ((k, v) ∷ table) s e = ground (
    arith,
    fields_from-balance (if key_address k == a then set_field v f else f) table s.1 e.1,
    set_balance k v f e.0,
    get_not-Above (CanonicalKey.balance a) k table,
    s.0,
  )

  set_code :
      (k : CanonicalKey) (v : ReducedVariant) (f : CertificateFields)
      → rank k ≡ variant_rank v
      → (if key_address k == a then set_field v f else f).code_hash
        ≡ (elim (key_cmp (CanonicalKey.code a) k) [
          | eq ↦
              first_of (elim v [ ReducedVariant.code t ↦ some t.terminal | _ ↦ none ]) f.code_hash
          | _ ↦ f.code_hash
        ])
  unfolding set_field key_cmp
  set_code k v f h = ground (
    arith,
    key_eq_of_cmp (CanonicalKey.code a) k,
    bytes_beq_iff (key_address k) a,
    bytes_eq_of_cmp a (key_address k),
    bytes_cmp_refl a,
    bytes_cmp_refl [],
  )

  -- Over a sorted table, the entries set the terminal value.
  pub fields_from-code :
      (f : CertificateFields) (table : BTreeMap CanonicalKey ReducedVariant)
      → IsSorted table
      → IsKeyed table
      → (fields_from a f table).code_hash ≡ first_of (terminal_code table a) f.code_hash
  unfolding fields_from terminal_code get
  fields_from-code f [] s e = refl
  fields_from-code f ((k, v) ∷ table) s e = ground (
    arith,
    fields_from-code (if key_address k == a then set_field v f else f) table s.1 e.1,
    set_code k v f e.0,
    get_not-Above (CanonicalKey.code a) k table,
    s.0,
  )
