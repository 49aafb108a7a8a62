-- ===== src/Ssz/Integers.antt =====
-- `to_le_bytes` and `from_le_bytes` of the machine integers.
use kaysentinel.Base.{
  ℕ, zero, suc, ◌+◌, ◌*◌, ◌/◌, ◌%◌, ◌^◌, ◌<◌, ◌≡◌, refl, ap, [], ◌∷◌, arith, All, length,
}
use kaysentinel.Base.Classes.{Bytes}
use native.Mathlib.Nat.{pow-succ'}

-- The `k` low bytes of an integer, the least significant first.
unfoldable pub to_le_bytes : ℕ → ℕ → Bytes
to_le_bytes zero n = []
to_le_bytes (suc k) n = n % 256 ∷ to_le_bytes k (n / 256)

unfoldable pub from_le_bytes : Bytes → ℕ
from_le_bytes [] = 0
from_le_bytes (b ∷ bs) = b + 256 * from_le_bytes bs

-- The values of a byte string are bytes.
abbrev pub IsBytes : Bytes → Type 0
IsBytes bs = All (λ b. b < 256) bs

pub length-to_le_bytes : (k n : ℕ) → length (to_le_bytes k n) ≡ k
unfolding to_le_bytes
length-to_le_bytes zero n = refl
length-to_le_bytes (suc k) n = ap suc (length-to_le_bytes k (n / 256))

pub to_le_bytes-IsBytes : (k n : ℕ) → IsBytes (to_le_bytes k n)
unfolding to_le_bytes
to_le_bytes-IsBytes zero n = tt
to_le_bytes-IsBytes (suc k) n = (omega arith, to_le_bytes-IsBytes k (n / 256))

pub from-to_le_bytes : (k n : ℕ) → n < 256 ^ k → from_le_bytes (to_le_bytes k n) ≡ n
unfolding to_le_bytes from_le_bytes
from-to_le_bytes zero n h = omega arith
from-to_le_bytes (suc k) n h =
    omega (arith, from-to_le_bytes k (n / 256) (omega (arith, pow-succ' 256 k)))

pub to-from_le_bytes :
    (k : ℕ) (bs : Bytes) → IsBytes bs → length bs ≡ k → to_le_bytes k (from_le_bytes bs) ≡ bs
unfolding to_le_bytes from_le_bytes
to-from_le_bytes zero [] v h = refl
to-from_le_bytes (suc k) [] v h = absurd (omega arith)
to-from_le_bytes zero (b ∷ bs) v h = absurd (omega arith)
to-from_le_bytes (suc k) (b ∷ bs) v h =
    let low : (b + 256 * from_le_bytes bs) % 256 ≡ b = omega (arith, v.0) in
    let high : (b + 256 * from_le_bytes bs) / 256 ≡ from_le_bytes bs = omega (arith, v.0) in
    rw (low, high) (ap (λ t. b ∷ t) (to-from_le_bytes k bs v.1 (omega arith)))
