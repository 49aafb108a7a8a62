-- ===== src/Cse/Words.antt =====
-- The machine integers and byte arrays of the program. An integer is its value; what wraps or
-- truncates is written out where it happens.
use Prim.Native.Nat.{ℕ}
use kaysentinel.Base.Classes.{Bytes}

abbrev pub u32_mod : ℕ
u32_mod = 4_294_967_296

abbrev pub u64_mod : ℕ
u64_mod = 18_446_744_073_709_551_616

-- `[u8; 20]`
abbrev pub Address : Type 0
Address = Bytes

-- `[u8; 32]`
abbrev pub Word : Type 0
Word = Bytes
