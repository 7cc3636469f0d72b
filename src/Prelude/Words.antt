-- ===== src/Prelude/Words.antt =====
-- The 64-bit unsigned arithmetic of the program (u64, and usize on a 64-bit machine), and u8.
use Prim.Native.Nat.{ℕ, ◌+◌, ◌-◌, ◌*◌, ◌%◌}

abbrev pub u64_mod : ℕ
u64_mod = 18_446_744_073_709_551_616

abbrev pub add_u64 : ℕ → ℕ → ℕ
add_u64 a b = (a + b) % u64_mod

abbrev pub sub_u64 : ℕ → ℕ → ℕ
sub_u64 a b = (a + u64_mod - b) % u64_mod

abbrev pub mul_u64 : ℕ → ℕ → ℕ
mul_u64 a b = (a * b) % u64_mod

abbrev pub u32_mod : ℕ
u32_mod = 4_294_967_296

abbrev pub add_u32 : ℕ → ℕ → ℕ
add_u32 a b = (a + b) % u32_mod

abbrev pub sub_u32 : ℕ → ℕ → ℕ
sub_u32 a b = (a + u32_mod - b) % u32_mod

abbrev pub mul_u32 : ℕ → ℕ → ℕ
mul_u32 a b = (a * b) % u32_mod

abbrev pub add_u8 : ℕ → ℕ → ℕ
add_u8 a b = (a + b) % 256

abbrev pub sub_u8 : ℕ → ℕ → ℕ
sub_u8 a b = (a + 256 - b) % 256
