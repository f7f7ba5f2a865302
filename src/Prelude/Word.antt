-- ===== src/Prelude/Word.antt =====
-- Sizes of the machine words of the x86-64 build.
use Prim.Native.Nat.{ℕ, ◌^◌}

-- `size_t` and `unsigned long` count modulo this.
abbrev pub u64_mod : ℕ
u64_mod = 2 ^ 64
