-- ===== src/Cli/Numbers.antt =====
-- `int32(n)` of an int, as internal/cli/tasks.go converts the numbers of its flags.
use el_pulpo_ai.Prelude.{ℕ, ◌-◌, ℤ, pos, negsuc, ltb, if◌then◌else◌}
use Prim.Native.Nat.{◌%◌}

-- The two's complement of 32 bits, as a natural number.
unfoldable pub low_word : ℤ → ℕ
low_word (pos n) = n % 4294967296
low_word (negsuc n) = 4294967295 - n % 4294967296

unfoldable pub signed : ℕ → ℤ
signed w = if ltb w 2147483648 then pos w else negsuc (4294967295 - w)

unfoldable pub to_int32 : ℤ → ℤ
unfolding low_word signed
to_int32 n = signed (low_word n)
