-- ===== src/Base/Ints.antt =====
-- The `int` of the sources, as far as it is only stored, compared with 0 and converted.
use Prim.Native.Nat.{ℕ, suc, ◌-◌, ◌%◌, ◌^◌}
use mathlib.Core.Bool.{Bool, true, false}

pub data ℤ : Type 0 where
  pos negsuc : ℕ → ℤ

-- `0 <= n`
abbrev pub is_nonneg : ℤ → Bool
is_nonneg (pos n) = true
is_nonneg (negsuc n) = false

abbrev pub IsNonneg : ℤ → Type 0
IsNonneg (pos n) = Unit {0}
IsNonneg (negsuc n) = ⊥

-- Converted to a `size_t`.
abbrev pub to_size : ℤ → ℕ
to_size (pos n) = n
to_size (negsuc n) = (2 ^ 64 - suc n) % 2 ^ 64

-- What a count that starts at 0 has to stay below: a negative limit admits as little as 0.
abbrev pub to_limit : ℤ → ℕ
to_limit (pos n) = n
to_limit (negsuc n) = 0
