-- ===== src/Base/Positions.antt =====
-- Positions in a text, as `std::string` gives them: a `size_t`, whose greatest value is `npos`.
use conv_event.Base.Lists.{Bytes, length, take, drop}
use conv_event.Base.Tests.{◌==◌, ltb, if◌then◌else◌}
use Prim.Native.Nat.{ℕ, suc, ◌+◌, ◌-◌, ◌%◌, ◌^◌}
use mathlib.Core.Bool.{Bool, true, false, ◌&&◌}
use mathlib.Core.Option.{Option, none, some}
use mathlib.Core.List.{[], ◌∷◌}

abbrev pub npos : ℕ
npos = 2 ^ 64 - 1

-- `a + b` and `a - b` of a `size_t`.
abbrev pub add_size : ℕ → ℕ → ℕ
add_size a b = (a + b) % 2 ^ 64

abbrev pub sub_size : ℕ → ℕ → ℕ
sub_size a b = (a + 2 ^ 64 - b) % 2 ^ 64

unfoldable pub is_prefix : Bytes → Bytes → Bool
is_prefix [] text = true
is_prefix (c ∷ pattern) [] = false
is_prefix (c ∷ pattern) (d ∷ text) = (c == d) && is_prefix pattern text

-- The first place of the pattern in a text whose first character stands at `i`.
unfoldable pub find_at : Bytes → Bytes → ℕ → ℕ
unfolding is_prefix
find_at pattern [] i = npos
find_at pattern (c ∷ text) i =
    if is_prefix pattern (c ∷ text) then i else find_at pattern text (suc i)

-- `text.find(pattern, from)`, for a pattern that is not empty.
unfoldable pub find : Bytes → Bytes → ℕ → ℕ
unfolding find_at
find pattern text from = find_at pattern (drop from text) from

-- `text.substr(start, count)`, which throws where it starts behind the end.
unfoldable pub substr : Bytes → ℕ → ℕ → Option Bytes
substr text start count =
    if ltb (length text) start then none else some (take count (drop start text))
