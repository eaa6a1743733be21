-- ===== src/Prelude/Text/Decimal.antt =====
-- Python's `str` on a number, in an f-string.
use Prim.Native.Nat.{ℕ, zero, suc, ◌+◌, ◌/◌, ◌%◌}
use Prim.Native.String.{String, slice}
use fukawa.Prelude.{ltb, if◌then◌else◌, ◌+++◌}

-- the decimal digit d
abbrev digit : ℕ → String
digit d = slice "0123456789" d (d + 1)

abbrev decimal_within : (fuel : ℕ) → ℕ → String
decimal_within zero n = ""
decimal_within (suc fuel) n =
    let rest = decimal_within fuel (n / 10) in if ltb n 10 then digit n else rest +++ digit (n % 10)

-- A number has at most as many digits as the number that follows it.
unfoldable pub decimal : ℕ → String
decimal n = decimal_within (suc n) n
